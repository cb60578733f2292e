-- ===== src/Calendar/Slots.antt =====
-- The slot engine: integrations/google-calendar/slot-engine.ts. Instants are milliseconds. A text of
-- an instant is the number that Date.parse gives, or none if the test of validRange refuses it. What
-- Intl says of a time zone is an argument: `local_time` is the instant that the local parts of an
-- instant name in UTC, localParts and then Date.UTC. A date is its day number, so that
-- Date.UTC(y, m, d) is the day times the length of a day. `none` is an exception.
use hermes_n8n.Prelude.{
  ℕ, zero, suc, ◌+◌, ◌-◌, ◌*◌, ◌/◌, ◌%◌, Bool, not, ◌&&◌, ◌==◌, ltb, leb, Option, none, some, List,
  [], ◌∷◌, ◌++◌, if◌then◌else◌, any,
}

pub record Zone : Type 0 where
  pub local_time : ℕ → ℕ

pub record CalendarSlot : Type 0 where
  pub start : ℕ
  pub end : ℕ

pub record AvailabilityRequest : Type 0 where
  pub from : Option ℕ
  pub to : Option ℕ

pub record CalendarPolicy : Type 0 where
  pub duration_minutes : ℕ
  pub buffer_minutes : ℕ
  pub start_hour : ℕ
  pub start_minute : ℕ
  pub end_hour : ℕ
  pub end_minute : ℕ
  pub business_days : List ℕ

abbrev pub day_ms : ℕ
day_ms = 86400000

-- The rounds of the loop in zonedDate.
unfoldable pub adjust : Zone → ℕ → ℕ → ℕ → ℕ
adjust zone target zero result = result
adjust zone target (suc rounds) result =
    let next = result + target - zone.local_time result in
    let rest = adjust zone target rounds next in
    if zone.local_time result == target then result else rest

-- The parts are compared up to the minute.
unfoldable pub zoned_date : Zone → (day hour minute : ℕ) → Option ℕ
unfolding adjust
zoned_date zone day hour minute =
    let target = day * day_ms + hour * 3600000 + minute * 60000 in
    let result = adjust zone target 4 target in
    if zone.local_time result / 60000 == target / 60000 then some result else none

unfoldable pub between : ℕ → ℕ → Option CalendarSlot
between start end =
    if ltb start end && leb (end - start) (32 * day_ms)
    then some (record { start = start; end = end })
    else none

-- validRange, with the instants of the range.
unfoldable pub valid_range : AvailabilityRequest → Option CalendarSlot
unfolding between
valid_range range = elim range.from [
  | none ↦ none
  | some from ↦ elim range.to [ none ↦ none | some to ↦ between from to ]
]

unfoldable pub valid_ranges : List AvailabilityRequest → Option (List CalendarSlot)
unfolding valid_range
valid_ranges [] = some []
valid_ranges (r ∷ rs) = elim (valid_range r) [
  | none ↦ none
  | some s ↦ elim (valid_ranges rs) [ none ↦ none | some ss ↦ some (s ∷ ss) ]
]

unfoldable pub overlaps : CalendarSlot → CalendarSlot → ℕ → Bool
overlaps a b buffer_minutes =
    let buffer = buffer_minutes * 60000 in
    ltb a.start (b.end + buffer) && ltb b.start (a.end + buffer)

-- `cursor.getUTCDay() || 7`; day 0 was a Thursday.
unfoldable pub week_day : ℕ → ℕ
week_day day = let d = (day + 4) % 7 in if d == 0 then 7 else d

abbrev pub step_ms : ℕ
step_ms = 15 * 60000

abbrev pub duration : CalendarPolicy → ℕ
duration policy = policy.duration_minutes * 60000

abbrev pub slot_at : CalendarPolicy → ℕ → CalendarSlot
slot_at policy t = record { start = t; end = t + duration policy }

module _ (policy : CalendarPolicy) (range : CalendarSlot) (busy : List CalendarSlot) (now : ℕ) where
  unfoldable pub is_free : CalendarSlot → Bool
  unfolding overlaps
  is_free slot =
      ltb now slot.start
      && (leb range.start slot.start
          && (leb slot.end range.end
              && not (any (λ b. overlaps slot b policy.buffer_minutes) busy)))

  -- The loop over the quarters of an hour, from `t` on.
  unfoldable pub quarters : (close fuel t : ℕ) → List CalendarSlot
  unfolding is_free
  quarters close zero t = []
  quarters close (suc fuel) t =
      let rest = quarters close fuel (t + step_ms) in
      let free = if is_free (slot_at policy t) then slot_at policy t ∷ rest else rest in
      if leb (t + duration policy) close then free else []

  unfoldable pub is_business_day : ℕ → Bool
  unfolding week_day
  is_business_day day = any (λ d. d == week_day day) policy.business_days

  unfoldable pub opening : Zone → ℕ → Option ℕ
  unfolding zoned_date
  opening zone day = zoned_date zone day policy.start_hour policy.start_minute

  unfoldable pub closing : Zone → ℕ → Option ℕ
  unfolding zoned_date
  closing zone day = zoned_date zone day policy.end_hour policy.end_minute

  -- The slots of one day; the loop over the quarters has fuel for every millisecond until closing.
  unfoldable pub day_slots : Zone → ℕ → Option (List CalendarSlot)
  unfolding opening closing quarters
  day_slots zone day = elim (opening zone day) [
    | none ↦ none
    | some opened ↦ elim (closing zone day) [
      | none ↦ none
      | some close ↦ some (quarters close (suc close) opened)
    ]
  ]

  -- The loop over the days.
  unfoldable pub days : Zone → ℕ → ℕ → Option (List CalendarSlot)
  unfolding zoned_date is_business_day day_slots
  days zone zero day = some []
  days zone (suc n) day =
      let rest = days zone n (suc day) in
      let both : Option (List CalendarSlot) = elim (day_slots zone day) [
        | none ↦ none
        | some slots ↦ elim rest [ none ↦ none | some more ↦ some (slots ++ more) ]
      ] in
      elim (zoned_date zone day 0 0) [
        | none ↦ none
        | some midnight ↦
            if leb range.end midnight then some [] else if is_business_day day then both else rest
      ]

unfoldable pub generate_slots :
    Zone
    → AvailabilityRequest
    → List AvailabilityRequest
    → CalendarPolicy
    → ℕ
    → Option (List CalendarSlot)
unfolding valid_range valid_ranges days
generate_slots zone request busy policy now = elim (valid_range request) [
  | none ↦ none
  | some range ↦ elim (valid_ranges busy) [
    | none ↦ none
    | some taken ↦ days policy range taken now zone 33 (zone.local_time range.start / day_ms)
  ]
]
