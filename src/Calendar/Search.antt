-- ===== src/Calendar/Search.antt =====
-- generateSlots of slot-engine.ts against the description of the slots that may be offered.
use hermes_n8n.Prelude.{
  ◌-◌, ◌&&◌, ltb, leb, ◌-◌, ℕ, ◌+◌, ◌*◌, ◌/◌, ◌≤◌, ◌<◌, ◌≡◌, ◌↔◌, refl, subst, some, List, [], ◌∷◌,
  Member, All, inl, inr, Bool-cases, Option-cases, arith,
}
use hermes_n8n.Calendar.Slots.{
  Zone, CalendarSlot, CalendarPolicy, AvailabilityRequest, day_ms, between, opening, closing,
  generate_slots, valid_range, valid_ranges, days,
}
use hermes_n8n.Calendar.Days.{Offered}
use hermes_n8n.Calendar.Offered.{days-Offered, Offered-days}
use hermes_n8n.Calendar.Free.{
  IsOffer, OnGrid-IsFree, IsFree-OnGrid, is_business_day-IsBusinessDay,
  IsBusinessDay-is_business_day, zoned_date-Shows,
}

-- The instants of ranges.
pub data Instants : List AvailabilityRequest → List CalendarSlot → Type 0 where
  no_ranges : Instants [] []
  one_more :
      (r : AvailabilityRequest) (rs : List AvailabilityRequest) (s : CalendarSlot)
      (ss : List CalendarSlot)
      → r.from ≡ some s.start
      → r.to ≡ some s.end
      → Instants rs ss
      → Instants (r ∷ rs) (s ∷ ss)

-- A range ends after its start, at most 32 days later.
pub record IsRange (s : CalendarSlot) : Type 0 where
  pub forward : s.start < s.end
  pub short : s.end ≤ s.start + 32 * 86_400_000

between-IsRange :
    (a b : ℕ) (s : CalendarSlot) → between a b ≡ some s → (s.start ≡ a) × (s.end ≡ b) × IsRange s
unfolding between
between-IsRange a b s h = elim (Bool-cases (ltb a b && leb (b - a) (32 * day_ms))) [
  | inr n ↦ absurd (cc (rw n at h))
  | inl y ↦
      let e = the_slot (record { start = a; end = b }) s (rw y at h) in
      subst (λ k. (k.start ≡ a) × (k.end ≡ b) × IsRange k) e
        (refl, refl, record { forward = ground (arith, y); short = ground (arith, y) })
]
  where
    the_slot : (a b : CalendarSlot) → some a ≡ some b → a ≡ b
    the_slot a b h = cc

same_times : (a b : CalendarSlot) → a.start ≡ b.start → a.end ≡ b.end → a ≡ b
same_times a b h k = cc

valid_range-IsRange :
    (r : AvailabilityRequest) (s t : CalendarSlot)
    → r.from ≡ some s.start
    → r.to ≡ some s.end
    → valid_range r ≡ some t
    → (t ≡ s) × IsRange s
unfolding valid_range
valid_range-IsRange r s t f g h =
    let (a, b, v) = between-IsRange s.start s.end t (rw (f, valid_range, g) at h) in
    let e = same_times t s a b in (e, subst IsRange e v)

same_rest : (s : CalendarSlot) (a b : List CalendarSlot) → some (s ∷ a) ≡ some b → b ≡ s ∷ a
same_rest s a b h = cc

valid_ranges-Instants :
    (rs : List AvailabilityRequest) (ss ts : List CalendarSlot)
    → Instants rs ss
    → valid_ranges rs ≡ some ts
    → (ts ≡ ss) × All IsRange ss
unfolding valid_ranges
valid_ranges-Instants rs ss ts Instants.no_ranges h = (cc, tt)
valid_ranges-Instants rs ss ts (Instants.one_more q qs s more f g i) h =
    elim (Option-cases (valid_range q)) [
      | inl e ↦ absurd (cc (rw (e, valid_ranges) at h))
      | inr (t, e) ↦ elim (Option-cases (valid_ranges qs)) [
        | inl k ↦ absurd (cc (rw (e, valid_ranges, k) at h))
        | inr (us, k) ↦
            let (same, v) = valid_range-IsRange q s t f g e in
            let (rest, vs) = valid_ranges-Instants qs more us i k in
            let all = same_rest t us ts (rw (e, valid_ranges, k) at h) in
            (rw (all, same, rest) refl, (v, vs))
      ]
    ]

module _ (policy : CalendarPolicy) (range : CalendarSlot) (busy : List CalendarSlot) (now : ℕ)
    (zone : Zone) (n first : ℕ) where
  Offered-IsOffer :
      (s : CalendarSlot)
      → Offered policy range busy now zone n first s
      → IsOffer policy range busy now zone n first s
  unfolding opening closing
  Offered-IsOffer s o = record {
    day = o.on;
    visited = o.visited;
    business = is_business_day-IsBusinessDay policy range busy now o.on o.business;
    opens = o.opens;
    opening_time = o.opening_time;
    shows_opening =
        zoned_date-Shows zone o.on policy.start_hour policy.start_minute o.opens o.opening_time;
    closes = o.closes;
    closing_time = o.closing_time;
    shows_closing =
        zoned_date-Shows zone o.on policy.end_hour policy.end_minute o.closes o.closing_time;
    free = OnGrid-IsFree policy range busy now o.closes o.opens s o.on_grid;
  }

  IsOffer-Offered :
      (s : CalendarSlot)
      → IsOffer policy range busy now zone n first s
      → Offered policy range busy now zone n first s
  unfolding opening closing
  IsOffer-Offered s o = record {
    on = o.day;
    visited = o.visited;
    business = IsBusinessDay-is_business_day policy range busy now o.day o.business;
    opens = o.opens;
    opening_time = o.opening_time;
    closes = o.closes;
    closing_time = o.closing_time;
    on_grid = IsFree-OnGrid policy range busy now o.closes o.opens s o.free;
  }

-- If generateSlots returns, then the range asked for and the busy ones have a start before their end
-- and at most 32 days, and a slot is among those returned exactly if it lies on one of the policy's
-- weekdays among the days that the search visits, starts a whole number of quarters of an hour after
-- the opening time and lasts the policy's minutes, ends by closing time and by the end of the range,
-- starts after the present and not before the range, and is apart from every busy range by the
-- buffer; where the clocks of the zone show the policy's hours at opening and closing time.
pub generate_slots_iff :
    (zone : Zone) (request : AvailabilityRequest) (busy : List AvailabilityRequest)
    (policy : CalendarPolicy) (now : ℕ) (range : CalendarSlot) (taken slots : List CalendarSlot)
    → request.from ≡ some range.start
    → request.to ≡ some range.end
    → Instants busy taken
    → generate_slots zone request busy policy now ≡ some slots
    → IsRange range
      × All IsRange taken
      × ((s : CalendarSlot)
          → Member s slots
            ↔ IsOffer policy range taken now zone 33 (zone.local_time range.start / 86_400_000) s)
unfolding generate_slots
generate_slots_iff zone request busy policy now range taken slots f g i h =
    elim (Option-cases (valid_range request)) [
      | inl e ↦ absurd (cc (rw (e, generate_slots) at h))
      | inr (r, e) ↦ elim (Option-cases (valid_ranges busy)) [
        | inl k ↦ absurd (cc (rw (e, generate_slots, k) at h))
        | inr (t, k) ↦
            let (same, v) = valid_range-IsRange request range r f g e in
            let (rest, vs) = valid_ranges-Instants busy taken t i k in
            let first = zone.local_time range.start / day_ms in
            let found : days policy range taken now zone 33 first ≡ some slots =
              rw (same, rest) at (rw (e, generate_slots, k) at h) in
            (
              v,
              vs,
              λ s. (
                λ m.
                    Offered-IsOffer policy range taken now zone 33 first s
                      (days-Offered policy range taken now zone 33 first slots found s m),
                λ o.
                    Offered-days policy range taken now zone 33 first slots found s
                      (IsOffer-Offered policy range taken now zone 33 first s o),
              ),
            )
      ]
    ]
