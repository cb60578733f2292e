-- ===== src/Calendar/Free.antt =====
-- The free slots of a calendar, described apart from the tests of slot-engine.ts, and those tests
-- against the description.
use hermes_n8n.Prelude.{
  ◌-◌, ◌-◌, ℕ, ◌+◌, ◌*◌, ◌/◌, ◌%◌, ◌≤◌, ◌<◌, ◌≡◌, ◌⊎◌, refl, Bool, true, false, some, List, [], ◌∷◌,
  Member, any, inl, inr, Bool-cases, arith, ◌==◌, ==_refl,
}
use hermes_n8n.Calendar.Slots.{
  adjust, Zone, CalendarSlot, CalendarPolicy, day_ms, zoned_date, is_business_day, week_day,
  overlaps, is_free,
}
use hermes_n8n.Calendar.Grid.{OnGrid}
use hermes_n8n.Calendar.Days.{Visits}

-- A slot on the grid of quarters of an hour from `opens` on, which ends by `closes`.
pub record IsFree (policy : CalendarPolicy) (range : CalendarSlot) (busy : List CalendarSlot)
    (now closes opens : ℕ) (s : CalendarSlot) : Type 0 where
  pub quarter : ℕ
  pub on_grid : s.start ≡ opens + quarter * 900_000
  pub lasts : s.end ≡ s.start + policy.duration_minutes * 60_000
  pub in_hours : s.end ≤ closes
  pub in_future : now < s.start
  pub not_before : range.start ≤ s.start
  pub not_after : s.end ≤ range.end
  pub clear :
      (b : CalendarSlot)
      → Member b busy
      → (b.end + policy.buffer_minutes * 60_000 ≤ s.start)
        ⊎ (s.end + policy.buffer_minutes * 60_000 ≤ b.start)

-- The day is one of the policy's weekdays, from 1 for Monday to 7; day 0 was a Thursday.
pub record IsBusinessDay (policy : CalendarPolicy) (day : ℕ) : Type 0 where
  pub weekday : ℕ
  pub listed : Member weekday policy.business_days
  pub from_monday : 1 ≤ weekday
  pub to_sunday : weekday ≤ 7
  pub week : ℕ
  pub counted : day + 4 ≡ week * 7 + weekday

-- The clocks of the zone show the day, hour and minute at the instant.
abbrev pub Shows : Zone → (day hour minute t : ℕ) → Type 0
Shows zone day hour minute t = zone.local_time t / 60_000 ≡ day * 1440 + hour * 60 + minute

-- What may be offered: a free slot in the hours of a business day that the search visits.
pub record IsOffer (policy : CalendarPolicy) (range : CalendarSlot) (busy : List CalendarSlot)
    (now : ℕ) (zone : Zone) (n first : ℕ) (s : CalendarSlot) : Type 0 where
  pub day : ℕ
  pub visited : Visits policy range busy now zone n first day
  pub business : IsBusinessDay policy day
  pub opens : ℕ
  pub opening_time : zoned_date zone day policy.start_hour policy.start_minute ≡ some opens
  pub shows_opening : Shows zone day policy.start_hour policy.start_minute opens
  pub closes : ℕ
  pub closing_time : zoned_date zone day policy.end_hour policy.end_minute ≡ some closes
  pub shows_closing : Shows zone day policy.end_hour policy.end_minute closes
  pub free : IsFree policy range busy now closes opens s

any-false :
    (p : CalendarSlot → Bool) (xs : List CalendarSlot)
    → any p xs ≡ false
    → (a : CalendarSlot) → Member a xs
    → p a ≡ false
any-false p [] h a m = elim m [ ]
any-false p (x ∷ xs) h a (inl e) = rw e (ground (arith, h))
any-false p (x ∷ xs) h a (inr m) = any-false p xs (ground (arith, h)) a m

false-any :
    (p : CalendarSlot → Bool) (xs : List CalendarSlot)
    → ((a : CalendarSlot) → Member a xs → p a ≡ false)
    → any p xs ≡ false
false-any p [] h = refl
false-any p (x ∷ xs) h = rw (h x (inl refl)) (false-any p xs (λ a m. h a (inr m)))

any_day-Member : (w : ℕ) (xs : List ℕ) → any (λ d. d == w) xs ≡ true → Member w xs
any_day-Member w [] h = absurd (cc)
any_day-Member w (x ∷ xs) h = elim (Bool-cases (x == w)) [
  | inl y ↦ inl (ground (arith, y))
  | inr n ↦ inr (any_day-Member w xs (rw n at h))
]

Member-any_day : (w : ℕ) (xs : List ℕ) → Member w xs → any (λ d. d == w) xs ≡ true
Member-any_day w [] m = elim m [ ]
Member-any_day w (x ∷ xs) (inl e) = rw (← e, ==_refl w) refl
Member-any_day w (x ∷ xs) (inr m) = elim (Bool-cases (x == w)) [
  | inl y ↦ rw y refl
  | inr n ↦ rw n (Member-any_day w xs m)
]

module _ (policy : CalendarPolicy) (range : CalendarSlot) (busy : List CalendarSlot) (now : ℕ) where
  pub OnGrid-IsFree :
      (closes opens : ℕ) (s : CalendarSlot)
      → OnGrid policy range busy now closes opens s
      → IsFree policy range busy now closes opens s
  unfolding is_free overlaps
  OnGrid-IsFree closes opens s g =
      let p : CalendarSlot → Bool = λ b. overlaps s b policy.buffer_minutes in
      let quiet : any p busy ≡ false = ground (arith, g.free) in
      record {
        quarter = g.index;
        on_grid = g.starts;
        lasts = g.ends;
        in_hours = g.fits;
        in_future = ground (arith, g.free);
        not_before = ground (arith, g.free);
        not_after = ground (arith, g.free);
        clear = λ b m. ground (arith, any-false p busy quiet b m);
      }

  pub IsFree-OnGrid :
      (closes opens : ℕ) (s : CalendarSlot)
      → IsFree policy range busy now closes opens s
      → OnGrid policy range busy now closes opens s
  unfolding is_free overlaps
  IsFree-OnGrid closes opens s f =
      let p : CalendarSlot → Bool = λ b. overlaps s b policy.buffer_minutes in
      let quiet : any p busy ≡ false = false-any p busy (λ b m. ground (arith, f.clear b m)) in
      record {
        index = f.quarter;
        starts = f.on_grid;
        ends = f.lasts;
        fits = f.in_hours;
        free = ground (arith, f.in_future, f.not_before, f.not_after, quiet);
      }

  pub is_business_day-IsBusinessDay :
      (day : ℕ) → is_business_day policy range busy now day ≡ true → IsBusinessDay policy day
  unfolding is_business_day week_day
  is_business_day-IsBusinessDay day h = elim (Bool-cases ((day + 4) % 7 == 0)) [
    | inl y ↦ record {
      weekday = 7;
      listed = any_day-Member 7 policy.business_days (rw (is_business_day, week_day, y) at h);
      from_monday = omega arith;
      to_sunday = omega arith;
      week = (day + 4) / 7 - 1;
      counted = ground (arith, y);
    }
    | inr n ↦ record {
      weekday = (day + 4) % 7;
      listed =
          any_day-Member ((day + 4) % 7) policy.business_days
            (rw (is_business_day, week_day, n) at h);
      from_monday = ground (arith, n);
      to_sunday = omega arith;
      week = (day + 4) / 7;
      counted = omega arith;
    }
  ]

  pub IsBusinessDay-is_business_day :
      (day : ℕ) → IsBusinessDay policy day → is_business_day policy range busy now day ≡ true
  unfolding is_business_day week_day
  IsBusinessDay-is_business_day day b =
      let same : week_day day ≡ b.weekday = ground (arith, b.from_monday, b.to_sunday, b.counted) in
      rw same (Member-any_day b.weekday policy.business_days b.listed)

pub zoned_date-Shows :
    (zone : Zone) (day hour minute t : ℕ)
    → zoned_date zone day hour minute ≡ some t
    → Shows zone day hour minute t
unfolding zoned_date
zoned_date-Shows zone day hour minute t h =
    let target = day * day_ms + hour * 3600000 + minute * 60000 in
    let result = adjust zone target 4 target in
    elim (Bool-cases (zone.local_time result / 60000 == target / 60000)) [
      | inr n ↦ absurd (cc (rw n at h))
      | inl y ↦
          let e : result ≡ t = same_instant result t (rw y at h) in
          shown zone day hour minute t (rw e at y)
    ]
  where
    same_instant : (a b : ℕ) → some a ≡ some b → a ≡ b
    same_instant a b h = cc

    shown :
        (zone : Zone) (day hour minute t : ℕ)
        → (zone.local_time t / 60000 == (day * day_ms + hour * 3600000 + minute * 60000) / 60000)
          ≡ true
        → Shows zone day hour minute t
    shown zone day hour minute t h = ground (arith, h)
