-- ===== src/Calendar/Days.antt =====
-- The loop over the days, slot-engine.ts: a description of the slots it is to offer, and its rounds.
use hermes_n8n.Prelude.{
  ℕ, suc, ◌≤◌, ◌<◌, ◌≡◌, ◌⊎◌, sym, Bool, true, false, leb, some, List, [], ◌∷◌, ◌++◌, Member, inl,
  inr, Bool-cases, Option-cases, arith,
}
use hermes_n8n.Calendar.Slots.{
  Zone, CalendarSlot, CalendarPolicy, quarters, zoned_date, is_business_day, opening, closing,
  day_slots, days,
}
use hermes_n8n.Calendar.Grid.{OnGrid}

pub Member-left : {A : Type 0} (a : A) (xs ys : List A) → Member a xs → Member a (xs ++ ys)
Member-left a [] ys m = elim m [ ]
Member-left a (x ∷ xs) ys (inl e) = inl e
Member-left a (x ∷ xs) ys (inr m) = inr (Member-left a xs ys m)

pub Member-right : {A : Type 0} (a : A) (xs ys : List A) → Member a ys → Member a (xs ++ ys)
Member-right a [] ys m = m
Member-right a (x ∷ xs) ys m = inr (Member-right a xs ys m)

pub Member-append :
    {A : Type 0} (a : A) (xs ys : List A) → Member a (xs ++ ys) → Member a xs ⊎ Member a ys
Member-append a [] ys m = inr m
Member-append a (x ∷ xs) ys (inl e) = inl (inl e)
Member-append a (x ∷ xs) ys (inr m) = elim (Member-append a xs ys m) [
  | inl k ↦ inl (inr k)
  | inr k ↦ inr k
]

pub closed_day : {b : Bool} → b ≡ true → b ≡ false → ⊥
closed_day h k = cc

module _ (policy : CalendarPolicy) (range : CalendarSlot) (busy : List CalendarSlot) (now : ℕ)
    (zone : Zone) where
  -- The loop over `n` days from `day` on comes to `visited`: the midnights up to it are before the end
  -- of the range.
  pub data Visits : (n day visited : ℕ) → Type 0 where
    here :
        (n day midnight : ℕ)
        → zoned_date zone day 0 0 ≡ some midnight
        → midnight < range.end
        → Visits (suc n) day day
    later :
        (n day visited midnight : ℕ)
        → zoned_date zone day 0 0 ≡ some midnight
        → midnight < range.end
        → Visits n (suc day) visited
        → Visits (suc n) day visited

  -- A slot of a business day, on the grid of quarters from its opening time on, by its closing time:
  -- in the future, within the range, and with the buffer free of what is busy.
  pub record Offered (n day : ℕ) (s : CalendarSlot) : Type 0 where
    pub on : ℕ
    pub visited : Visits n day on
    pub business : is_business_day policy range busy now on ≡ true
    pub opens : ℕ
    pub opening_time : opening policy range busy now zone on ≡ some opens
    pub closes : ℕ
    pub closing_time : closing policy range busy now zone on ≡ some closes
    pub on_grid : OnGrid policy range busy now closes opens s

  -- One round of the loop over the days that returns `slots`.
  pub data Round (n day midnight : ℕ) (slots : List CalendarSlot) : Type 0 where
    over : range.end ≤ midnight → slots ≡ [] → Round n day midnight slots
    idle :
        midnight < range.end
        → is_business_day policy range busy now day ≡ false
        → days policy range busy now zone n (suc day) ≡ some slots
        → Round n day midnight slots
    open_day :
        midnight < range.end
        → is_business_day policy range busy now day ≡ true
        → (first rest : List CalendarSlot) → day_slots policy range busy now zone day ≡ some first
        → days policy range busy now zone n (suc day) ≡ some rest
        → slots ≡ first ++ rest
        → Round n day midnight slots

  pub the_slots : (a b : List CalendarSlot) → some a ≡ some b → a ≡ b
  the_slots a b h = cc

  pub days-Round :
      (n day : ℕ) (slots : List CalendarSlot)
      → days policy range busy now zone (suc n) day ≡ some slots
      → (midnight : ℕ) × (zoned_date zone day 0 0 ≡ some midnight) × Round n day midnight slots
  unfolding days
  days-Round n day slots h = elim (Option-cases (zoned_date zone day 0 0)) [
    | inl e ↦ absurd (cc (rw (e, days) at h))
    | inr (midnight, e) ↦ (
      midnight,
      e,
      elim (Bool-cases (leb range.end midnight)) [
        | inl y ↦ Round.over (ground arith) (sym (the_slots [] slots (rw (e, days, y) at h)))
        | inr n' ↦ elim (Bool-cases (is_business_day policy range busy now day)) [
          | inr shut ↦ Round.idle (ground arith) shut (rw (e, days, n', shut) at h)
          | inl b ↦ elim (Option-cases (day_slots policy range busy now zone day)) [
            | inl f ↦ absurd (cc (rw (e, days, n', b, f) at h))
            | inr (first, f) ↦ elim (Option-cases (days policy range busy now zone n (suc day))) [
              | inl g ↦ absurd (cc (rw (e, days, n', b, f, g) at h))
              | inr (rest, g) ↦
                  Round.open_day (ground arith) b first rest f g
                    (sym (the_slots (first ++ rest) slots (rw (e, days, n', b, f, g) at h)))
            ]
          ]
        ]
      ],
    )
  ]

  pub day_slots_times :
      (day : ℕ) (slots : List CalendarSlot)
      → day_slots policy range busy now zone day ≡ some slots
      → (opens : ℕ) × (opening policy range busy now zone day ≡ some opens)
        × (closes : ℕ) × (closing policy range busy now zone day ≡ some closes)
        × (quarters policy range busy now closes (suc closes) opens ≡ slots)
  unfolding day_slots
  day_slots_times day slots h = elim (Option-cases (opening policy range busy now zone day)) [
    | inl e ↦ absurd (cc (rw (e, day_slots) at h))
    | inr (opens, e) ↦ elim (Option-cases (closing policy range busy now zone day)) [
      | inl f ↦ absurd (cc (rw (e, day_slots, f) at h))
      | inr (closes, f) ↦ (
        opens,
        e,
        closes,
        f,
        the_slots (quarters policy range busy now closes (suc closes) opens) slots
            (rw (e, day_slots, f) at h),
      )
    ]
  ]
