-- ===== src/Calendar/Offered.antt =====
-- What the loop over the days offers, slot-engine.ts.
use hermes_n8n.Prelude.{
  ℕ, zero, suc, ◌<◌, ◌≡◌, ◌⊎◌, refl, sym, ◌∙◌, subst, true, some, List, [], Member, inl, inr, arith,
}
use hermes_n8n.Calendar.Slots.{
  Zone, CalendarSlot, CalendarPolicy, zoned_date, is_business_day, day_slots, days,
}
use hermes_n8n.Calendar.Grid.{OnGrid, quarters-OnGrid, OnGrid-quarters}
use hermes_n8n.Calendar.Days.{
  closed_day, Member-left, Member-right, Member-append, Visits, Offered, over, idle, open_day,
  days-Round, day_slots_times, the_slots,
}

module _ (policy : CalendarPolicy) (range : CalendarSlot) (busy : List CalendarSlot) (now : ℕ)
    (zone : Zone) where
  Offered-later :
      (n day midnight : ℕ) (s : CalendarSlot)
      → zoned_date zone day 0 0 ≡ some midnight
      → midnight < range.end
      → Offered policy range busy now zone n (suc day) s
      → Offered policy range busy now zone (suc n) day s
  Offered-later n day midnight s e h o = record {
    on = o.on;
    visited = Visits.later n day o.on midnight e h o.visited;
    business = o.business;
    opens = o.opens;
    opening_time = o.opening_time;
    closes = o.closes;
    closing_time = o.closing_time;
    on_grid = o.on_grid;
  }

  pub days-Offered :
      (n day : ℕ) (slots : List CalendarSlot)
      → days policy range busy now zone n day ≡ some slots
      → (s : CalendarSlot) → Member s slots
      → Offered policy range busy now zone n day s
  unfolding days
  days-Offered zero day slots h s m =
      absurd (subst (Member s) (sym (the_slots policy range busy now zone [] slots h)) m)
  days-Offered (suc n) day slots h s m =
      let (midnight, e, r) = days-Round policy range busy now zone n day slots h in
      elim r [
        | over late none_left ↦ absurd (subst (Member s) none_left m)
        | idle early shut more ↦
            Offered-later n day midnight s e early (days-Offered n (suc day) slots more s m)
        | open_day early b first rest f g split ↦
            elim (Member-append s first rest (subst (Member s) split m)) [
              | inl k ↦
                  let (opens, o, closes, c, q) =
                    day_slots_times policy range busy now zone day first f in
                  record {
                    on = day;
                    visited = Visits.here n day midnight e early;
                    business = b;
                    opens = opens;
                    opening_time = o;
                    closes = closes;
                    closing_time = c;
                    on_grid =
                        quarters-OnGrid policy range busy now closes (suc closes) opens s
                          (subst (Member s) (sym q) k);
                  }
              | inr k ↦ Offered-later n day midnight s e early (days-Offered n (suc day) rest g s k)
            ]
      ]

  first_midnight :
      (n day visited : ℕ)
      → Visits policy range busy now zone (suc n) day visited
      → (midnight : ℕ) × (zoned_date zone day 0 0 ≡ some midnight) × (midnight < range.end)
  first_midnight n day visited (Visits.here k d midnight e h) = (midnight, e, h)
  first_midnight n day visited (Visits.later k d v midnight e h more) = (midnight, e, h)

  Visits-split :
      (n day visited : ℕ)
      → Visits policy range busy now zone (suc n) day visited
      → (visited ≡ day) ⊎ Visits policy range busy now zone n (suc day) visited
  Visits-split n day visited (Visits.here k d midnight e h) = inl refl
  Visits-split n day visited (Visits.later k d v midnight e h more) = inr more

  Offered-next :
      (n day : ℕ) (s : CalendarSlot) (o : Offered policy range busy now zone (suc n) day s)
      → Visits policy range busy now zone n (suc day) o.on
      → Offered policy range busy now zone n (suc day) s
  Offered-next n day s o v = record {
    on = o.on;
    visited = v;
    business = o.business;
    opens = o.opens;
    opening_time = o.opening_time;
    closes = o.closes;
    closing_time = o.closing_time;
    on_grid = o.on_grid;
  }

  same_instant : (a b : ℕ) → some a ≡ some b → a ≡ b
  same_instant a b h = cc

  today :
      (n day : ℕ) (s : CalendarSlot) (first : List CalendarSlot)
      → day_slots policy range busy now zone day ≡ some first
      → (o : Offered policy range busy now zone n day s) → o.on ≡ day
      → Member s first
  today n day s first f o e =
      let (opens, p, closes, c, q) = day_slots_times policy range busy now zone day first f in
      let same_open : o.opens ≡ opens = same_instant o.opens opens (sym o.opening_time ∙ rw e p) in
      let same_close : o.closes ≡ closes =
        same_instant o.closes closes (sym o.closing_time ∙ rw e c) in
      subst (Member s) q (
        OnGrid-quarters policy range busy now closes (suc closes) opens s (omega arith) (
          subst (λ k. OnGrid policy range busy now k opens s) same_close
            (subst (λ k. OnGrid policy range busy now o.closes k s) same_open o.on_grid)))

  pub Offered-days :
      (n day : ℕ) (slots : List CalendarSlot)
      → days policy range busy now zone n day ≡ some slots
      → (s : CalendarSlot) → Offered policy range busy now zone n day s
      → Member s slots
  Offered-days zero day slots h s o = elim o.visited [ ]
  Offered-days (suc n) day slots h s o =
      let (midnight, e, r) = days-Round policy range busy now zone n day slots h in
      let (m, e', before) = first_midnight n day o.on o.visited in
      let same : m ≡ midnight = same_instant m midnight (sym e' ∙ e) in
      elim r [
        | over late none_left ↦ absurd (omega (arith, late, before, same))
        | idle early shut more ↦ elim (Visits-split n day o.on o.visited) [
          | inl d ↦ absurd (
              closed_day (subst (λ k. is_business_day policy range busy now k ≡ true) d o.business)
                shut)
          | inr v ↦ Offered-days n (suc day) slots more s (Offered-next n day s o v)
        ]
        | open_day early b first rest f g split ↦ elim (Visits-split n day o.on o.visited) [
          | inl d ↦
              subst (Member s) (sym split)
                (Member-left s first rest (today (suc n) day s first f o d))
          | inr v ↦ subst (Member s) (sym split) (
              Member-right s first rest
                (Offered-days n (suc day) rest g s (Offered-next n day s o v)))
        ]
      ]
