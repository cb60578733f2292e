-- ===== src/Calendar/Grid.antt =====
-- The slots of one day, slot-engine.ts: the loop over the quarters of an hour finds exactly those that
-- are free and end by closing time.
use hermes_n8n.Prelude.{
  ◌⊎◌, ℕ, zero, suc, ◌+◌, ◌*◌, ◌≤◌, ◌<◌, ◌≡◌, refl, sym, subst, true, leb, List, [], ◌∷◌,
  if◌then◌else◌, Member, inl, inr, Bool-cases, arith,
}
use hermes_n8n.Calendar.Slots.{
  CalendarSlot, CalendarPolicy, is_free, quarters, slot_at, duration, step_ms,
}

slot_eta :
    (policy : CalendarPolicy) (s : CalendarSlot) (t : ℕ)
    → s.start ≡ t
    → s.end ≡ s.start + duration policy
    → s ≡ slot_at policy t
slot_eta policy s t h k = rw (← h, ← k) refl

nothing : (s : CalendarSlot) → Member s [] → ⊥
nothing s m = m

first_or_later :
    (s a : CalendarSlot) (rest : List CalendarSlot) → Member s (a ∷ rest) → (s ≡ a) ⊎ Member s rest
first_or_later s a rest m = m

module _ (policy : CalendarPolicy) (range : CalendarSlot) (busy : List CalendarSlot) (now : ℕ) where
  -- A free slot on the grid of quarters that starts at `t`.
  pub record OnGrid (close t : ℕ) (s : CalendarSlot) : Type 0 where
    pub index : ℕ
    pub starts : s.start ≡ t + index * step_ms
    pub ends : s.end ≡ s.start + duration policy
    pub fits : s.end ≤ close
    pub free : is_free policy range busy now s ≡ true

  first-OnGrid :
      (close t : ℕ)
      → t + duration policy ≤ close
      → is_free policy range busy now (slot_at policy t) ≡ true
      → OnGrid close t (slot_at policy t)
  first-OnGrid close t h f = record {
    index = 0;
    starts = omega arith;
    ends = refl;
    fits = h;
    free = f;
  }

  later-OnGrid : (close t : ℕ) (s : CalendarSlot) → OnGrid close (t + step_ms) s → OnGrid close t s
  later-OnGrid close t s g = record {
    index = suc g.index;
    starts = omega (arith, g.starts);
    ends = g.ends;
    fits = g.fits;
    free = g.free;
  }

  pub quarters-OnGrid :
      (close fuel t : ℕ) (s : CalendarSlot)
      → Member s (quarters policy range busy now close fuel t)
      → OnGrid close t s
  unfolding quarters
  quarters-OnGrid close zero t s m = elim m [ ]
  quarters-OnGrid close (suc fuel) t s m = elim (Bool-cases (leb (t + duration policy) close)) [
    | inr n ↦ absurd (nothing s (rw n at m))
    | inl y ↦ elim (Bool-cases (is_free policy range busy now (slot_at policy t))) [
      | inr n ↦ later-OnGrid close t s (quarters-OnGrid close fuel (t + step_ms) s (rw (y, n) at m))
      | inl f ↦
          elim (first_or_later s (slot_at policy t)
            (quarters policy range busy now close fuel (t + step_ms)) (rw (y, f) at m)) [
              | inl e ↦ subst (OnGrid close t) (sym e) (first-OnGrid close t (ground arith) f)
              | inr k ↦ later-OnGrid close t s (quarters-OnGrid close fuel (t + step_ms) s k)
            ]
    ]
  ]

  pub OnGrid-next :
      (close t j : ℕ) (s : CalendarSlot)
      → OnGrid close t s
      → s.start ≡ t + suc j * step_ms
      → OnGrid close (t + step_ms) s
  OnGrid-next close t j s g e = record {
    index = j;
    starts = omega (arith, e);
    ends = g.ends;
    fits = g.fits;
    free = g.free;
  }

  -- One round of the loop, whatever the rounds after it find.
  placed :
      (close t : ℕ) (s : CalendarSlot)
      → OnGrid close t s
      → (rest : List CalendarSlot) → ((j : ℕ) → s.start ≡ t + suc j * step_ms → Member s rest)
      → (j : ℕ) → s.start ≡ t + j * step_ms
      → Member s (
          if leb (t + duration policy) close
          then (if is_free policy range busy now (slot_at policy t)
              then slot_at policy t ∷ rest
              else rest)
          else [])
  placed close t s g rest more j e =
      let fits : leb (t + duration policy) close ≡ true = ground (arith, e, g.ends, g.fits) in
      rw fits (chosen j e)
    where
      chosen :
          (j : ℕ)
          → s.start ≡ t + j * step_ms
          → Member s (
              if is_free policy range busy now (slot_at policy t)
              then slot_at policy t ∷ rest
              else rest)
      chosen zero e =
          let here : s ≡ slot_at policy t = slot_eta policy s t (omega (arith, e)) g.ends in
          rw (← here, g.free) (inl refl)
      chosen (suc j) e = elim (Bool-cases (is_free policy range busy now (slot_at policy t))) [
        | inl y ↦ rw y (inr (more j e))
        | inr n ↦ rw n (more j e)
      ]

  pub OnGrid-quarters :
      (close fuel t : ℕ) (s : CalendarSlot)
      → close < t + fuel
      → OnGrid close t s
      → Member s (quarters policy range busy now close fuel t)
  unfolding quarters
  OnGrid-quarters close zero t s h g = absurd (omega (arith, g.starts, g.ends, g.fits, h))
  OnGrid-quarters close (suc fuel) t s h g =
      placed close t s g (quarters policy range busy now close fuel (t + step_ms))
        (λ j e.
          OnGrid-quarters close fuel (t + step_ms) s (omega (arith, h))
            (OnGrid-next close t j s g e))
        g.index g.starts
