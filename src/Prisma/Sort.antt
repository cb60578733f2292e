-- ===== src/Prisma/Sort.antt =====
-- The `orderBy` of a query: keys that rise or fall, the first one that differs decides.
use hermes_n8n.Prelude.{
  ℕ, ◌≡◌, refl, Bool, true, false, List, [], ◌∷◌, ltb, if◌then◌else◌, All, arith, subst, ◌+◌, count,
  Bool-cases, inl, inr, Option, none, some, Option-cases, ◌&&◌, Member,
}

pub data Order (R : Type 0) : Type 0 where
  asc desc : (R → ℕ) → Order R

-- Whether a row with key `a` stands before one with key `b`, and what decides a tie.
abbrev by_key : ℕ → ℕ → Bool → Bool
by_key a b tie = if ltb a b then true else if ltb b a then false else tie

module _ {R : Type 0} where
  unfoldable pub earlier : List (Order R) → R → R → Bool
  earlier [] a b = false
  earlier (asc k ∷ by) a b = by_key (k a) (k b) (earlier by a b)
  earlier (desc k ∷ by) a b = by_key (k b) (k a) (earlier by a b)

  abbrev pub Ordered : List (Order R) → List R → Type 0
  Ordered by [] = Unit
  Ordered by (r ∷ rs) = All (λ s. earlier by s r ≡ false) rs × Ordered by rs

  pub earlier_asymm :
      (by : List (Order R)) (a b : R) → earlier by a b ≡ true → earlier by b a ≡ false
  unfolding earlier
  earlier_asymm [] a b h = refl
  earlier_asymm (asc k ∷ by) a b h = ground (arith, earlier_asymm by a b)
  earlier_asymm (desc k ∷ by) a b h = ground (arith, earlier_asymm by a b)

  pub earlier_trans :
      (by : List (Order R)) (a b c : R)
      → earlier by a b ≡ false
      → earlier by b c ≡ false
      → earlier by a c ≡ false
  unfolding earlier
  earlier_trans [] a b c h k = refl
  earlier_trans (asc k ∷ by) a b c h h' = ground (arith, earlier_trans by a b c)
  earlier_trans (desc k ∷ by) a b c h h' = ground (arith, earlier_trans by a b c)

  pub insert : List (Order R) → R → List R → List R
  insert by r [] = r ∷ []
  insert by r (s ∷ rs) = if earlier by s r then s ∷ insert by r rs else r ∷ s ∷ rs

  unfoldable pub sort : List (Order R) → List R → List R
  unfolding insert earlier
  sort by [] = []
  sort by (r ∷ rs) = insert by r (sort by rs)

  insert-count :
      (by : List (Order R)) (p : R → Bool) (r : R) (rs : List R)
      → count p (insert by r rs) ≡ (if p r then 1 else 0) + count p rs
  unfolding insert
  insert-count by p r [] = refl
  insert-count by p r (s ∷ rs) = elim (Bool-cases (earlier by s r)) [
    | inl t ↦ rw t (omega (arith, insert-count by p r rs))
    | inr u ↦ rw u refl
  ]

  pub count-sort :
      (by : List (Order R)) (p : R → Bool) (rs : List R) → count p (sort by rs) ≡ count p rs
  unfolding sort
  count-sort by p [] = refl
  count-sort by p (r ∷ rs) = rw insert-count (rw (count-sort by p rs))

  insert-All :
      (by : List (Order R)) (P : R → Type 0) (r : R) (rs : List R)
      → P r
      → All P rs
      → All P (insert by r rs)
  unfolding insert
  insert-All by P r [] h hs = (h, tt)
  insert-All by P r (s ∷ rs) h (g, gs) = elim (Bool-cases (earlier by s r)) [
    | inl t ↦ rw t (g, insert-All by P r rs h gs)
    | inr u ↦ rw u (h, (g, gs))
  ]

  All-later :
      (by : List (Order R)) (r s : R) (rs : List R)
      → earlier by s r ≡ false
      → All (λ t. earlier by t s ≡ false) rs
      → All (λ t. earlier by t r ≡ false) rs
  All-later by r s [] h k = tt
  All-later by r s (t ∷ rs) h (k, ks) = (earlier_trans by t s r k h, All-later by r s rs h ks)

  insert-Ordered :
      (by : List (Order R)) (r : R) (rs : List R) → Ordered by rs → Ordered by (insert by r rs)
  unfolding insert
  insert-Ordered by r [] h = (tt, tt)
  insert-Ordered by r (s ∷ rs) (h, hs) = elim (Bool-cases (earlier by s r)) [
    | inl t ↦ rw t (
      insert-All by (λ x. earlier by x s ≡ false) r rs (earlier_asymm by s r t) h,
      insert-Ordered by r rs hs,
    )
    | inr u ↦ rw u ((u, All-later by r s rs u h), (h, hs))
  ]

  pub sort-Ordered : (by : List (Order R)) (rs : List R) → Ordered by (sort by rs)
  unfolding sort
  sort-Ordered by [] = tt
  sort-Ordered by (r ∷ rs) = insert-Ordered by r (sort by rs) (sort-Ordered by rs)

  -- The row that stands first among those that match.
  choose : List (Order R) → R → Option R → Option R
  choose by r none = some r
  choose by r (some s) = if earlier by s r then some s else some r

  unfoldable pub first : List (Order R) → (R → Bool) → List R → Option R
  unfolding choose earlier
  first by w [] = none
  first by w (r ∷ rs) = if w r then choose by r (first by w rs) else first by w rs

  pub first-none :
      (by : List (Order R)) (w : R → Bool) (rs : List R)
      → first by w rs ≡ none
      → All (λ s. w s ≡ false) rs
  unfolding first
  first-none by w [] h = tt
  first-none by w (r ∷ rs) h = elim (Bool-cases (w r)) [
    | inl t ↦ elim (Option-cases (first by w rs)) [
      | inl e ↦ absurd (ground arith)
      | inr (s, e) ↦ absurd (ground arith)
    ]
    | inr u ↦ (u, first-none by w rs (rw u at h))
  ]

  abbrev pub IsFirst : List (Order R) → (R → Bool) → List R → R → Type 0
  IsFirst by w rs r = (w r ≡ true) × Member r rs × All (λ s. (w s && earlier by s r) ≡ false) rs

  All-later_of :
      (by : List (Order R)) (w : R → Bool) (r s : R) (rs : List R)
      → earlier by s r ≡ false
      → All (λ t. (w t && earlier by t s) ≡ false) rs
      → All (λ t. (w t && earlier by t r) ≡ false) rs
  All-later_of by w r s [] h k = tt
  All-later_of by w r s (t ∷ rs) h (k, ks) =
      (ground (arith, earlier_trans by t s r), All-later_of by w r s rs h ks)

  All-weaken :
      (by : List (Order R)) (w : R → Bool) (r : R) (rs : List R)
      → All (λ s. w s ≡ false) rs
      → All (λ t. (w t && earlier by t r) ≡ false) rs
  All-weaken by w r [] k = tt
  All-weaken by w r (t ∷ rs) (k, ks) = (rw k, All-weaken by w r rs ks)

  earlier_irrefl : (by : List (Order R)) (a : R) → earlier by a a ≡ false
  unfolding earlier
  earlier_irrefl [] a = refl
  earlier_irrefl (asc k ∷ by) a = ground (arith, earlier_irrefl by a)
  earlier_irrefl (desc k ∷ by) a = ground (arith, earlier_irrefl by a)

  pub first-IsFirst :
      (by : List (Order R)) (w : R → Bool) (rs : List R) (a : R)
      → first by w rs ≡ some a
      → IsFirst by w rs a
  unfolding first
  first-IsFirst by w [] a h = cc
  first-IsFirst by w (r ∷ rs) a h = elim (Bool-cases (w r)) [
    | inr u ↦ let v = first-IsFirst by w rs a (rw u at h) in (v.0, inr v.1, (rw u, v.2))
    | inl t ↦ elim (Option-cases (first by w rs)) [
      | inl e ↦
          let same : r ≡ a = ground arith in
          subst (IsFirst by w (r ∷ rs)) same (
            t,
            inl refl,
            (rw (earlier_irrefl by r, t), All-weaken by w r rs (first-none by w rs e)),
          )
      | inr (s, e) ↦
          let v = first-IsFirst by w rs s e in
          elim (Bool-cases (earlier by s r)) [
            | inl b ↦
                let same : s ≡ a = ground arith in
                subst (IsFirst by w (r ∷ rs)) same
                  (v.0, inr v.1, (rw (earlier_asymm by s r b, t), v.2))
            | inr b ↦
                let same : r ≡ a = ground arith in
                subst (IsFirst by w (r ∷ rs)) same
                  (t, inl refl, (rw (earlier_irrefl by r, t), All-later_of by w r s rs b v.2))
          ]
    ]
  ]
