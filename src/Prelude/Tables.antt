-- ===== src/Prelude/Tables.antt =====
-- Tables before and after an operation: rows that change, rows that come, and what is counted.
use Prim.Native.Nat.{◌+◌, ◌≤◌}
use mathlib.Core.Path.{◌≡◌, refl}
use mathlib.Core.Logic.{inl, inr}
use mathlib.Core.Bool.{Bool, true, false}
use mathlib.Core.Option.{some}
use mathlib.Core.List.{List, [], ◌∷◌, ◌++◌}
use native.Mathlib.Omega.{arith}
use hermes_n8n.Prelude.Tests.{Bool-cases}
use hermes_n8n.Prelude.Lists.{find, count, map_where, map_first, All}

-- A table after an operation: each old row is related to its new version, and new rows stand last.
module _ {A : Type 0} (R : A → A → Type 0) (N : A → Type 0) where
  abbrev pub Grows : List A → List A → Type 0
  Grows [] ys = All N ys
  Grows (x ∷ xs) [] = ⊥
  Grows (x ∷ xs) (y ∷ ys) = R x y × Grows xs ys

  pub Grows-refl : ((a : A) → R a a) → (xs : List A) → Grows xs xs
  Grows-refl r [] = tt
  Grows-refl r (x ∷ xs) = (r x, Grows-refl r xs)

  pub Grows-append : ((a : A) → R a a) → (xs : List A) (a : A) → N a → Grows xs (xs ++ a ∷ [])
  Grows-append r [] a n = (n, tt)
  Grows-append r (x ∷ xs) a n = (r x, Grows-append r xs a n)

  pub Grows-map_where :
      ((a : A) → R a a)
      → (p : A → Bool) (f : A → A) → ((a : A) → p a ≡ true → R a (f a))
      → (xs : List A) → Grows xs (map_where p f xs)
  Grows-map_where r p f step [] = tt
  Grows-map_where r p f step (x ∷ xs) = elim (Bool-cases (p x)) [
    | inl t ↦ rw t (step x t, Grows-map_where r p f step xs)
    | inr u ↦ rw u (r x, Grows-map_where r p f step xs)
  ]

  pub Grows-map_first :
      ((a : A) → R a a)
      → (p : A → Bool) (f : A → A) (xs : List A) → ((a : A) → find p xs ≡ some a → R a (f a))
      → Grows xs (map_first p f xs)
  Grows-map_first r p f [] step = tt
  Grows-map_first r p f (x ∷ xs) step = elim (Bool-cases (p x)) [
    | inl t ↦ rw t (step x (rw t), Grows-refl r xs)
    | inr u ↦ rw u (r x, Grows-map_first r p f xs (λ a e. step a (rw u e)))
  ]

  All-Grows_step :
      (P : A → Type 0)
      → ((a b : A) → R a b → P a → P b)
      → ((b : A) → N b → P b)
      → (xs ys : List A) → Grows xs ys
      → All P xs
      → All P ys
  All-Grows_step P keep new [] ys g h = go ys g
    where
      go : (ys : List A) → All N ys → All P ys
      go [] k = tt
      go (y ∷ ys) (n, ns) = (new y n, go ys ns)
  All-Grows_step P keep new (x ∷ xs) [] g h = absurd g
  All-Grows_step P keep new (x ∷ xs) (y ∷ ys) (g, gs) (h, hs) =
      (keep x y g h, All-Grows_step P keep new xs ys gs hs)

  pub All-Grows :
      (P : A → Type 0) (xs ys : List A)
      → ((a b : A) → R a b → P a → P b)
      → ((b : A) → N b → P b)
      → Grows xs ys
      → All P xs
      → All P ys
  All-Grows P xs ys keep new g h = All-Grows_step P keep new xs ys g h

  pub Grows-trans :
      ((a b c : A) → R a b → R b c → R a c)
      → ((a b : A) → R a b → N a → N b)
      → (xs ys zs : List A) → Grows xs ys
      → Grows ys zs
      → Grows xs zs
  Grows-trans trans keep [] ys zs g h = All-Grows_step N keep (λ b n. n) ys zs h g
  Grows-trans trans keep (x ∷ xs) [] zs g h = absurd g
  Grows-trans trans keep (x ∷ xs) (y ∷ ys) [] g h = absurd h
  Grows-trans trans keep (x ∷ xs) (y ∷ ys) (z ∷ zs) (g, gs) (h, hs) =
      (trans x y z g h, Grows-trans trans keep xs ys zs gs hs)

module _ {A : Type 0} (P Q : A → Type 0) where
  pub map-All : ((a : A) → P a → Q a) → (xs : List A) → All P xs → All Q xs
  map-All f [] h = tt
  map-All f (x ∷ xs) (h, hs) = (f x h, map-All f xs hs)

module _ {A : Type 0} (p : A → Bool) where
  pub count-zero : (xs : List A) → All (λ a. p a ≡ false) xs → count p xs ≡ 0
  count-zero [] h = refl
  count-zero (x ∷ xs) (h, hs) = rw h (omega (arith, count-zero xs hs))

  pub count_zero-All : (xs : List A) → count p xs ≡ 0 → All (λ a. p a ≡ false) xs
  count_zero-All [] h = tt
  count_zero-All (x ∷ xs) h = elim (Bool-cases (p x)) [
    | inl t ↦ absurd (let k : 1 + count p xs ≡ 0 = rw t at h in omega (arith, k))
    | inr u ↦ (u, count_zero-All xs (let k : 0 + count p xs ≡ 0 = rw u at h in omega (arith, k)))
  ]

  -- Rows that pass `w` fail `p` once they are rewritten, and both tests need `q`.
  pub count-rewritten :
      (w q : A → Bool) (f : A → A)
      → ((a : A) → w a ≡ true → q a ≡ true)
      → ((a : A) → p a ≡ true → q a ≡ true)
      → ((a : A) → w a ≡ true → p (f a) ≡ false)
      → (xs : List A) → count p (map_where w f xs) + count w xs ≤ count q xs
  count-rewritten w q f wq pq off [] = omega arith
  count-rewritten w q f wq pq off (x ∷ xs) =
      let rest = count-rewritten w q f wq pq off xs in
      elim (Bool-cases (w x)) [
        | inl t ↦ rw (t, off x t, wq x t) (omega (arith, rest))
        | inr u ↦ elim (Bool-cases (p x)) [
          | inl y ↦ rw (u, y, pq x y) (omega (arith, rest))
          | inr n ↦ rw (u, n) (omega (arith, rest))
        ]
      ]

-- Tables that keep their rows.
module _ {A : Type 0} (R : A → A → Type 0) (p : A → Bool) where
  abbrev pub Changes : List A → List A → Type 0
  Changes = Grows R (λ a. ⊥)

  pub count-Changes :
      ((a b : A) → R a b → p b ≡ true → p a ≡ true)
      → (xs ys : List A) → Changes xs ys
      → count p ys ≤ count p xs
  count-Changes back [] [] g = omega arith
  count-Changes back [] (y ∷ ys) g = absurd g.0
  count-Changes back (x ∷ xs) [] g = absurd g
  count-Changes back (x ∷ xs) (y ∷ ys) (g, gs) =
      let rest = count-Changes back xs ys gs in
      elim (Bool-cases (p y)) [
        | inl t ↦ rw (t, back x y g t) (omega arith)
        | inr u ↦ rw u (omega arith)
      ]

  -- If no later row passes the test, no earlier one did.
  pub All-false_back :
      (N : A → Type 0)
      → ((a b : A) → R a b → p a ≡ true → p b ≡ true)
      → (xs ys : List A) → Grows R N xs ys
      → All (λ a. p a ≡ false) ys
      → All (λ a. p a ≡ false) xs
  All-false_back N on [] ys g h = tt
  All-false_back N on (x ∷ xs) [] g h = absurd g
  All-false_back N on (x ∷ xs) (y ∷ ys) (g, gs) (h, hs) = elim (Bool-cases (p x)) [
    | inl t ↦ absurd (ground (arith, on x y g t))
    | inr u ↦ (u, All-false_back N on xs ys gs hs)
  ]

-- The new rows of a table may be described more loosely.
module _ {A : Type 0} (R : A → A → Type 0) (M N : A → Type 0) where
  pub Grows-weaken : ((a : A) → M a → N a) → (xs ys : List A) → Grows R M xs ys → Grows R N xs ys
  Grows-weaken f [] ys g = map-All M N f ys g
  Grows-weaken f (x ∷ xs) [] g = absurd g
  Grows-weaken f (x ∷ xs) (y ∷ ys) (g, gs) = (g, Grows-weaken f xs ys gs)
