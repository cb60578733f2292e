-- ===== src/Prelude/Lists.antt =====
-- Lists of rows: selection, counting and rewriting by a Boolean test.
use Prim.Native.Nat.{ℕ, zero, suc, ◌+◌, ◌≤◌}
use mathlib.Core.Path.{◌≡◌, refl}
use mathlib.Core.Logic.{◌⊎◌, inl, inr}
use mathlib.Core.Bool.{Bool, true, false, ◌&&◌, ◌||◌}
use mathlib.Core.Option.{Option, none, some}
use mathlib.Core.List.{List, [], ◌∷◌, ◌++◌}
use native.Mathlib.Omega.{arith}
use hermes_n8n.Prelude.Tests.{if◌then◌else◌, Bool-cases}

module _ {ℓ} {A : Type ℓ} where
  abbrev pub length : List A → ℕ
  length [] = 0
  length (x ∷ xs) = suc (length xs)

  abbrev pub any : (A → Bool) → List A → Bool
  any p [] = false
  any p (x ∷ xs) = p x || any p xs

  abbrev pub find : (A → Bool) → List A → Option A
  find p [] = none
  find p (x ∷ xs) = if p x then some x else find p xs

  abbrev pub select : (A → Bool) → List A → List A
  select p [] = []
  select p (x ∷ xs) = let rest = select p xs in if p x then x ∷ rest else rest

  abbrev pub count : (A → Bool) → List A → ℕ
  count p [] = 0
  count p (x ∷ xs) = (if p x then 1 else 0) + count p xs

  -- The rows that match `p` are rewritten by `f`, the others stay.
  abbrev pub map_where : (A → Bool) → (A → A) → List A → List A
  map_where p f [] = []
  map_where p f (x ∷ xs) = (if p x then f x else x) ∷ map_where p f xs

  abbrev pub take : ℕ → List A → List A
  take zero xs = []
  take (suc n) [] = []
  take (suc n) (x ∷ xs) = x ∷ take n xs

  abbrev pub drop : ℕ → List A → List A
  drop zero xs = xs
  drop (suc n) [] = []
  drop (suc n) (x ∷ xs) = drop n xs

  pub length-append : (xs ys : List A) → length (xs ++ ys) ≡ length xs + length ys
  length-append [] ys = omega arith
  length-append (x ∷ xs) ys = omega (arith, length-append xs ys)

  pub count-append : (p : A → Bool) (xs ys : List A) → count p (xs ++ ys) ≡ count p xs + count p ys
  count-append p [] ys = omega arith
  count-append p (x ∷ xs) ys = omega (arith, count-append p xs ys)

  pub count-select :
      (w p : A → Bool) (xs : List A) → count p (select w xs) ≡ count (λ x. w x && p x) xs
  count-select w p [] = refl
  count-select w p (x ∷ xs) = elim (Bool-cases (w x)) [
    | inl t ↦ rw t (rw (count-select w p xs))
    | inr u ↦ rw u (omega (arith, count-select w p xs))
  ]

  pub count-map_where :
      (p q : A → Bool) (f : A → A)
      → ((a : A) → q a ≡ true → p (f a) ≡ p a)
      → (xs : List A) → count p (map_where q f xs) ≡ count p xs
  count-map_where p q f same [] = refl
  count-map_where p q f same (x ∷ xs) = elim (Bool-cases (q x)) [
    | inl t ↦ rw (t, same x t, count-map_where p q f same xs)
    | inr u ↦ rw (u, count-map_where p q f same xs)
  ]

-- Rows are values of small types.
module _ {A : Type 0} where
  -- Only the first row that matches `p` is rewritten by `f`.
  abbrev pub map_first : (A → Bool) → (A → A) → List A → List A
  map_first p f [] = []
  map_first p f (x ∷ xs) = let rest = map_first p f xs in if p x then f x ∷ xs else x ∷ rest

  abbrev pub Member : A → List A → Type 0
  Member a [] = ⊥
  Member a (x ∷ xs) = (a ≡ x) ⊎ Member a xs

  pub find-some :
      (p : A → Bool) (xs : List A) (a : A) → find p xs ≡ some a → (p a ≡ true) × Member a xs
  find-some p [] a h = cc
  find-some p (x ∷ xs) a h = elim (Bool-cases (p x)) [
    | inl t ↦ (ground arith, inl (ground arith))
    | inr f ↦ let r = find-some p xs a (ground arith) in (r.0, inr r.1)
  ]

module _ {A : Type 0} (P : A → Type 0) where
  abbrev pub All : List A → Type 0
  All [] = Unit
  All (x ∷ xs) = P x × All xs

  pub All-append : (xs ys : List A) → All xs → All ys → All (xs ++ ys)
  All-append [] ys h k = k
  All-append (x ∷ xs) ys (p, h) k = (p, All-append xs ys h k)

  pub All-member : (xs : List A) (a : A) → All xs → Member a xs → P a
  All-member [] a h m = elim m [ ]
  All-member (x ∷ xs) a h (inl e) = rw e h.0
  All-member (x ∷ xs) a h (inr m) = All-member xs a h.1 m

  pub All-map_where :
      (p : A → Bool) (f : A → A)
      → ((a : A) → p a ≡ true → P a → P (f a))
      → (xs : List A) → All xs
      → All (map_where p f xs)
  All-map_where p f keep [] h = tt
  All-map_where p f keep (x ∷ xs) (h, hs) = elim (Bool-cases (p x)) [
    | inl t ↦ rw t (keep x t h, All-map_where p f keep xs hs)
    | inr u ↦ rw u (h, All-map_where p f keep xs hs)
  ]

module _ {A : Type 0} where
  -- An update that keeps what `p` tests meets the row that `p` finds.
  pub find-map_where :
      (p w : A → Bool) (f : A → A)
      → ((a : A) → p (f a) ≡ p a)
      → (xs : List A) (a : A) → find p xs ≡ some a
      → find p (map_where w f xs) ≡ some (if w a then f a else a)
  find-map_where p w f same [] a h = cc
  find-map_where p w f same (x ∷ xs) a h = elim (Bool-cases (p x)) [
    | inl t ↦
        let e : x ≡ a = ground arith in
        rw e (elim (Bool-cases (w a)) [
          | inl y ↦ rw y (ground (arith, same a))
          | inr n ↦ rw n (ground arith)
        ])
    | inr u ↦ elim (Bool-cases (w x)) [
      | inl y ↦ rw (y, same x, u) (find-map_where p w f same xs a (rw u at h))
      | inr n ↦ rw (n, u) (find-map_where p w f same xs a (rw u at h))
    ]
  ]

  pub Member-count :
      (p : A → Bool) (xs : List A) (a : A) → Member a xs → p a ≡ true → 1 ≤ count p xs
  Member-count p [] a m t = elim m [ ]
  Member-count p (x ∷ xs) a (inl e) t = rw (← e, t) (omega arith)
  Member-count p (x ∷ xs) a (inr m) t = omega (arith, Member-count p xs a m t)

  pub count-Member :
      (p : A → Bool) (xs : List A) → 1 ≤ count p xs → (a : A) × Member a xs × (p a ≡ true)
  count-Member p [] h = absurd (omega (arith, h))
  count-Member p (x ∷ xs) h = elim (Bool-cases (p x)) [
    | inl t ↦ (x, inl refl, t)
    | inr u ↦
        let k : 1 ≤ 0 + count p xs = rw u at h in
        let (a, m, t) = count-Member p xs (omega (arith, k)) in (a, inr m, t)
  ]

  pub Member-map_where :
      (w : A → Bool) (f : A → A) (xs : List A) (a : A)
      → Member a xs
      → w a ≡ true
      → Member (f a) (map_where w f xs)
  Member-map_where w f [] a m t = elim m [ ]
  Member-map_where w f (x ∷ xs) a (inl e) t = inl (rw (← e, t) refl)
  Member-map_where w f (x ∷ xs) a (inr m) t = inr (Member-map_where w f xs a m t)

  -- Where at most one row passes the test, it is the one that is found.
  pub find-Member :
      (p : A → Bool) (xs : List A) (a : A)
      → count p xs ≤ 1
      → Member a xs
      → p a ≡ true
      → find p xs ≡ some a
  find-Member p [] a c m t = elim m [ ]
  find-Member p (x ∷ xs) a c (inl e) t = rw (← e, t)
  find-Member p (x ∷ xs) a c (inr m) t = elim (Bool-cases (p x)) [
    | inl y ↦ absurd (omega (arith, Member-count p xs a m t, rw y at c))
    | inr n ↦ let c' : 0 + count p xs ≤ 1 = rw n at c in rw n (find-Member p xs a (omega arith) m t)
  ]

  -- The row that `p` finds, once it has been rewritten.
  pub find-map_first :
      (p : A → Bool) (f : A → A)
      → ((a : A) → p (f a) ≡ p a)
      → (xs : List A) (a : A) → find p xs ≡ some a
      → find p (map_first p f xs) ≡ some (f a)
  find-map_first p f same [] a h = cc
  find-map_first p f same (x ∷ xs) a h = elim (Bool-cases (p x)) [
    | inl t ↦ rw t (ground (arith, same x))
    | inr u ↦ rw u (rw u (find-map_first p f same xs a (rw u at h)))
  ]

  pub find-append_some :
      (p : A → Bool) (xs ys : List A) (a : A) → find p xs ≡ some a → find p (xs ++ ys) ≡ some a
  find-append_some p [] ys a h = cc
  find-append_some p (x ∷ xs) ys a h = elim (Bool-cases (p x)) [
    | inl t ↦ rw t (rw t at h)
    | inr u ↦ rw u (find-append_some p xs ys a (rw u at h))
  ]

  pub find-append_none :
      (p : A → Bool) (xs : List A) (a : A)
      → find p xs ≡ none
      → p a ≡ true
      → find p (xs ++ a ∷ []) ≡ some a
  find-append_none p [] a h t = rw t
  find-append_none p (x ∷ xs) a h t = elim (Bool-cases (p x)) [
    | inl y ↦ absurd (ground arith)
    | inr u ↦ rw u (find-append_none p xs a (rw u at h) t)
  ]

  -- Where no row passes the test, nothing changes.
  pub map_where-none :
      (w : A → Bool) (f : A → A) (xs : List A) → All (λ a. w a ≡ false) xs → map_where w f xs ≡ xs
  map_where-none w f [] h = refl
  map_where-none w f (x ∷ xs) (h, hs) = rw (h, map_where-none w f xs hs)
