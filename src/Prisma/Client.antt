-- ===== src/Prisma/Client.antt =====
-- The Prisma client, as the services of hermes-backend/src call it: its queries and writes, and
-- what its documentation says of them, over the rows of a table in the order of their insertion.
-- The client is a third-party package, so it is a parameter of the development.
use hermes_n8n.Prelude.{
  ℕ, ◌≡◌, Bool, Option, none, some, List, [], ◌∷◌, ◌++◌, ◌&&◌, find, count, map_where, map_first,
  Member, All, true, false,
}
use hermes_n8n.Prisma.Sort.{Order, earlier, Ordered}

pub record Prisma : Type 1 where
  pub Table : Type 0 → Type 0
  pub rows : {R : Type 0} → Table R → List R
  pub find_unique : {R : Type 0} → (R → Bool) → Table R → Option R
  pub find_first : {R : Type 0} → List (Order R) → (R → Bool) → Table R → Option R
  pub find_many : {R : Type 0} → List (Order R) → (R → Bool) → Table R → List R
  pub count_rows : {R : Type 0} → (R → Bool) → Table R → ℕ
  pub create : {R : Type 0} → R → Table R → Table R
  pub update : {R : Type 0} → (R → Bool) → (R → R) → Table R → Table R
  pub update_many : {R : Type 0} → (R → Bool) → (R → R) → Table R → Table R × ℕ
  pub find_unique_rows :
      {R : Type 0} (w : R → Bool) (t : Table R) → find_unique w t ≡ find w (rows t)
  pub find_first_some :
      {R : Type 0} (by : List (Order R)) (w : R → Bool) (t : Table R) (r : R)
      → find_first by w t ≡ some r
      → (w r ≡ true) × Member r (rows t) × All (λ s. (w s && earlier by s r) ≡ false) (rows t)
  pub find_first_none :
      {R : Type 0} (by : List (Order R)) (w : R → Bool) (t : Table R)
      → find_first by w t ≡ none
      → All (λ s. w s ≡ false) (rows t)
  pub find_many_count :
      {R : Type 0} (by : List (Order R)) (w p : R → Bool) (t : Table R)
      → count p (find_many by w t) ≡ count (λ r. w r && p r) (rows t)
  pub find_many_ordered :
      {R : Type 0} (by : List (Order R)) (w : R → Bool) (t : Table R)
      → Ordered by (find_many by w t)
  pub count_rows_lem : {R : Type 0} (w : R → Bool) (t : Table R) → count_rows w t ≡ count w (rows t)
  pub create_rows : {R : Type 0} (r : R) (t : Table R) → rows (create r t) ≡ rows t ++ r ∷ []
  pub update_rows :
      {R : Type 0} (w : R → Bool) (f : R → R) (t : Table R)
      → rows (update w f t) ≡ map_first w f (rows t)
  pub update_many_rows :
      {R : Type 0} (w : R → Bool) (f : R → R) (t : Table R)
      → rows (update_many w f t).0 ≡ map_where w f (rows t)
  pub update_many_count :
      {R : Type 0} (w : R → Bool) (f : R → R) (t : Table R)
      → (update_many w f t).1 ≡ count w (rows t)
