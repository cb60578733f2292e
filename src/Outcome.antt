-- ===== src/Outcome.antt =====
-- The exceptions of the HTTP services as values. An exception inside a transaction rolls it back.
use hermes_n8n.Prelude.{Bool, true, false, Option, none, some}

infixl 5 ◌>>=◌ ◌>>◌
pub data HttpError : Type 0 where
  not_found conflict bad_request unavailable internal forbidden : HttpError

pub data Result {ℓ} (A : Type ℓ) : Type ℓ where
  ok : A → Result A
  err : HttpError → Result A

-- `if (!row) throw new …`.
abbrev pub or_throw {ℓ} : {A : Type ℓ} → Option A → HttpError → Result A
or_throw none e = err e
or_throw (some a) e = ok a

-- `if (!test) throw new …`.
abbrev pub require : Bool → HttpError → Result (Unit {0})
require true e = ok tt
require false e = err e

-- The statements that follow, unless one has thrown.
abbrev pub ◌>>=◌ {κ ℓ} : {R : Type κ} {S : Type ℓ} → Result R → (R → Result S) → Result S
err e >>= next = err e
ok r >>= next = next r

abbrev pub ◌>>◌ {κ} : {S : Type κ} → Result (Unit {0}) → Result S → Result S
first >> next = first >>= λ _. next
