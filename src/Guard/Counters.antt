-- ===== src/Guard/Counters.antt =====
-- The scopes of the quotas of conversation-guard.service.ts, the runs of the guard that count what a
-- scope is granted, and one count of the counter of a scope.
use hermes_n8n.Prelude.{
  ◌⊎◌, ◌==◌, ℕ, ◌+◌, ◌*◌, ◌≤◌, ◌<◌, ◌≡◌, Bool, true, Option, none, some, inl, inr, Bool-cases,
  Option-cases, if◌then◌else◌, ◌&&◌, arith,
}
use hermes_n8n.Guard.Keys.{Key, ai_contact, ai_global}
use hermes_n8n.Guard.Redis.{Redis, Entry, bumped}
use hermes_n8n.Guard.Content.{Settings, Language}
use hermes_n8n.Guard.Quota.{global_limit, contact_limit, consume_ai_quota, day_of, hour_of}
use hermes_n8n.Guard.Inspect.{Inspected, inspect}

-- What a quota is for: the replies to one contact on one day, or all replies in one hour.
pub data Scope : Type 0 where
  of_contact : (contact day : ℕ) → Scope
  of_hour : (hour : ℕ) → Scope

unfoldable pub key_of : Scope → Key
key_of (of_contact contact day) = ai_contact contact day
key_of (of_hour hour) = ai_global hour

unfoldable pub covers : Scope → ℕ → ℕ → Bool
covers (of_contact contact day) now other = other == contact && day_of now == day
covers (of_hour hour) now other = hour_of now == hour

-- The first instant after the day or the hour.
unfoldable pub end_of : Scope → ℕ
end_of (of_contact contact day) = (day + 1) * 86400000
end_of (of_hour hour) = (hour + 1) * 3600000

unfoldable pub quota_of : Settings → Scope → ℕ
quota_of settings (of_contact contact day) = contact_limit settings
quota_of settings (of_hour hour) = global_limit settings

module _ (rd : Redis) (settings : Settings) (scope : Scope) where
  open rd use {Store, entry, count_up, count_up_other, count_up_some, count_up_none}

  -- The number of replies granted in the scope, and the store, after a run that starts at `s`.
  pub data Grants (s : Store) : ℕ → Store → Type 0 where
    none_yet : Grants s 0 s
    inspects :
        (g : ℕ) (s' : Store)
        → Grants s g s'
        → (now : ℕ) (lang : Language) (m : Inspected)
        → Grants s g (inspect rd settings now lang m s').0
    consumes :
        (g : ℕ) (s' : Store)
        → Grants s g s'
        → (now contact : ℕ)
        → Grants s
            (if covers scope now contact && (consume_ai_quota rd settings now contact s').1
              then g + 1
              else g)
            (consume_ai_quota rd settings now contact s').0

  -- The counter of the scope has counted what was granted, and lasts until the scope ends.
  pub data Counts (g : ℕ) (o : Option Entry) : Type 0 where
    unused : g ≡ 0 → o ≡ none → Counts g o
    used :
        (e : Entry)
        → o ≡ some e
        → g ≤ e.count
        → end_of scope ≤ e.until
        → g ≤ quota_of settings scope
        → Counts g o

  pub Counts-≤ : (g : ℕ) (o : Option Entry) → Counts g o → g ≤ quota_of settings scope
  Counts-≤ g o (unused z e) = omega (arith, z)
  Counts-≤ g o (used e h c u q) = q

  bumped_lem :
      (g now seconds : ℕ) (o : Option Entry)
      → Counts g o
      → now < end_of scope
      → end_of scope ≤ now + seconds * 1000
      → (g + 1 ≤ (bumped now seconds o).count) × (end_of scope ≤ (bumped now seconds o).until)
  bumped_lem g now seconds o (unused z e) h k = rw e (omega (arith, z), k)
  bumped_lem g now seconds o (used e eq c u q) h k = rw eq (ground (arith, h, c, u))

  -- One count of the scope's key, and the reply that it grants or not.
  pub counted :
      (g now seconds : ℕ) (o p : Option Entry) (r : Option ℕ) (granted : Bool)
      → Counts g o
      → ((n : ℕ)
          → r ≡ some n
          → (p ≡ some (bumped now seconds o)) × (n ≡ (bumped now seconds o).count))
      → (r ≡ none → (p ≡ o) ⊎ (p ≡ some (bumped now seconds o)))
      → (granted ≡ true → (n : ℕ) × (r ≡ some n) × (n ≤ quota_of settings scope))
      → now < end_of scope
      → end_of scope ≤ now + seconds * 1000
      → Counts (if granted then g + 1 else g) p
  counted g now seconds o p r granted c up failed limit h k =
      let b = bumped_lem g now seconds o c h k in
      let low = Counts-≤ g o c in
      elim (Bool-cases granted) [
        | inl y ↦
            let (n, e, q) = limit y in
            let (w, v) = up n e in
            rw y (used (bumped now seconds o) w b.0 b.1 (omega (arith, b.0, v, q)))
        | inr z ↦ rw z (elim (Option-cases r) [
          | inl e ↦ elim (failed e) [
            | inl same ↦ rw same c
            | inr w ↦ used (bumped now seconds o) w (omega (arith, b.0)) b.1 low
          ]
          | inr (n, e) ↦ used (bumped now seconds o) (up n e).0 (omega (arith, b.0)) b.1 low
        ])
      ]
