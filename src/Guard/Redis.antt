-- ===== src/Guard/Redis.antt =====
-- The commands that conversation-guard.service.ts sends to Redis, and what their documentation says
-- of them. Redis is an external service, so it is a parameter of the development: a command may fail
-- before or after it has taken effect. `entry` is what was last written under a key, with the
-- instant from which it counts as expired; instants are milliseconds.
use hermes_n8n.Prelude.{
  ℕ, suc, ◌+◌, ◌*◌, ◌≡◌, ◌⊎◌, Bool, true, false, ltb, Option, none, some, is_some, if◌then◌else◌,
}
use hermes_n8n.Guard.Keys.{Key, same_key}

pub record Entry : Type 0 where
  pub count : ℕ
  pub until : ℕ

abbrev pub alive : ℕ → Option Entry → Option Entry
alive now none = none
alive now (some e) = if ltb now e.until then some e else none

abbrev pub fresh : ℕ → ℕ → Entry
fresh now seconds = record { count = 1; until = now + seconds * 1000 }

-- INCR, then EXPIRE with NX: a counter that has an expiry keeps it.
abbrev pub bumped : ℕ → ℕ → Option Entry → Entry
bumped now seconds none = fresh now seconds
bumped now seconds (some e) =
    if ltb now e.until then record { count = suc e.count; until = e.until } else fresh now seconds

pub record Redis : Type 1 where
  pub Store : Type 0
  pub entry : Store → Key → Option Entry
  -- MULTI, INCR key, EXPIRE key seconds NX, EXEC: the number that INCR answers.
  pub count_up : ℕ → Key → ℕ → Store → Store × Option ℕ
  -- SET key 1 EX seconds.
  pub put : ℕ → Key → ℕ → Store → Store × Bool
  -- SET key 1 EX seconds NX: whether it answers OK.
  pub put_new : ℕ → Key → ℕ → Store → Store × Option Bool
  -- GET key: whether there is a value.
  pub exists : ℕ → Key → Store → Option Bool
  pub count_up_other :
      (now : ℕ) (k : Key) (seconds : ℕ) (s : Store) (j : Key)
      → same_key j k ≡ false
      → entry (count_up now k seconds s).0 j ≡ entry s j
  pub count_up_some :
      (now : ℕ) (k : Key) (seconds : ℕ) (s : Store) (n : ℕ)
      → (count_up now k seconds s).1 ≡ some n
      → (entry (count_up now k seconds s).0 k ≡ some (bumped now seconds (entry s k)))
        × (n ≡ (bumped now seconds (entry s k)).count)
  pub count_up_none :
      (now : ℕ) (k : Key) (seconds : ℕ) (s : Store)
      → (count_up now k seconds s).1 ≡ none
      → (entry (count_up now k seconds s).0 k ≡ entry s k)
        ⊎ (entry (count_up now k seconds s).0 k ≡ some (bumped now seconds (entry s k)))
  pub put_other :
      (now : ℕ) (k : Key) (seconds : ℕ) (s : Store) (j : Key)
      → same_key j k ≡ false
      → entry (put now k seconds s).0 j ≡ entry s j
  pub put_true :
      (now : ℕ) (k : Key) (seconds : ℕ) (s : Store)
      → (put now k seconds s).1 ≡ true
      → entry (put now k seconds s).0 k ≡ some (fresh now seconds)
  pub put_false :
      (now : ℕ) (k : Key) (seconds : ℕ) (s : Store)
      → (put now k seconds s).1 ≡ false
      → (entry (put now k seconds s).0 k ≡ entry s k)
        ⊎ (entry (put now k seconds s).0 k ≡ some (fresh now seconds))
  pub put_new_other :
      (now : ℕ) (k : Key) (seconds : ℕ) (s : Store) (j : Key)
      → same_key j k ≡ false
      → entry (put_new now k seconds s).0 j ≡ entry s j
  pub put_new_taken :
      (now : ℕ) (k : Key) (seconds : ℕ) (s : Store)
      → is_some (alive now (entry s k)) ≡ true
      → (entry (put_new now k seconds s).0 k ≡ entry s k)
        × (((put_new now k seconds s).1 ≡ none) ⊎ ((put_new now k seconds s).1 ≡ some false))
  pub put_new_free :
      (now : ℕ) (k : Key) (seconds : ℕ) (s : Store) (b : Bool)
      → is_some (alive now (entry s k)) ≡ false
      → (put_new now k seconds s).1 ≡ some b
      → (b ≡ true) × (entry (put_new now k seconds s).0 k ≡ some (fresh now seconds))
  pub put_new_failed :
      (now : ℕ) (k : Key) (seconds : ℕ) (s : Store)
      → is_some (alive now (entry s k)) ≡ false
      → (put_new now k seconds s).1 ≡ none
      → (entry (put_new now k seconds s).0 k ≡ entry s k)
        ⊎ (entry (put_new now k seconds s).0 k ≡ some (fresh now seconds))
  pub exists_some :
      (now : ℕ) (k : Key) (s : Store) (b : Bool)
      → exists now k s ≡ some b
      → b ≡ is_some (alive now (entry s k))
