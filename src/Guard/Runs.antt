-- ===== src/Guard/Runs.antt =====
-- Marks over the runs of conversation-guard.service.ts: its operations, one after the other, at
-- instants that do not go back. The clock of the process and that of Redis are the same.
use hermes_n8n.Prelude.{
  ℕ, ◌+◌, ◌*◌, ◌≤◌, ◌<◌, ◌≡◌, ◌≢◌, ◌∙◌, refl, sym, ap, subst, true, false, Option, some, inl, inr,
  is_some, Bool-cases, arith,
}
use hermes_n8n.Guard.Keys.{Key, ai_contact, ai_global, same_key, same_key_true}
use hermes_n8n.Guard.Redis.{Redis, Entry, alive, fresh}
use hermes_n8n.Guard.Content.{Settings, Language}
use hermes_n8n.Guard.Quota.{consume_ai_quota, spam_cooldown, day_of, hour_of}
use hermes_n8n.Guard.Inspect.{Inspected, inspect}
use hermes_n8n.Guard.Writes.{lasting, once, quota, role, Writes, inspect-Writes}

-- A mark that does not expire before `u`.
pub record Lasts (u : ℕ) (o : Option Entry) : Type 0 where
  pub mark : Entry
  pub held : o ≡ some mark
  pub until : u ≤ mark.until

pub Lasts-alive :
    (u now : ℕ) (o : Option Entry) → now < u → Lasts u o → is_some (alive now o) ≡ true
Lasts-alive u now o h l = rw (l.held) (ground (arith, h, l.until))

Writes-once :
    (settings : Settings) (u now : ℕ) (o p : Option Entry)
    → now < u
    → Lasts u o
    → Writes settings once now o p
    → Lasts u p
Writes-once settings u now o p h l (Writes.kept x) = l
Writes-once settings u now o p h l (Writes.tallied x seconds e) = absurd (cc e)
Writes-once settings u now o p h l (Writes.renewed x e) = absurd (cc e)
Writes-once settings u now o p h l (Writes.marked x seconds e free) =
    absurd (cc (Lasts-alive u now o h l, free))
Writes-once settings u now o p h l (Writes.both x q y a b) =
    Writes-once settings u now q p h (Writes-once settings u now o q h l a) b

Writes-lasting :
    (settings : Settings) (u now : ℕ) (o p : Option Entry)
    → u ≤ now + spam_cooldown settings * 1000
    → Lasts u o
    → Writes settings lasting now o p
    → Lasts u p
Writes-lasting settings u now o p h l (Writes.kept x) = l
Writes-lasting settings u now o p h l (Writes.tallied x seconds e) = absurd (cc e)
Writes-lasting settings u now o p h l (Writes.renewed x e) = record {
  mark = fresh now (spam_cooldown settings);
  held = refl;
  until = h;
}
Writes-lasting settings u now o p h l (Writes.marked x seconds e free) = absurd (cc e)
Writes-lasting settings u now o p h l (Writes.both x q y a b) =
    Writes-lasting settings u now q p h (Writes-lasting settings u now o q h l a) b

pub Writes-quota :
    (settings : Settings) (now : ℕ) (o p : Option Entry) → Writes settings quota now o p → p ≡ o
Writes-quota settings now o p (Writes.kept x) = refl
Writes-quota settings now o p (Writes.tallied x seconds e) = absurd (cc e)
Writes-quota settings now o p (Writes.renewed x e) = absurd (cc e)
Writes-quota settings now o p (Writes.marked x seconds e free) = absurd (cc e)
Writes-quota settings now o p (Writes.both x q y a b) =
    Writes-quota settings now q p b ∙ Writes-quota settings now o q a

pub differs : (j k : Key) → role j ≢ role k → same_key j k ≡ false
differs j k h = elim (Bool-cases (same_key j k)) [
  | inl y ↦ absurd (h (ap role (same_key_true j k y)))
  | inr n ↦ n
]

module _ (rd : Redis) (settings : Settings) where
  open rd use {
    Store, entry, count_up, count_up_other, put_true, put_new, put_new_taken, put_new_free, exists,
    exists_some,
  }

  -- What the guard has done between two instants.
  pub data Later (start : ℕ) (s : Store) : ℕ → Store → Type 0 where
    rest : Later start s start s
    inspects :
        (t : ℕ) (s' : Store)
        → Later start s t s'
        → (now : ℕ) → t ≤ now
        → (lang : Language) (m : Inspected)
        → Later start s now (inspect rd settings now lang m s').0
    consumes :
        (t : ℕ) (s' : Store)
        → Later start s t s'
        → (now : ℕ) → t ≤ now
        → (contact : ℕ) → Later start s now (consume_ai_quota rd settings now contact s').0

  Later-≤ : (start : ℕ) (s : Store) (t : ℕ) (s' : Store) → Later start s t s' → start ≤ t
  Later-≤ start s t s' Later.rest = omega arith
  Later-≤ start s t s' (Later.inspects t' s'' l now h lang m) =
      omega (arith, Later-≤ start s t' s'' l, h)
  Later-≤ start s t s' (Later.consumes t' s'' l now h contact) =
      omega (arith, Later-≤ start s t' s'' l, h)

  consume-other :
      (now contact : ℕ) (s : Store) (j : Key)
      → role j ≢ quota
      → entry (consume_ai_quota rd settings now contact s).0 j ≡ entry s j
  unfolding consume_ai_quota role
  consume-other now contact s j h =
      let a = count_up now (ai_contact contact (day_of now)) (26 * 3600) s in
      count_up_other now (ai_global (hour_of now)) (2 * 3600) a.0 j
        (differs j (ai_global (hour_of now)) h)
      ∙ count_up_other now (ai_contact contact (day_of now)) (26 * 3600) s j
          (differs j (ai_contact contact (day_of now)) h)

  pub Later-once :
      (u : ℕ) (j : Key)
      → role j ≡ once
      → (start : ℕ) (s : Store) (t : ℕ) (s' : Store) → Later start s t s'
      → t < u
      → Lasts u (entry s j)
      → Lasts u (entry s' j)
  Later-once u j r start s t s' Later.rest h l = l
  Later-once u j r start s t s' (Later.inspects t' s'' run now o lang m) h l =
      Writes-once settings u now (entry s'' j) (entry s' j) h
        (Later-once u j r start s t' s'' run (omega arith) l)
        (subst (λ x. Writes settings x now (entry s'' j) (entry s' j)) r
          (inspect-Writes rd settings now lang m s'' j))
  Later-once u j r start s t s' (Later.consumes t' s'' run now o contact) h l =
      subst (λ x. Lasts u x) (sym (consume-other now contact s'' j (λ e. cc (e, r))))
        (Later-once u j r start s t' s'' run (omega arith) l)

  pub Later-lasting :
      (u : ℕ) (j : Key)
      → role j ≡ lasting
      → (start : ℕ) (s : Store) (t : ℕ) (s' : Store) → Later start s t s'
      → u ≤ start + spam_cooldown settings * 1000
      → Lasts u (entry s j)
      → Lasts u (entry s' j)
  Later-lasting u j r start s t s' Later.rest h l = l
  Later-lasting u j r start s t s' (Later.inspects t' s'' run now o lang m) h l =
      Writes-lasting settings u now (entry s'' j) (entry s' j)
        (omega (arith, Later-≤ start s t' s'' run)) (Later-lasting u j r start s t' s'' run h l)
        (subst (λ x. Writes settings x now (entry s'' j) (entry s' j)) r
          (inspect-Writes rd settings now lang m s'' j))
  Later-lasting u j r start s t s' (Later.consumes t' s'' run now o contact) h l =
      subst (λ x. Lasts u x) (sym (consume-other now contact s'' j (λ e. cc (e, r))))
        (Later-lasting u j r start s t' s'' run h l)
