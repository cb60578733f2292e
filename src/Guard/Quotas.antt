-- ===== src/Guard/Quotas.antt =====
-- The quotas of conversation-guard.service.ts, consumeAiQuota, over the runs of the guard.
use hermes_n8n.Prelude.{
  ℕ, ◌+◌, ◌*◌, ◌≤◌, ◌≡◌, ◌∙◌, refl, sym, subst, true, false, Option, none, some, inl, inr,
  Bool-cases, if◌then◌else◌, ◌&&◌, arith,
}
use hermes_n8n.Guard.Keys.{Key, ai_contact, ai_global, same_key}
use hermes_n8n.Guard.Redis.{Redis}
use hermes_n8n.Guard.Content.{Settings, fail_closed}
use hermes_n8n.Guard.Quota.{
  within_quota, global_limit, contact_limit, consume_ai_quota, day_of, hour_of,
}
use hermes_n8n.Guard.Writes.{quota, role, Writes, inspect-Writes}
use hermes_n8n.Guard.Runs.{Writes-quota}
use hermes_n8n.Guard.Counters.{
  Scope, of_contact, of_hour, key_of, covers, end_of, quota_of, Grants, Counts, unused, Counts-≤,
  counted,
}

role_of : (scope : Scope) → role (key_of scope) ≡ quota
unfolding role key_of
role_of (of_contact c day) = refl
role_of (of_hour hour) = refl

within_quota-some :
    (settings : Settings) (a b : Option ℕ)
    → fail_closed settings ≡ true
    → within_quota settings a b ≡ true
    → ((n : ℕ) × (a ≡ some n) × (n ≤ contact_limit settings))
      × ((n : ℕ) × (b ≡ some n) × (n ≤ global_limit settings))
unfolding within_quota
within_quota-some settings none b f h = absurd (cc (rw f at h))
within_quota-some settings (some n) none f h = absurd (cc (rw f at h))
within_quota-some settings (some n) (some k) f h =
    ((n, refl, ground (arith, h)), (k, refl, ground (arith, h)))

the_pair : (a c b d : ℕ) → a ≡ c → b ≡ d → ◌≡◌ {A = ℕ × ℕ} (a, b) (c, d)
the_pair a c b d e f = rw (e, f) refl

other_keys :
    (contact day hour : ℕ)
    → (same_key (ai_contact contact day) (ai_global hour) ≡ false)
      × (same_key (ai_global hour) (ai_contact contact day) ≡ false)
unfolding same_key
other_keys contact day hour = (refl, refl)

uncovered_contact :
    (c day now contact : ℕ)
    → covers (of_contact c day) now contact ≡ false
    → same_key (ai_contact c day) (ai_contact contact (day_of now)) ≡ false
unfolding covers same_key
uncovered_contact c day now contact h = ground (arith, h)

uncovered_hour :
    (hour now contact : ℕ)
    → covers (of_hour hour) now contact ≡ false
    → same_key (ai_global hour) (ai_global (hour_of now)) ≡ false
unfolding covers same_key
uncovered_hour hour now contact h = ground (arith, h)

covered_contact :
    (c day now contact : ℕ)
    → covers (of_contact c day) now contact ≡ true
    → (contact ≡ c) × (day_of now ≡ day)
unfolding covers
covered_contact c day now contact h = ground (arith, h)

covered_hour :
    (hour now contact : ℕ) → covers (of_hour hour) now contact ≡ true → hour_of now ≡ hour
unfolding covers
covered_hour hour now contact h = ground (arith, h)

module _ (rd : Redis) (settings : Settings) where
  open rd use {Store, entry, count_up, count_up_other, count_up_some, count_up_none}

  contact_covered :
      (g now contact : ℕ) (s : Store)
      → fail_closed settings ≡ true
      → Counts rd settings
          (of_contact contact (day_of now))
          g
          (entry s (ai_contact contact (day_of now)))
      → Counts rd settings
          (of_contact contact (day_of now))
          (if (consume_ai_quota rd settings now contact s).1 then g + 1 else g)
          (entry (consume_ai_quota rd settings now contact s).0 (ai_contact contact (day_of now)))
  unfolding consume_ai_quota role quota_of end_of
  contact_covered g now contact s f h =
      let k = ai_contact contact (day_of now) in
      let j = ai_global (hour_of now) in
      let a = count_up now k (26 * 3600) s in
      let b = count_up now j (2 * 3600) a.0 in
      subst
        (λ o.
          Counts rd settings (of_contact contact (day_of now))
            (if within_quota settings a.1 b.1 then g + 1 else g) o)
        (sym
          (count_up_other now j (2 * 3600) a.0 k (other_keys contact (day_of now) (hour_of now)).0))
        (counted rd settings (of_contact contact (day_of now)) g now (26 * 3600) (entry s k)
          (entry a.0 k) a.1 (within_quota settings a.1 b.1) h
          (λ n e. count_up_some now k (26 * 3600) s n e) (λ e. count_up_none now k (26 * 3600) s e)
          (λ y. (within_quota-some settings a.1 b.1 f y).0) (omega arith) (omega arith))

  hour_covered :
      (g now contact : ℕ) (s : Store)
      → fail_closed settings ≡ true
      → Counts rd settings (of_hour (hour_of now)) g (entry s (ai_global (hour_of now)))
      → Counts rd settings
          (of_hour (hour_of now))
          (if (consume_ai_quota rd settings now contact s).1 then g + 1 else g)
          (entry (consume_ai_quota rd settings now contact s).0 (ai_global (hour_of now)))
  unfolding consume_ai_quota role quota_of end_of
  hour_covered g now contact s f h =
      let k = ai_contact contact (day_of now) in
      let j = ai_global (hour_of now) in
      let a = count_up now k (26 * 3600) s in
      let b = count_up now j (2 * 3600) a.0 in
      let same : entry a.0 j ≡ entry s j =
        count_up_other now k (26 * 3600) s j (other_keys contact (day_of now) (hour_of now)).1 in
      counted rd settings (of_hour (hour_of now)) g now (2 * 3600) (entry a.0 j) (entry b.0 j) b.1
        (within_quota settings a.1 b.1) (rw same h) (λ n e. count_up_some now j (2 * 3600) a.0 n e)
        (λ e. count_up_none now j (2 * 3600) a.0 e)
        (λ y. (within_quota-some settings a.1 b.1 f y).1) (omega arith) (omega arith)

  consume_keeps :
      (now contact : ℕ) (s : Store) (j : Key)
      → same_key j (ai_contact contact (day_of now)) ≡ false
      → same_key j (ai_global (hour_of now)) ≡ false
      → entry (consume_ai_quota rd settings now contact s).0 j ≡ entry s j
  unfolding consume_ai_quota
  consume_keeps now contact s j h k =
      let a = count_up now (ai_contact contact (day_of now)) (26 * 3600) s in
      count_up_other now (ai_global (hour_of now)) (2 * 3600) a.0 j k
      ∙ count_up_other now (ai_contact contact (day_of now)) (26 * 3600) s j h

  covered_day :
      (c day g now contact : ℕ) (s : Store)
      → fail_closed settings ≡ true
      → (contact ≡ c) × (day_of now ≡ day)
      → Counts rd settings (of_contact c day) g (entry s (ai_contact c day))
      → Counts rd settings
          (of_contact c day)
          (if (consume_ai_quota rd settings now contact s).1 then g + 1 else g)
          (entry (consume_ai_quota rd settings now contact s).0 (ai_contact c day))
  covered_day c day g now contact s f (e, d) =
      subst
        (λ (k : ℕ × ℕ).
          Counts rd settings (of_contact k.0 k.1) g (entry s (ai_contact k.0 k.1))
          → Counts rd settings (of_contact k.0 k.1)
              (if (consume_ai_quota rd settings now contact s).1 then g + 1 else g)
              (entry (consume_ai_quota rd settings now contact s).0 (ai_contact k.0 k.1)))
        (the_pair contact c (day_of now) day e d) (contact_covered g now contact s f)

  covered_now :
      (hour g now contact : ℕ) (s : Store)
      → fail_closed settings ≡ true
      → hour_of now ≡ hour
      → Counts rd settings (of_hour hour) g (entry s (ai_global hour))
      → Counts rd settings
          (of_hour hour)
          (if (consume_ai_quota rd settings now contact s).1 then g + 1 else g)
          (entry (consume_ai_quota rd settings now contact s).0 (ai_global hour))
  covered_now hour g now contact s f e =
      subst
        (λ k.
          Counts rd settings (of_hour k) g (entry s (ai_global k))
          → Counts rd settings (of_hour k)
              (if (consume_ai_quota rd settings now contact s).1 then g + 1 else g)
              (entry (consume_ai_quota rd settings now contact s).0 (ai_global k)))
        e (hour_covered g now contact s f)

  consume_contact :
      (c day g now contact : ℕ) (s : Store)
      → fail_closed settings ≡ true
      → Counts rd settings (of_contact c day) g (entry s (ai_contact c day))
      → Counts rd settings
          (of_contact c day)
          (if covers (of_contact c day) now contact
              && (consume_ai_quota rd settings now contact s).1
            then g + 1
            else g)
          (entry (consume_ai_quota rd settings now contact s).0 (ai_contact c day))
  unfolding consume_ai_quota
  consume_contact c day g now contact s f h =
      elim (Bool-cases (covers (of_contact c day) now contact)) [
        | inl y ↦ rw y (covered_day c day g now contact s f (covered_contact c day now contact y) h)
        | inr n ↦ rw n (
            subst (λ o. Counts rd settings (of_contact c day) g o)
              (sym (
                consume_keeps now contact s (ai_contact c day)
                  (uncovered_contact c day now contact n) (other_keys c day (hour_of now)).0))
              h)
      ]

  consume_hour :
      (hour g now contact : ℕ) (s : Store)
      → fail_closed settings ≡ true
      → Counts rd settings (of_hour hour) g (entry s (ai_global hour))
      → Counts rd settings
          (of_hour hour)
          (if covers (of_hour hour) now contact && (consume_ai_quota rd settings now contact s).1
            then g + 1
            else g)
          (entry (consume_ai_quota rd settings now contact s).0 (ai_global hour))
  unfolding consume_ai_quota
  consume_hour hour g now contact s f h = elim (Bool-cases (covers (of_hour hour) now contact)) [
    | inl y ↦ rw y (covered_now hour g now contact s f (covered_hour hour now contact y) h)
    | inr n ↦ rw n (
        subst (λ o. Counts rd settings (of_hour hour) g o)
          (sym (
            consume_keeps now contact s (ai_global hour) (other_keys contact (day_of now) hour).1
              (uncovered_hour hour now contact n)))
          h)
  ]

  Grants-Counts :
      (scope : Scope)
      → fail_closed settings ≡ true
      → (s : Store) → entry s (key_of scope) ≡ none
      → (g : ℕ) (s' : Store) → Grants rd settings scope s g s'
      → Counts rd settings scope g (entry s' (key_of scope))
  unfolding key_of
  Grants-Counts scope f s e g s' (Grants.none_yet) = unused refl e
  Grants-Counts scope f s e g s' (Grants.inspects k s'' run now lang m) =
      subst (λ o. Counts rd settings scope k o)
        (sym (
          Writes-quota settings now (entry s'' (key_of scope)) (entry s' (key_of scope)) (
            subst (λ r. Writes settings r now (entry s'' (key_of scope)) (entry s' (key_of scope)))
              (role_of scope) (inspect-Writes rd settings now lang m s'' (key_of scope)))))
        (Grants-Counts scope f s e k s'' run)
  Grants-Counts (of_contact c day) f s e g s' (Grants.consumes k s'' run now contact) =
      unfold key_of in
      consume_contact c day k now contact s'' f (Grants-Counts (of_contact c day) f s e k s'' run)
  Grants-Counts (of_hour hour) f s e g s' (Grants.consumes k s'' run now contact) =
      unfold key_of in
      consume_hour hour k now contact s'' f (Grants-Counts (of_hour hour) f s e k s'' run)

  -- In a run of the guard that starts with no count for a contact on a day (or for an hour),
  -- consumeAiQuota grants at most the configured number of replies to that contact on that day (or in
  -- that hour), if the guard fails closed: failures of Redis are among the run's steps.
  pub Grants-bounded :
      (scope : Scope) (g : ℕ) (s s' : Store)
      → fail_closed settings ≡ true
      → entry s (key_of scope) ≡ none
      → Grants rd settings scope s g s'
      → g ≤ quota_of settings scope
  Grants-bounded scope g s s' f e run =
      Counts-≤ rd settings scope g (entry s' (key_of scope)) (Grants-Counts scope f s e g s' run)
