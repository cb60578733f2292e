-- ===== src/Guard/Writes.antt =====
-- What the operations of conversation-guard.service.ts do to one key of Redis.
use hermes_n8n.Prelude.{
  ℕ, ◌≡◌, refl, sym, subst, false, Option, some, inl, inr, is_some, Bool-cases, Option-cases, ltb,
  length,
}
use hermes_n8n.Guard.Keys.{
  Key, NoticeKind, messages, cooldown, notice, ai_contact, ai_global, same_key, same_key_true,
}
use hermes_n8n.Guard.Redis.{Redis, Entry, alive, fresh, bumped}
use hermes_n8n.Guard.Content.{
  Settings, Language, Category, Notice, positive_integer, moderation_notice, is_support_request,
  has_excessive_links,
}
use hermes_n8n.Guard.Quota.{claim_notice, set_cooldown, spam_cooldown, notice_cooldown}
use hermes_n8n.Guard.Inspect.{
  Inspected, inspect, inspect_content, check_rate, over_limit, block_with, message_limit, kind_of,
}

-- How a key is written: counted messages, marks that are renewed, marks set once, quotas.
pub data Role : Type 0 where
  tally lasting once quota : Role

unfoldable pub role : Key → Role
role (messages c) = tally
role (cooldown c) = lasting
role (notice k c) = once
role (ai_contact c d) = quota
role (ai_global h) = quota

-- The entries that one inspection may leave under a key of this role.
pub data Writes (settings : Settings) (r : Role) (now : ℕ)
    : Option Entry → Option Entry → Type 0 where
  kept : (o : Option Entry) → Writes settings r now o o
  tallied :
      (o : Option Entry) (seconds : ℕ)
      → r ≡ tally
      → Writes settings r now o (some (bumped now seconds o))
  renewed :
      (o : Option Entry)
      → r ≡ lasting
      → Writes settings r now o (some (fresh now (spam_cooldown settings)))
  marked :
      (o : Option Entry) (seconds : ℕ)
      → r ≡ once
      → is_some (alive now o) ≡ false
      → Writes settings r now o (some (fresh now seconds))
  both :
      (o p q : Option Entry)
      → Writes settings r now o p
      → Writes settings r now p q
      → Writes settings r now o q

module _ (settings : Settings) (now : ℕ) where
  Writes-same : {r : Role} {o p : Option Entry} → p ≡ o → Writes settings r now o p
  Writes-same {r} {o} e = subst (λ x. Writes settings r now o x) (sym e) (Writes.kept o)

  Writes-to :
      {r : Role} {o p q : Option Entry}
      → p ≡ q
      → Writes settings r now o q
      → Writes settings r now o p
  Writes-to {r} {o} e w = subst (λ x. Writes settings r now o x) (sym e) w

module _ (rd : Redis) (settings : Settings) (now : ℕ) where
  open rd use {
    Store, entry, count_up, put, put_new, count_up_other, count_up_some, count_up_none, put_other,
    put_true, put_false, put_new_other, put_new_taken, put_new_free, put_new_failed,
  }

  abbrev Step : Key → Store → Store → Type 0
  Step j s t = Writes settings (role j) now (entry s j) (entry t j)

  count_up-Writes :
      (k : Key) (seconds : ℕ) (s : Store)
      → role k ≡ tally
      → (j : Key) → Step j s (count_up now k seconds s).0
  count_up-Writes k seconds s r j = elim (Bool-cases (same_key j k)) [
    | inl y ↦
        subst (λ i. Step i s (count_up now k seconds s).0) (sym (same_key_true j k y))
          (elim (Option-cases (count_up now k seconds s).1) [
            | inl f ↦ elim (count_up_none now k seconds s f) [
              | inl e ↦ Writes-same settings now e
              | inr e ↦ Writes-to settings now e (Writes.tallied (entry s k) seconds r)
            ]
            | inr (n, h) ↦
                Writes-to settings now (count_up_some now k seconds s n h).0
                  (Writes.tallied (entry s k) seconds r)
          ])
    | inr n ↦ Writes-same settings now (count_up_other now k seconds s j n)
  ]

  set_cooldown-Writes :
      (contact : ℕ) (s : Store) (j : Key) → Step j s (set_cooldown rd settings now contact s).0
  unfolding set_cooldown role
  set_cooldown-Writes contact s j =
      let k = cooldown contact in
      elim (Bool-cases (same_key j k)) [
        | inl y ↦
            subst (λ i. Step i s (set_cooldown rd settings now contact s).0)
              (sym (same_key_true j k y))
              (elim (Bool-cases (put now k (spam_cooldown settings) s).1) [
                | inl h ↦
                    Writes-to settings now (put_true now k (spam_cooldown settings) s h)
                      (Writes.renewed (entry s k) refl)
                | inr h ↦ elim (put_false now k (spam_cooldown settings) s h) [
                  | inl e ↦ Writes-same settings now e
                  | inr e ↦ Writes-to settings now e (Writes.renewed (entry s k) refl)
                ]
              ])
        | inr n ↦ Writes-same settings now (put_other now k (spam_cooldown settings) s j n)
      ]

  put_new-Writes :
      (k : Key) (seconds : ℕ) (s : Store)
      → role k ≡ once
      → (j : Key) → Step j s (put_new now k seconds s).0
  put_new-Writes k seconds s r j = elim (Bool-cases (same_key j k)) [
    | inl y ↦
        subst (λ i. Step i s (put_new now k seconds s).0) (sym (same_key_true j k y))
          (elim (Bool-cases (is_some (alive now (entry s k)))) [
            | inl taken ↦ Writes-same settings now (put_new_taken now k seconds s taken).0
            | inr free ↦ elim (Option-cases (put_new now k seconds s).1) [
              | inl f ↦ elim (put_new_failed now k seconds s free f) [
                | inl e ↦ Writes-same settings now e
                | inr e ↦ Writes-to settings now e (Writes.marked (entry s k) seconds r free)
              ]
              | inr (b, h) ↦
                  Writes-to settings now (put_new_free now k seconds s b free h).1
                    (Writes.marked (entry s k) seconds r free)
            ]
          ])
    | inr n ↦ Writes-same settings now (put_new_other now k seconds s j n)
  ]

  block_with-Writes :
      (category : Category) (kind : NoticeKind) (text : Notice) (contact : ℕ) (s : Store) (j : Key)
      → Step j s (block_with rd settings now category kind text contact s).0
  unfolding block_with claim_notice role
  block_with-Writes category kind text contact s j =
      put_new-Writes (notice kind contact) (notice_cooldown settings) s refl j

  over_limit-Writes :
      (m : Inspected) (s : Store) (j : Key) → Step j s (over_limit rd settings now m s).0
  unfolding over_limit
  over_limit-Writes m s j =
      let c = set_cooldown rd settings now m.contact_id s in
      elim (Bool-cases m.priority_contact) [
        | inl y ↦ rw (y) (Writes.kept (entry s j))
        | inr n ↦ elim (Bool-cases c.1) [
          | inl y ↦
              rw (n, y)
                (Writes.both _ _ _ (set_cooldown-Writes m.contact_id s j) (
                  block_with-Writes Category.spam NoticeKind.rate_limit Notice.one_inquiry
                    m.contact_id c.0 j))
          | inr f ↦ rw (n, f) (set_cooldown-Writes m.contact_id s j)
        ]
      ]

  check_rate-Writes :
      (m : Inspected) (s : Store) (j : Key) → Step j s (check_rate rd settings now m s).0
  unfolding check_rate role
  check_rate-Writes m s j =
      let seconds = positive_integer settings.messages_window_seconds 600 in
      let a = count_up now (messages m.contact_id) seconds s in
      let first : Step j s a.0 = count_up-Writes (messages m.contact_id) seconds s refl j in
      elim (Option-cases a.1) [
        | inl f ↦ rw (f, check_rate) first
        | inr (n, h) ↦ elim (Bool-cases (ltb (message_limit settings) n)) [
          | inl y ↦ rw (h, check_rate, y) (Writes.both _ _ _ first (over_limit-Writes m a.0 j))
          | inr z ↦ rw (h, check_rate, z) first
        ]
      ]

  inspect_content-Writes :
      (lang : Language) (m : Inspected) (s : Store) (j : Key)
      → Step j s (inspect_content rd settings now lang m s).0
  unfolding inspect_content
  inspect_content-Writes lang m s j =
      elim (Bool-cases (ltb (positive_integer settings.max_input_chars 2000) (length m.content))) [
        | inl y ↦ rw y (
            block_with-Writes Category.spam NoticeKind.long_input Notice.brief_inquiry m.contact_id
              s j)
        | inr n ↦ elim (Bool-cases (has_excessive_links lang m.content)) [
          | inl y ↦ rw (n, y) (Writes.kept (entry s j))
          | inr z ↦ rw (n, z) (check_rate-Writes m s j)
        ]
      ]

  pub inspect-Writes :
      (lang : Language) (m : Inspected) (s : Store) (j : Key)
      → Step j s (inspect rd settings now lang m s).0
  unfolding inspect
  inspect-Writes lang m s j =
      elim (Bool-cases (is_support_request lang (lang.normalize m.support_context))) [
        | inl y ↦ rw y (Writes.kept (entry s j))
        | inr n ↦ elim (Option-cases (moderation_notice lang (lang.normalize m.content))) [
          | inl e ↦ rw (n, e) (inspect_content-Writes lang m s j)
          | inr (found, e) ↦
              rw (n, e) (block_with-Writes found.0 (kind_of found.0) found.1 m.contact_id s j)
        ]
      ]
