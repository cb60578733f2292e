-- ===== src/Guard/Marks.antt =====
-- Notices and cooldowns over the runs of conversation-guard.service.ts.
use hermes_n8n.Prelude.{
  ℕ, ◌+◌, ◌*◌, ◌<◌, ◌≡◌, ◌≢◌, ◌∙◌, refl, sym, ap, subst, true, false, none, some, inl, inr, is_some,
  Bool-cases, Option-cases, ltb, length, arith,
}
use hermes_n8n.Guard.Keys.{Key, NoticeKind, messages, cooldown, notice}
use hermes_n8n.Guard.Redis.{Redis, alive, fresh}
use hermes_n8n.Guard.Content.{
  Settings, Language, Category, GuardDecision, fail_closed, positive_integer, moderation_notice,
  is_support_request, support_notice, has_excessive_links,
}
use hermes_n8n.Guard.Quota.{claim_notice, set_cooldown, spam_cooldown, notice_cooldown}
use hermes_n8n.Guard.Inspect.{
  Inspected, inspect, inspect_content, check_rate, over_limit, block_with, on_failure, in_cooldown,
  message_limit,
}
use hermes_n8n.Guard.Writes.{role}
use hermes_n8n.Guard.Runs.{Later, Later-once, Later-lasting, Lasts, Lasts-alive, differs}

module _ (rd : Redis) (settings : Settings) where
  open rd use {
    Store, entry, count_up, count_up_other, put_true, put_new, put_new_taken, put_new_free, exists,
    exists_some,
  }

  claimed_true :
      (now : ℕ) (k : Key) (seconds : ℕ) (s : Store)
      → (put_new now k seconds s).1 ≡ some true
      → Lasts (now + seconds * 1000) (entry (put_new now k seconds s).0 k)
  claimed_true now k seconds s h = elim (Bool-cases (is_some (alive now (entry s k)))) [
    | inl y ↦ elim (put_new_taken now k seconds s y).1 [
      | inl e ↦ absurd (cc (e, h))
      | inr e ↦ absurd (cc (e, h))
    ]
    | inr n ↦ record {
      mark = fresh now seconds;
      held = (put_new_free now k seconds s true n h).1;
      until = omega arith;
    }
  ]

  claim_notice-some :
      (now contact : ℕ) (kind : NoticeKind) (s : Store)
      → (claim_notice rd settings now contact kind s).1 ≡ true
      → (put_new now (notice kind contact) (notice_cooldown settings) s).1 ≡ some true
  unfolding claim_notice
  claim_notice-some now contact kind s h =
      elim (Option-cases (put_new now (notice kind contact) (notice_cooldown settings) s).1) [
        | inl e ↦ absurd (cc (rw e at h))
        | inr (b, e) ↦ e ∙ ap some (rw e at h)
      ]

  -- Once claimNotice has answered that the notice of a category may be sent to a contact, it refuses
  -- that notice to that contact until the notice's cooldown has passed, whatever the guard inspects
  -- and consumes in between, and whether or not Redis answers.
  pub claim_notice_once :
      (now contact : ℕ) (kind : NoticeKind) (s : Store) (t : ℕ) (s' : Store)
      → (claim_notice rd settings now contact kind s).1 ≡ true
      → Later rd settings now (claim_notice rd settings now contact kind s).0 t s'
      → t < now + notice_cooldown settings * 1000
      → (claim_notice rd settings t contact kind s').1 ≡ false
  unfolding claim_notice role
  claim_notice_once now contact kind s t s' h run early =
      let k = notice kind contact in
      let l =
        Later-once rd settings (now + notice_cooldown settings * 1000) k refl now
          (claim_notice rd settings now contact kind s).0 t s' run early
          (claimed_true now k (notice_cooldown settings) s
            (claim_notice-some now contact kind s h)) in
      elim (put_new_taken t k (notice_cooldown settings) s'
        (Lasts-alive (now + notice_cooldown settings * 1000) t (entry s' k) early l)).1 [
          | inl e ↦ rw e refl
          | inr e ↦ rw e refl
        ]

  on_failure-block :
      fail_closed settings ≡ true → on_failure settings ≡ GuardDecision.block Category.spam none
  unfolding on_failure
  on_failure-block f = rw f refl

  over_limit-ne-allow :
      (now : ℕ) (m : Inspected) (s : Store)
      → fail_closed settings ≡ true
      → m.priority_contact ≡ false
      → (over_limit rd settings now m s).1 ≢ GuardDecision.allow
  unfolding over_limit block_with
  over_limit-ne-allow now m s f p h =
      elim (Bool-cases (set_cooldown rd settings now m.contact_id s).1) [
        | inl y ↦ absurd (cc (rw (p, y) at h))
        | inr n ↦ absurd (cc (rw (p, n, on_failure-block f) at h))
      ]

  in_cooldown-ne-allow :
      (now : ℕ) (m : Inspected) (s : Store)
      → fail_closed settings ≡ true
      → m.priority_contact ≡ false
      → is_some (alive now (entry s (cooldown m.contact_id))) ≡ true
      → in_cooldown rd settings now m s ≢ GuardDecision.allow
  unfolding in_cooldown
  in_cooldown-ne-allow now m s f p l h =
      elim (Option-cases (exists now (cooldown m.contact_id) s)) [
        | inl e ↦ absurd (cc (rw (e, in_cooldown, on_failure-block f) at h))
        | inr (b, e) ↦
            let held : b ≡ true = exists_some now (cooldown m.contact_id) s b e ∙ l in
            absurd (cc (rw (e, in_cooldown, held, p) at h))
      ]

  check_rate-ne-allow :
      (now : ℕ) (m : Inspected) (s : Store)
      → fail_closed settings ≡ true
      → m.priority_contact ≡ false
      → is_some (alive now (entry s (cooldown m.contact_id))) ≡ true
      → (check_rate rd settings now m s).1 ≢ GuardDecision.allow
  unfolding check_rate role
  check_rate-ne-allow now m s f p l h =
      let c = m.contact_id in
      let seconds = positive_integer settings.messages_window_seconds 600 in
      let a = count_up now (messages c) seconds s in
      let same : entry a.0 (cooldown c) ≡ entry s (cooldown c) =
        count_up_other now (messages c) seconds s (cooldown c)
          (differs (cooldown c) (messages c) (λ e. cc e)) in
      elim (Option-cases a.1) [
        | inl e ↦ absurd (cc (rw (e, check_rate, on_failure-block f) at h))
        | inr (n, e) ↦ elim (Bool-cases (ltb (message_limit settings) n)) [
          | inl y ↦ over_limit-ne-allow now m a.0 f p (rw (e, check_rate, y) at h)
          | inr z ↦ in_cooldown-ne-allow now m a.0 f p (rw same l) (rw (e, check_rate, z) at h)
        ]
      ]

  inspect-ne-allow :
      (now : ℕ) (lang : Language) (m : Inspected) (s : Store)
      → (check_rate rd settings now m s).1 ≢ GuardDecision.allow
      → (inspect rd settings now lang m s).1 ≢ GuardDecision.allow
  unfolding inspect inspect_content block_with support_notice
  inspect-ne-allow now lang m s never h =
      elim (Bool-cases (is_support_request lang (lang.normalize m.support_context))) [
        | inl y ↦ absurd (cc (rw y at h))
        | inr n ↦ elim (Option-cases (moderation_notice lang (lang.normalize m.content))) [
          | inr (found, e) ↦ absurd (cc (rw (n, e) at h))
          | inl e ↦
              elim (Bool-cases
                (ltb (positive_integer settings.max_input_chars 2000) (length m.content))) [
                  | inl y ↦ absurd (cc (rw (n, e, y) at h))
                  | inr short ↦ elim (Bool-cases (has_excessive_links lang m.content)) [
                    | inl y ↦ absurd (cc (rw (n, e, short, y) at h))
                    | inr few ↦ never (rw (n, e, short, few) at h)
                  ]
                ]
        ]
      ]

  -- While the cooldown of a contact lasts, no message of that contact is allowed, unless the contact
  -- has priority: whatever the guard has done in between, and whether or not Redis answers, if the
  -- guard is set to fail closed.
  pub cooldown_blocks :
      (now contact : ℕ) (s : Store) (t : ℕ) (s' : Store) (lang : Language) (m : Inspected)
      → fail_closed settings ≡ true
      → (set_cooldown rd settings now contact s).1 ≡ true
      → Later rd settings now (set_cooldown rd settings now contact s).0 t s'
      → t < now + spam_cooldown settings * 1000
      → m.contact_id ≡ contact
      → m.priority_contact ≡ false
      → (inspect rd settings t lang m s').1 ≢ GuardDecision.allow
  unfolding set_cooldown role
  cooldown_blocks now contact s t s' lang m f h run early c p =
      let u = now + spam_cooldown settings * 1000 in
      let set : Lasts u (entry (set_cooldown rd settings now contact s).0 (cooldown contact)) =
        record {
          mark = fresh now (spam_cooldown settings);
          held = put_true now (cooldown contact) (spam_cooldown settings) s h;
          until = omega arith;
        } in
      let l =
        Later-lasting rd settings u (cooldown contact) refl now
          (set_cooldown rd settings now contact s).0 t s' run (omega arith) set in
      inspect-ne-allow t lang m s' (
        check_rate-ne-allow t m s' f p (
          subst (λ x. is_some (alive t (entry s' (cooldown x))) ≡ true) (sym c)
            (Lasts-alive u t (entry s' (cooldown contact)) early l)))
