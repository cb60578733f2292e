-- ===== src/Guard/Inspect.antt =====
-- The inspection of an inbound text: conversation-guard.service.ts, inspect. An exception of Redis
-- after a command has taken effect leaves the effect.
use hermes_n8n.Prelude.{ℕ, Bool, not, ◌&&◌, ltb, none, some, length, if◌then◌else◌}
use hermes_n8n.Text.{Units}
use hermes_n8n.Guard.Keys.{
  NoticeKind, moderation, out_of_scope, long_input, rate_limit, messages, cooldown,
}
use hermes_n8n.Guard.Redis.{Redis}
use hermes_n8n.Guard.Content.{
  Language, Settings, Category, Notice, GuardDecision, positive_integer, fail_closed,
  moderation_notice, is_support_request, support_notice, has_excessive_links,
}
use hermes_n8n.Guard.Quota.{claim_notice, set_cooldown}

abbrev pub kind_of : Category → NoticeKind
kind_of Category.spam = rate_limit
kind_of Category.moderation = moderation
kind_of Category.out_of_scope = out_of_scope

-- The message that is inspected; `support_context` is the content unless the caller gives another.
pub record Inspected : Type 0 where
  pub contact_id : ℕ
  pub content : Units
  pub support_context : Units
  pub priority_contact : Bool

-- The answer of the `catch` block.
unfoldable pub on_failure : Settings → GuardDecision
unfolding fail_closed
on_failure settings =
    if fail_closed settings then GuardDecision.block Category.spam none else GuardDecision.allow

abbrev pub message_limit : Settings → ℕ
message_limit settings = positive_integer settings.max_messages_per_window 15

module _ (rd : Redis) (settings : Settings) (now : ℕ) where
  open rd use {Store, count_up, exists}

  -- A block with the notice, if it may be sent now.
  unfoldable pub block_with : Category → NoticeKind → Notice → ℕ → Store → Store × GuardDecision
  unfolding claim_notice
  block_with category kind text contact s =
      let r = claim_notice rd settings now contact kind s in
      (r.0, GuardDecision.block category (if r.1 then some text else none))

  unfoldable pub over_limit : Inspected → Store → Store × GuardDecision
  unfolding set_cooldown on_failure block_with
  over_limit m s =
      let c = set_cooldown rd settings now m.contact_id s in
      let b = block_with Category.spam rate_limit Notice.one_inquiry m.contact_id c.0 in
      if m.priority_contact
      then (s, GuardDecision.allow)
      else if c.1
      then b
      else (c.0, on_failure settings)

  unfoldable pub in_cooldown : Inspected → Store → GuardDecision
  unfolding on_failure
  in_cooldown m s = elim (exists now (cooldown m.contact_id) s) [
    | none ↦ on_failure settings
    | some held ↦
        if held && not m.priority_contact
        then GuardDecision.block Category.spam none
        else GuardDecision.allow
  ]

  -- The `try` block.
  unfoldable pub check_rate : Inspected → Store → Store × GuardDecision
  unfolding over_limit in_cooldown on_failure
  check_rate m s =
      let a =
        count_up now (messages m.contact_id) (positive_integer settings.messages_window_seconds 600)
          s in
      elim a.1 [
        | none ↦ (a.0, on_failure settings)
        | some n ↦
            if ltb (message_limit settings) n then over_limit m a.0 else (a.0, in_cooldown m a.0)
      ]

  unfoldable pub inspect_content : Language → Inspected → Store → Store × GuardDecision
  unfolding block_with has_excessive_links check_rate
  inspect_content lang m s =
      let long = block_with Category.spam long_input Notice.brief_inquiry m.contact_id s in
      let rated = check_rate m s in
      if ltb (positive_integer settings.max_input_chars 2000) (length m.content)
      then long
      else if has_excessive_links lang m.content
      then (s, GuardDecision.block Category.spam none)
      else rated

  unfoldable pub inspect : Language → Inspected → Store → Store × GuardDecision
  unfolding is_support_request support_notice moderation_notice block_with inspect_content
  inspect lang m s =
      let other : Store × GuardDecision = elim (moderation_notice lang (lang.normalize m.content)) [
        | none ↦ inspect_content lang m s
        | some found ↦ block_with found.0 (kind_of found.0) found.1 m.contact_id s
      ] in
      if is_support_request lang (lang.normalize m.support_context)
      then (s, support_notice settings)
      else other
