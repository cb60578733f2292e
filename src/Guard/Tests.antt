-- ===== src/Guard/Tests.antt =====
-- The guard at concrete messages, over a Redis in memory and over one that cannot be reached.
use hermes_n8n.Prelude.{◌≡◌, ◌≢◌, ◌≤◌, refl, true, false, none, some, [], ◌∷◌, arith}
use hermes_n8n.Guard.Keys.{same_key, NoticeKind}
use hermes_n8n.Guard.Memory.{online, offline}
use hermes_n8n.Guard.Content.{
  positive_integer, Settings, Language, Category, GuardDecision, fail_closed,
}
use hermes_n8n.Guard.Quota.{claim_notice, set_cooldown, consume_ai_quota}
use hermes_n8n.Guard.Inspect.{Inspected, inspect}
use hermes_n8n.Guard.Runs.{Later}
use hermes_n8n.Guard.Marks.{claim_notice_once, cooldown_blocks}
use hermes_n8n.Guard.Counters.{covers, of_contact, Grants, quota_of}
use hermes_n8n.Guard.Quotas.{Grants-bounded}

abbrev one_reply : Settings
one_reply = record {
  max_input_chars = none;
  messages_window_seconds = none;
  max_messages_per_window = some 1;
  contact_daily_limit = some 1;
  global_hourly_limit = none;
  max_output_chars = none;
  notice_cooldown_seconds = some 60;
  spam_cooldown_seconds = some 60;
  fail_closed = none;
  support_phone = none;
}

-- A language in which no expression matches.
abbrev plain : Language
plain = record { test = λ p t. false; normalize = λ t. t; links = λ t. 0 }

abbrev hello : Inspected
hello = record {
  contact_id = 7;
  content = 104 ∷ 105 ∷ [];
  support_context = [];
  priority_contact = false;
}

abbrev blank : online.Store
blank k = none

abbrev once_granted : online.Store
once_granted = (consume_ai_quota online one_reply 1000 7 blank).0

second_refused : (consume_ai_quota online one_reply 2000 7 once_granted).1 ≡ false
unfolding consume_ai_quota positive_integer same_key
second_refused = refl

allowed : (inspect online one_reply 1000 plain hello blank).1 ≡ GuardDecision.allow
unfolding inspect positive_integer same_key
allowed = refl

abbrev marked : online.Store
marked = (claim_notice online one_reply 1000 7 NoticeKind.long_input blank).0

marked_now : (claim_notice online one_reply 1000 7 NoticeKind.long_input blank).1 ≡ true
unfolding claim_notice
marked_now = refl

claim_notice_once_example :
    (claim_notice online one_reply 3000 7 NoticeKind.long_input
      (consume_ai_quota online one_reply 3000 7 marked).0).1
    ≡ false
unfolding positive_integer
claim_notice_once_example =
    claim_notice_once online one_reply 1000 7 NoticeKind.long_input blank 3000
      (consume_ai_quota online one_reply 3000 7 marked).0 marked_now
      (Later.consumes 1000 marked Later.rest 3000 (omega arith) 7) (omega arith)

abbrev cooling : online.Store
cooling = (set_cooldown online one_reply 1000 7 blank).0

fails_closed : fail_closed one_reply ≡ true
unfolding fail_closed
fails_closed = refl

cooling_now : (set_cooldown online one_reply 1000 7 blank).1 ≡ true
unfolding set_cooldown
cooling_now = refl

abbrev cooling_still : online.Store
cooling_still = (consume_ai_quota online one_reply 5000 7 cooling).0

cooldown_blocks_example :
    (inspect online one_reply 5000 plain hello cooling_still).1 ≢ GuardDecision.allow
unfolding positive_integer
cooldown_blocks_example =
    cooldown_blocks online one_reply 1000 7 blank 5000 cooling_still plain hello fails_closed
      cooling_now (Later.consumes 1000 cooling Later.rest 5000 (omega arith) 7) (omega arith) refl
      refl

-- While Redis cannot be reached the guard blocks.
closed_offline :
    (inspect offline one_reply 1000 plain hello blank).1 ≡ GuardDecision.block Category.spam none
unfolding inspect positive_integer
closed_offline = refl

-- Two requests of one contact, of which the first is granted.
abbrev two_requests : online.Store
two_requests = (consume_ai_quota online one_reply 2000 7 once_granted).0

Grants-bounded_example : 1 ≤ quota_of one_reply (of_contact 7 0)
unfolding covers consume_ai_quota positive_integer same_key
Grants-bounded_example =
    Grants-bounded online one_reply (of_contact 7 0) 1 blank two_requests fails_closed refl
      (Grants.consumes 1 once_granted (Grants.consumes 0 blank Grants.none_yet 1000 7) 2000 7)
