-- ===== src/Delivery/Eligibility.antt =====
-- `ineligibilityReason` and `providerTimestamp` of
-- hermes-backend/src/automated-deliveries/automated-delivery.service.ts, and the reply window of
-- hermes-backend/src/meta/whatsapp-service-window.ts.
use hermes_n8n.Prelude.{
  ℕ, ◌+◌, ◌*◌, Bool, true, false, not, ◌&&◌, Option, none, some, ◌==◌, ltb, holds, is_some,
  if◌then◌else◌,
}
use hermes_n8n.Schema.Messaging.{Consent, Contact, Conversation, ConversationStatus, Message}
use hermes_n8n.Schema.Delivery.{Delivery, Metadata, Reason}
use hermes_n8n.Schema.Crm.{Handoff}

abbrev pub whatsapp_reply_window_ms : ℕ
whatsapp_reply_window_ms = 24 * 60 * 60 * 1000

pub record ReplyWindow : Type 0 where
  pub is_open : Bool
  pub last_inbound_at : Option ℕ
  pub closes_at : Option ℕ

unfoldable pub whatsapp_reply_window : Option ℕ → ℕ → ReplyWindow
whatsapp_reply_window none now = record {
  is_open = false;
  last_inbound_at = none;
  closes_at = none;
}
whatsapp_reply_window (some at) now = record {
  is_open = ltb now (at + whatsapp_reply_window_ms);
  last_inbound_at = some at;
  closes_at = some (at + whatsapp_reply_window_ms);
}

-- The largest instant of a `Date`.
abbrev pub max_date : ℕ
max_date = 8_640_000_000_000_000

-- Seconds below 10_000_000_000, else milliseconds; what is not a date falls back.
unfoldable pub millis_or : ℕ → ℕ → ℕ
millis_or numeric created_at =
    let millis = if ltb numeric 10_000_000_000 then numeric * 1000 else numeric in
    if ltb 0 numeric && not (ltb max_date millis) then millis else created_at

unfoldable pub timestamp_or : Option ℕ → ℕ → ℕ
timestamp_or none created_at = created_at
timestamp_or (some numeric) created_at = millis_or numeric created_at

unfoldable pub provider_timestamp : Message → ℕ
unfolding timestamp_or millis_or
provider_timestamp m = elim m.raw_payload [
  | none ↦ m.created_at
  | some p ↦ timestamp_or p.timestamp m.created_at
]

abbrev pub is_opted_out : Consent → Bool
is_opted_out Consent.opted_out = true
is_opted_out _ = false

abbrev pub is_active : ConversationStatus → Bool
is_active ConversationStatus.active = true
is_active _ = false

abbrev pub is_handed_off : ConversationStatus → Bool
is_handed_off ConversationStatus.handed_off = true
is_handed_off _ = false

unfoldable pub conversation_turn_id : Option Metadata → Option ℕ
conversation_turn_id none = none
conversation_turn_id (some m) = m.conversation_turn_id

-- Whether the delivery names a turn, and the message stands in another or in none.
abbrev pub turn_differs : Option ℕ → Option ℕ → Bool
turn_differs none turn = false
turn_differs (some t) turn = not (holds turn t)

-- Whether the delivery names a turn, and the message stands in another.
abbrev pub turn_moved_on : Option ℕ → Option ℕ → Bool
turn_moved_on none turn = false
turn_moved_on (some t) none = false
turn_moved_on (some t) (some u) = not (u == t)

unfoldable pub reason_in_context :
    Delivery → Conversation → Contact → Option Handoff → Message → Message → ℕ → Option Reason
reason_in_context current conversation contact handoff source latest now =
    let turn = conversation_turn_id current.metadata in
    let source_at = provider_timestamp source in
    let latest_at = provider_timestamp latest in
    if turn_differs turn source.inbound_turn_id
    then some Reason.turn_id_mismatch
    else if turn_moved_on turn latest.inbound_turn_id
    then some Reason.newer_inbound
    else if not (latest.id == source.id) && ltb source_at latest_at
    then some Reason.newer_inbound
    else if is_opted_out contact.marketing_consent_status
    then some Reason.contact_opted_out
    else if is_some handoff && not current.allow_handed_off
    then some Reason.handoff_active
    else if not (is_active conversation.status)
        && not (current.allow_handed_off && is_handed_off conversation.status)
    then some Reason.conversation_not_active
    else if not (whatsapp_reply_window (some latest_at) now).is_open
    then some Reason.whatsapp_template_required
    else none

unfoldable pub ineligibility_reason :
    Delivery
    → Option Conversation
    → Option Contact
    → Option Handoff
    → Option Message
    → Option Message
    → ℕ
    → Option Reason
unfolding reason_in_context
ineligibility_reason current (some conversation) (some contact) handoff (some source) (some latest)
      now =
    reason_in_context current conversation contact handoff source latest now
ineligibility_reason current _ _ handoff _ _ now = some Reason.delivery_context_missing
