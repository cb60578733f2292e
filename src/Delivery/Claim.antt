-- ===== src/Delivery/Claim.antt =====
-- `claim` of hermes-backend/src/automated-deliveries/automated-delivery.service.ts.
use text.Mathlib.Text.{◌==◌ as str_eq}
use hermes_n8n.Prelude.{
  ℕ, ◌+◌, Bool, true, false, ◌&&◌, Option, none, some, [], ◌∷◌, ◌==◌, is_none, if◌then◌else◌,
}
use hermes_n8n.Prisma.{Prisma, desc}
use hermes_n8n.Schema.{Database}
use hermes_n8n.Schema.Messaging.{Contact, Conversation, Message, is_inbound}
use hermes_n8n.Schema.Delivery.{
  Delivery, DeliveryStatus, Reason, is_prepared, is_dispatching, is_terminal,
}
use hermes_n8n.Schema.Crm.{Handoff, is_open_handoff}
use hermes_n8n.Delivery.Eligibility.{ineligibility_reason}

abbrev pub claim_lease_ms : ℕ
claim_lease_ms = 60_000

-- `reasonCode || fallback`: null and the empty string give way.
abbrev pub reason_or : Option Reason → Reason → Reason
reason_or none fallback = fallback
reason_or (some (Reason.safe_code s)) fallback =
    if str_eq s "" then fallback else Reason.safe_code s
reason_or (some r) fallback = r

pub data ClaimResult : Type 0 where
  claimed : Delivery → (wa_id claim_token : ℕ) → ClaimResult
  refused : (terminal : Bool) → Reason → ClaimResult

-- `{ id, status: PREPARED, claimToken: null }`.
abbrev pub is_claimable : ℕ → Delivery → Bool
is_claimable id d = d.id == id && is_prepared d.status && is_none d.claim_token

unfoldable pub suppress : ℕ → Reason → Delivery → Delivery
suppress now reason d = record d {
  status = DeliveryStatus.suppressed;
  suppressed_at = some now;
  reason_code = some reason;
}

unfoldable pub dispatch : ℕ → ℕ → Delivery → Delivery
dispatch now token d = record d {
  status = DeliveryStatus.dispatching;
  claim_token = some token;
  claim_expires_at = some (now + claim_lease_ms);
  dispatch_started_at = some now;
  attempts = d.attempts + 1;
}

-- `contact!.waId`, where the contact was found.
abbrev pub wa_id_of : Option Contact → ℕ
wa_id_of none = 0
wa_id_of (some c) = c.wa_id

module _ (px : Prisma) where
  open px use {Table, find_unique, find_first, update_many}

  abbrev pub find_conversation : Database px → ℕ → Option Conversation
  find_conversation db id = find_unique (λ (c : Conversation). c.id == id) db.conversations

  abbrev pub find_contact : Database px → ℕ → Option Contact
  find_contact db id = find_unique (λ (c : Contact). c.id == id) db.contacts

  abbrev pub find_message : Database px → ℕ → Option Message
  find_message db id = find_unique (λ (m : Message). m.id == id) db.messages

  abbrev pub find_delivery : Database px → ℕ → Option Delivery
  find_delivery db id = find_unique (λ (d : Delivery). d.id == id) db.deliveries

  abbrev pub open_handoff : Database px → ℕ → Option Handoff
  open_handoff db conversation_id =
      find_first []
        (λ (h : Handoff). h.conversation_id == conversation_id && is_open_handoff h.status)
        db.handoffs

  abbrev pub latest_inbound : Database px → ℕ → Option Message
  latest_inbound db conversation_id =
      find_first (desc (λ (m : Message). m.created_at) ∷ [])
        (λ (m : Message). m.conversation_id == conversation_id && is_inbound m.direction)
        db.messages

  -- Why the row may not be sent in the state that the transaction sees.
  unfoldable pub reason_now : Database px → Delivery → ℕ → Option Reason
  reason_now db current now =
      ineligibility_reason current (find_conversation db current.conversation_id)
        (find_contact db current.contact_id) (open_handoff db current.conversation_id)
        (find_message db current.source_message_id) (latest_inbound db current.conversation_id) now

  unfoldable pub suppress_row : Database px → Delivery → ℕ → Reason → Database px × ClaimResult
  suppress_row db current now reason = (
    record db {
      deliveries = (update_many (is_claimable current.id) (suppress now reason) db.deliveries).0;
    },
    refused true reason,
  )

  unfoldable pub dispatch_row : Database px → Delivery → ℕ → ℕ → Database px × ClaimResult
  dispatch_row db current now token =
      let (deliveries, count) =
        update_many (is_claimable current.id) (dispatch now token) db.deliveries in
      (
        record db { deliveries = deliveries },
        if count == 1
            then claimed current (wa_id_of (find_contact db current.contact_id)) token
            else refused false Reason.delivery_in_progress,
      )

  unfoldable pub claim_current : Database px → Delivery → ℕ → ℕ → Database px × ClaimResult
  unfolding suppress_row dispatch_row reason_now suppress dispatch
  claim_current db current now token =
      if is_prepared current.status
      then elim (reason_now db current now) [
        | none ↦ dispatch_row db current now token
        | some reason ↦ suppress_row db current now reason
      ]
      else (
        db,
        refused (is_terminal current.status) (
            reason_or current.reason_code (
              if is_dispatching current.status
              then Reason.delivery_in_progress
              else Reason.of_status current.status)),
      )

  unfoldable pub claim : Database px → Delivery → ℕ → ℕ → Database px × ClaimResult
  unfolding claim_current
  claim db operation now token = elim (find_delivery db operation.id) [
    | none ↦ (db, refused true Reason.delivery_missing)
    | some current ↦ claim_current db current now token
  ]
