-- ===== src/Schema/Delivery.antt =====
-- The rows of the ledger of automated deliveries, from hermes-backend/prisma/schema.prisma and
-- hermes-backend/src/automated-deliveries.
use hermes_n8n.Prelude.{ℕ, String, Bool, true, false, Option, ◌==◌, ◌&&◌}
use hermes_n8n.Schema.Messaging.{Sender}

pub data DeliveryKind : Type 0 where
  hermes_reply system_notice : DeliveryKind

pub data DeliveryStatus : Type 0 where
  prepared dispatching confirmed rejected ambiguous suppressed : DeliveryStatus

-- The values that `reasonCode` takes: the literals of the service, a status, a code of Meta.
pub data Reason : Type 0 where
  delivery_context_missing turn_id_mismatch newer_inbound contact_opted_out handoff_active : Reason
  conversation_not_active whatsapp_template_required delivery_in_progress : Reason
  delivery_missing claim_expired unexpected_dispatch_failure : Reason
  of_status : DeliveryStatus → Reason
  safe_code : String → Reason

-- The keys of `metadata` that the service reads, each if it holds a string.
pub record Metadata : Type 0 where
  pub conversation_turn_id : Option ℕ
  pub voice_media_id : Option ℕ

-- The template `${sourceMessageId}:${deliveryKind}:${partIndex}`.
pub record OperationKey : Type 0 where
  pub source_message_id : ℕ
  pub delivery_kind : DeliveryKind
  pub part_index : ℕ

pub record Delivery : Type 0 where
  pub id : ℕ
  pub operation_key : OperationKey
  pub delivery_kind : DeliveryKind
  pub part_index : ℕ
  pub conversation_id : ℕ
  pub contact_id : ℕ
  pub source_message_id : ℕ
  pub outbound_message_id : Option ℕ
  pub sender : Sender
  pub content : String
  pub allow_handed_off : Bool
  pub status : DeliveryStatus
  pub attempts : ℕ
  pub claim_token : Option ℕ
  pub claim_expires_at : Option ℕ
  pub dispatch_started_at : Option ℕ
  pub confirmed_at : Option ℕ
  pub ambiguous_at : Option ℕ
  pub rejected_at : Option ℕ
  pub suppressed_at : Option ℕ
  pub wamid : Option ℕ
  pub reason_code : Option Reason
  pub metadata : Option Metadata

abbrev pub same_kind : DeliveryKind → DeliveryKind → Bool
same_kind DeliveryKind.hermes_reply DeliveryKind.hermes_reply = true
same_kind DeliveryKind.system_notice DeliveryKind.system_notice = true
same_kind _ _ = false

abbrev pub same_key : OperationKey → OperationKey → Bool
same_key a b =
    a.source_message_id == b.source_message_id
    && same_kind a.delivery_kind b.delivery_kind
    && a.part_index == b.part_index

abbrev pub is_prepared : DeliveryStatus → Bool
is_prepared DeliveryStatus.prepared = true
is_prepared _ = false

abbrev pub is_dispatching : DeliveryStatus → Bool
is_dispatching DeliveryStatus.dispatching = true
is_dispatching _ = false

abbrev pub is_confirmed : DeliveryStatus → Bool
is_confirmed DeliveryStatus.confirmed = true
is_confirmed _ = false

-- `TERMINAL_STATUSES.includes`.
abbrev pub is_terminal : DeliveryStatus → Bool
is_terminal DeliveryStatus.prepared = false
is_terminal DeliveryStatus.dispatching = false
is_terminal _ = true
