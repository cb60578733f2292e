-- ===== src/Schema/Messaging.antt =====
-- The rows of contacts, conversations, messages and inbound turns, from
-- hermes-backend/prisma/schema.prisma. Identifiers are UUIDs that are only compared for equality,
-- and instants are milliseconds; both are natural numbers here.
use hermes_n8n.Prelude.{ℕ, String, Bool, true, false, Option}

pub data Consent : Type 0 where
  unknown opted_in opted_out : Consent

pub record Contact : Type 0 where
  pub id : ℕ
  pub wa_id : ℕ
  pub marketing_consent_status : Consent

pub data ConversationStatus : Type 0 where
  active paused handed_off closed : ConversationStatus

pub record Conversation : Type 0 where
  pub id : ℕ
  pub contact_id : ℕ
  pub status : ConversationStatus
  pub closed_at : Option ℕ

pub data Direction : Type 0 where
  inbound outbound : Direction

pub data Sender : Type 0 where
  contact hermes human system : Sender

pub data MessageType : Type 0 where
  text image document audio video template interactive reaction sticker location : MessageType
  unknown : MessageType

-- What the program reads of the payload of Meta: the number that `timestamp` spells, if it is a
-- whole one, and the `mime_type` of the media object.
pub record Payload : Type 0 where
  pub timestamp : Option ℕ
  pub mime_type : Option String

pub record Message : Type 0 where
  pub id : ℕ
  pub conversation_id : ℕ
  pub contact_id : ℕ
  pub direction : Direction
  pub sender : Sender
  pub message_type : MessageType
  pub content : String
  pub raw_payload : Option Payload
  pub wamid : Option ℕ
  pub inbound_turn_id : Option ℕ
  pub inbound_turn_position : Option ℕ
  pub created_at : ℕ

pub data TurnStatus : Type 0 where
  opened processing processed : TurnStatus

pub record InboundTurn : Type 0 where
  pub id : ℕ
  pub conversation_id : ℕ
  pub contact_id : ℕ
  pub first_at : ℕ
  pub last_at : ℕ
  pub due_at : ℕ
  pub last_message_id : ℕ
  pub status : TurnStatus
  pub processing_at : Option ℕ
  pub processing_token : Option ℕ

abbrev pub is_inbound : Direction → Bool
is_inbound Direction.inbound = true
is_inbound Direction.outbound = false

abbrev pub is_contact : Sender → Bool
is_contact Sender.contact = true
is_contact _ = false

abbrev pub is_opened : TurnStatus → Bool
is_opened TurnStatus.opened = true
is_opened _ = false

abbrev pub is_processing : TurnStatus → Bool
is_processing TurnStatus.processing = true
is_processing _ = false
