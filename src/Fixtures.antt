-- ===== src/Fixtures.antt =====
-- The rows at which the theorems of the components are applied: a contact, a conversation, a
-- message, and a database in memory that holds them.
use hermes_n8n.Prelude.{none, some, [], ◌∷◌}
use hermes_n8n.Prisma.Memory.{memory}
use hermes_n8n.Schema.{Database}
use hermes_n8n.Schema.Messaging.{
  Contact, Consent, Conversation, ConversationStatus, Message, MessageType, Direction, Sender,
}

abbrev pub someone : Contact
someone = record { id = 1; wa_id = 593_900; marketing_consent_status = Consent.opted_in }

abbrev pub talk : Conversation
talk = record { id = 2; contact_id = 1; status = ConversationStatus.active; closed_at = none }

abbrev pub question : Message
question = record {
  id = 3;
  conversation_id = 2;
  contact_id = 1;
  direction = Direction.inbound;
  sender = Sender.contact;
  message_type = MessageType.text;
  content = "hola";
  raw_payload = none;
  wamid = some 33;
  inbound_turn_id = none;
  inbound_turn_position = none;
  created_at = 1000;
}

abbrev pub empty_db : Database memory
empty_db = record {
  contacts = someone ∷ [];
  conversations = talk ∷ [];
  messages = question ∷ [];
  inbound_turns = [];
  deliveries = [];
  handoffs = [];
  leads = [];
  tasks = [];
  audit_logs = [];
  bank_accounts = [];
  transfers = [];
  proofs = [];
  conversions = [];
  sync_jobs = [];
  campaigns = [];
  recipients = [];
}
