-- ===== src/Payments/Transfer.antt =====
-- The rows and messages that `maybeSendInstructions` and `reconcileInstruction` of
-- hermes-backend/src/payments/payments.service.ts write. Decryption is an argument.
use Prim.Native.String
use hermes_n8n.Prelude.{
  ℕ, Bool, true, false, ◌&&◌, ◌==◌, ltb, Option, none, some, is_none, String, [], ◌∷◌,
  if◌then◌else◌,
}
use hermes_n8n.Schema.Messaging.{Sender}
use hermes_n8n.Schema.Delivery.{DeliveryKind}
use hermes_n8n.Schema.Crm.{
  Lead, LeadStage, BankAccount, AccountSnapshot, TransferPayment, TransferStatus,
}
use hermes_n8n.Delivery.Settle.{PrepareBatch}
use hermes_n8n.Delivery.Batch.{BatchResult}
use hermes_n8n.Text.{is_truthy, or_text}

pub record Request : Type 0 where
  pub conversation_id : ℕ
  pub contact_id : ℕ
  pub source_message_id : ℕ

-- `REQUEST_STAGES.includes`.
abbrev pub is_request_stage : LeadStage → Bool
is_request_stage LeadStage.qualified = true
is_request_stage LeadStage.proposal = true
is_request_stage LeadStage.negotiation = true
is_request_stage LeadStage.payment_pending = true
is_request_stage _ = false

abbrev pub is_approved : TransferStatus → Bool
is_approved TransferStatus.approved = true
is_approved _ = false

abbrev pub is_instructions_prepared : TransferStatus → Bool
is_instructions_prepared TransferStatus.instructions_prepared = true
is_instructions_prepared _ = false

-- `lead.commercialCurrency || 'USD'`.
abbrev pub currency_of : Lead → String
currency_of lead = elim (or_text lead.commercial_currency (some "USD")) [
  | none ↦ "USD"
  | some c ↦ c
]

-- `Number(lead.proposalValue || 0)`.
abbrev pub amount_of : Option ℕ → ℕ
amount_of none = 0
amount_of (some n) = n

unfoldable pub snapshot_of : BankAccount → String → AccountSnapshot
snapshot_of a currency = record {
  bank_name = a.bank_name;
  account_holder = a.account_holder;
  holder_identification = a.holder_identification;
  account_type = a.account_type;
  account_number_encrypted = a.account_number_encrypted;
  currency = currency;
  instructions = a.instructions;
}

unfoldable pub new_transfer : ℕ → ℕ → Lead → BankAccount → Request → TransferPayment
unfolding snapshot_of
new_transfer id now lead account request = record {
  id = id;
  lead_id = lead.id;
  conversation_id = request.conversation_id;
  contact_id = request.contact_id;
  bank_account_id = account.id;
  bank_account_snapshot = snapshot_of account (currency_of lead);
  amount_expected = amount_of lead.proposal_value;
  currency = currency_of lead;
  status = TransferStatus.instructions_prepared;
  source_message_id = request.source_message_id;
  instructions_message_id = none;
  reviewed_proof_message_id = none;
  proof_received_at = none;
  review_started_at = none;
  approved_at = none;
  rejected_at = none;
  approved_by_user_id = none;
  rejected_by_user_id = none;
  review_note = none;
  created_at = now;
}

infixr 65 ◌+s◌
abbrev ◌+s◌ : String → String → String
s +s t = String.◌++◌ s t

abbrev if_given : String → Option String → String
if_given label o = if is_truthy o then label +s (elim o [ none ↦ "" | some s ↦ s ]) else ""

-- The message with the data of the account. `none` is a failed decryption, which throws.
unfoldable pub instructions_content : (String → Option String) → AccountSnapshot → Option String
instructions_content decrypt a = elim (decrypt a.account_number_encrypted) [
  | none ↦ none
  | some number ↦ some (
      "Puedes realizar la transferencia con estos datos:\n\nBanco: "
      +s a.bank_name
      +s "\nTitular: "
      +s a.account_holder
      +s "\nTipo de cuenta: "
      +s a.account_type
      +s "\nCuenta: "
      +s number
      +s "\nMoneda: "
      +s a.currency
      +s if_given "\nIdentificación: " a.holder_identification
      +s if_given "\nReferencia: " a.instructions
      +s "\n\nCuando la realices, envíanos por este chat el comprobante para validarlo.")
]

-- A notice of one part.
unfoldable pub notice : ℕ → ℕ → ℕ → ℕ → String → PrepareBatch
notice conversation_id contact_id source_message_id part_index content = record {
  delivery_kind = DeliveryKind.system_notice;
  conversation_id = conversation_id;
  contact_id = contact_id;
  source_message_id = source_message_id;
  sender = Sender.system;
  allow_handed_off = false;
  parts = record { part_index = part_index; content = content; metadata = none } ∷ [];
}

pub data Reply : Type 0 where
  answers : Bool → Reply
  throws : Reply

-- `delivered.confirmed > 0`.
abbrev pub has_confirmed : BatchResult → Bool
has_confirmed r = ltb 0 r.confirmed

abbrev pub lacks_message : ℕ → TransferPayment → Bool
lacks_message id t = t.id == id && is_none t.instructions_message_id

abbrev pub awaits_instructions : ℕ → TransferPayment → Bool
awaits_instructions id t = lacks_message id t && is_instructions_prepared t.status

abbrev pub attach_message : ℕ → TransferPayment → TransferPayment
attach_message message_id t = record t { instructions_message_id = some message_id }

abbrev pub mark_sent : ℕ → TransferPayment → TransferPayment
mark_sent message_id t = record t {
  instructions_message_id = some message_id;
  status = TransferStatus.instructions_sent;
}
