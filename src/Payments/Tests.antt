-- ===== src/Payments/Tests.antt =====
-- Runs of the payments on a database in memory, at which their theorems apply.
use hermes_n8n.Text.{trim}
use hermes_n8n.Leads.Won.{record_won_milestone}
use hermes_n8n.Prisma.Sort.{first}
use hermes_n8n.Prelude.{◌≡◌, refl, true, false, Option, none, some, [], ◌∷◌, arith}
use hermes_n8n.Prisma.Memory.{memory}
use hermes_n8n.Schema.{Database}
use hermes_n8n.Schema.Messaging.{Message, MessageType}
use hermes_n8n.Schema.Crm.{Lead, LeadStage, TransferPayment, TransferStatus, BankAccount}
use hermes_n8n.Outcome.{Result, ok, err, HttpError}
use hermes_n8n.Fixtures.{empty_db, question}
use hermes_n8n.Payments.Transfer.{Request, new_transfer}
use hermes_n8n.Payments.Instructions.{open_or_create}
use hermes_n8n.Payments.Review.{
  same_status, ApproveTransfer, RejectTransfer, approve_transfer, reject_transfer, approve_row,
}
use hermes_n8n.Payments.Proof.{record_proof}
use hermes_n8n.Payments.Approval.{approve_transfer_once}
use hermes_n8n.Payments.Decision.{Approved, approve_transfer-Approved}
use hermes_n8n.Payments.Reach.{IsSound, Reach-IsSound}
use hermes_n8n.Payments.Recording.{record_proof_once}
use hermes_n8n.Payments.Runs.{UniqueIds, Reach, Step}
use hermes_n8n.Payments.Course.{Course, Reach-Course}

abbrev buyer : Lead
buyer = record {
  id = 4;
  contact_id = 1;
  conversation_id = some 2;
  stage = LeadStage.proposal;
  score = 50;
  product_of_interest = none;
  service_requested = none;
  proposal_value = some 12_000;
  contracted_amount = none;
  revenue_received = none;
  commercial_currency = some "USD";
  contract_reference = none;
  next_action = none;
  last_commercial_handoff = none;
  won_at = none;
  created_at = 1000;
}

abbrev account : BankAccount
account = record {
  id = 6;
  bank_name = "Banco";
  account_holder = "Titular";
  holder_identification = none;
  account_type = "corriente";
  account_number_encrypted = "x";
  currency = "USD";
  instructions = none;
  priority = 1;
  is_active = true;
  created_at = 500;
}

abbrev request : Request
request = record { conversation_id = 2; contact_id = 1; source_message_id = 3 }

abbrev receipt : Message
receipt = record question { id = 9; message_type = MessageType.image; content = "" }

abbrev start_db : Database memory
start_db = record empty_db {
  messages = question ∷ receipt ∷ [];
  leads = buyer ∷ [];
  bank_accounts = account ∷ [];
}

abbrev payment : TransferPayment
payment = new_transfer 11 2000 buyer account request

abbrev ordered_db : Database memory
ordered_db = (open_or_create memory start_db buyer account request 11 2000).0

abbrev or_same : {A : Type 0} → Database memory → Option A → (A → Database memory) → Database memory
or_same db none f = db
or_same db (some a) f = f a

abbrev ok_db : {A : Type 0} → Database memory → Result (Database memory × A) → Database memory
ok_db db (err e) = db
ok_db db (ok (db', a)) = db'

abbrev proven_db : Database memory
proven_db = or_same ordered_db (record_proof memory ordered_db receipt none 15 2500) (λ db. db)

proves_payment : record_proof memory ordered_db receipt none 15 2500 ≡ some proven_db
unfolding record_proof first open_or_create
proves_payment = refl

abbrev proven : TransferPayment
proven = record payment { status = TransferStatus.proof_received; proof_received_at = some 2500 }

abbrev decision : ApproveTransfer
decision = record {
  expected_status = TransferStatus.proof_received;
  reviewed_proof_message_id = 9;
  contract_reference = "C-1";
  review_note = none;
}

abbrev refusal : RejectTransfer
refusal = record { expected_status = TransferStatus.proof_received; review_note = "no" }

abbrev approved : TransferPayment
approved = approve_row 3000 50 decision proven

abbrev approved_db : Database memory
approved_db = ok_db proven_db (approve_transfer memory false proven_db 11 decision 50 3000 16)

approves_payment :
    approve_transfer memory false proven_db 11 decision 50 3000 16 ≡ ok (approved_db, approved)
unfolding approve_transfer record_proof first open_or_create same_status record_won_milestone trim
approves_payment = refl

approve_transfer-Approved_example :
    Approved memory proven_db approved_db 11 decision 50 3000 approved
approve_transfer-Approved_example =
    approve_transfer-Approved memory false proven_db approved_db 11 decision 50 3000 16 approved
      approves_payment

approve_transfer_once_example :
    (approve_transfer memory true approved_db 11 decision 51 4000 17 ≡ err HttpError.conflict)
    × (reject_transfer memory approved_db 11 refusal 51 4000 ≡ err HttpError.conflict)
unfolding approve_transfer record_proof first open_or_create same_status record_won_milestone trim
approve_transfer_once_example =
    approve_transfer_once memory false proven_db approved_db 11 decision 50 3000 16 approved
      approves_payment decision refusal 51 4000 17

start-IsSound : IsSound memory start_db
start-IsSound = record { unique = λ id. omega arith; one_open = λ c. omega arith }

pays : Reach memory start_db approved_db
pays =
    Reach.next
      (Reach.next (Reach.next Reach.here (Step.creates buyer account request 11 2000 refl))
        (Step.proves receipt none 15 2500 proves_payment))
      (Step.approves false 11 decision 50 3000 16 approved approves_payment)

Reach-IsSound_example : IsSound memory approved_db
Reach-IsSound_example = Reach-IsSound memory start_db approved_db start-IsSound pays

Reach-Course_example : Course memory start_db approved_db
Reach-Course_example = Reach-Course memory start_db approved_db start-IsSound pays

ordered-UniqueIds : UniqueIds memory ordered_db
ordered-UniqueIds =
    (Reach-IsSound memory start_db ordered_db start-IsSound
      (Reach.next Reach.here (Step.creates buyer account request 11 2000 refl))).unique

record_proof_once_example :
    record_proof memory proven_db receipt (some 3) 99 90_000 ≡ some proven_db
record_proof_once_example =
    record_proof_once memory ordered_db proven_db receipt none (some 3) 15 99 2500 90_000
      ordered-UniqueIds proves_payment
