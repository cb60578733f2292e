-- ===== src/Payments/Review.antt =====
-- `startReview`, `approve`, `reject` and `sendDecisionNotice` of
-- hermes-backend/src/payments/payments.service.ts.
use text.Mathlib.Text.{◌==◌ as str_eq}
use hermes_n8n.Prelude.{
  ℕ, Bool, true, false, not, ◌&&◌, ◌==◌, Option, none, some, String, [], ◌∷◌, holds,
}
use hermes_n8n.Prisma.{Prisma, desc}
use hermes_n8n.Schema.{Database}
use hermes_n8n.Schema.Messaging.{Message}
use hermes_n8n.Schema.Crm.{
  Lead, LeadStage, TransferPayment, TransferStatus, AuditLog, Action, ProofMessage, Task,
  TaskStatus, is_review, is_live_task, is_pending_task, is_payment_verification,
}
use hermes_n8n.Delivery.Batch.{Round}
use hermes_n8n.Outcome.{HttpError, Result, ok, or_throw, require, ◌>>=◌, ◌>>◌}
use hermes_n8n.Text.{trim}
use hermes_n8n.Leads.Won.{record_won_milestone}
use hermes_n8n.Payments.Transfer.{notice}
use hermes_n8n.Payments.Instructions.{send_notice}

pub record ApproveTransfer : Type 0 where
  pub expected_status : TransferStatus
  pub reviewed_proof_message_id : ℕ
  pub contract_reference : String
  pub review_note : Option String

pub record RejectTransfer : Type 0 where
  pub expected_status : TransferStatus
  pub review_note : String

-- The number of a status, which tells statuses apart.
unfoldable pub status_code : TransferStatus → ℕ
status_code TransferStatus.instructions_prepared = 0
status_code TransferStatus.instructions_sent = 1
status_code TransferStatus.proof_received = 2
status_code TransferStatus.under_review = 3
status_code TransferStatus.approved = 4
status_code TransferStatus.rejected = 5
status_code TransferStatus.cancelled = 6
status_code TransferStatus.expired = 7

unfoldable pub same_status : TransferStatus → TransferStatus → Bool
unfolding status_code
same_status s t = status_code s == status_code t

abbrev pub is_payment_review : LeadStage → Bool
is_payment_review LeadStage.payment_review = true
is_payment_review _ = false

abbrev pub or_at : Option ℕ → ℕ → ℕ
or_at none now = now
or_at (some t) now = t

abbrev pub trim_note : Option String → Option String
trim_note none = none
trim_note (some s) = some (trim s)

-- An undefined field of an update leaves what is stored.
abbrev pub or_note : Option String → Option String → Option String
or_note none old = old
or_note (some s) old = some s

abbrev pub task_of : (TaskStatus → Bool) → ℕ → Task → Bool
task_of live conversation_id t =
    holds t.conversation_id conversation_id && is_payment_verification t.task_type && live t.status

unfoldable pub complete_task : ℕ → Task → Task
complete_task now t = record t { status = TaskStatus.completed; completed_at = some now }

unfoldable pub review_row : ℕ → TransferPayment → TransferPayment
review_row now t = record t {
  status = TransferStatus.under_review;
  review_started_at = some (or_at t.review_started_at now);
}

unfoldable pub approve_row : ℕ → ℕ → ApproveTransfer → TransferPayment → TransferPayment
approve_row now user_id dto t = record t {
  status = TransferStatus.approved;
  approved_at = some now;
  approved_by_user_id = some user_id;
  reviewed_proof_message_id = some dto.reviewed_proof_message_id;
  review_note = or_note (trim_note dto.review_note) t.review_note;
}

unfoldable pub reject_row : ℕ → ℕ → RejectTransfer → TransferPayment → TransferPayment
reject_row now user_id dto t = record t {
  status = TransferStatus.rejected;
  rejected_at = some now;
  rejected_by_user_id = some user_id;
  review_note = some (trim dto.review_note);
}

unfoldable pub win_lead : ℕ → ApproveTransfer → TransferPayment → Lead → Lead
win_lead now dto payment l = record l {
  stage = LeadStage.won;
  won_at = some now;
  contracted_amount = some payment.amount_expected;
  revenue_received = some payment.amount_expected;
  commercial_currency = some payment.currency;
  contract_reference = some (trim dto.contract_reference);
}

module _ (px : Prisma) where
  open px use {Table, find_unique, find_first, create, update, update_many}

  abbrev pub find_transfer : Database px → ℕ → Option TransferPayment
  find_transfer db id = find_unique (λ (t : TransferPayment). t.id == id) db.transfers

  abbrev pub log : Database px → Option ℕ → Action → ℕ → px.Table AuditLog
  log db user_id action id =
      create (record { user_id = user_id; action = action; entity_id = id }) db.audit_logs

  unfoldable pub start_review :
      Database px → (id user_id now : ℕ) → Result (Database px × TransferPayment)
  unfolding review_row
  start_review db id user_id now = do
    transfer ← or_throw (find_transfer db id) HttpError.not_found
    require (is_review transfer.status) HttpError.conflict
    ok (
      record db {
        transfers = update (λ (t : TransferPayment). t.id == id) (review_row now) db.transfers;
        tasks =
            (update_many (task_of is_pending_task transfer.conversation_id)
              (λ t. record t { status = TaskStatus.in_progress; assigned_user_id = some user_id })
              db.tasks).0;
        audit_logs = log db (some user_id) Action.transfer_review_started id;
      },
      review_row now transfer,
    )

  -- `proof.message.conversationId`: the message that the proof names.
  unfoldable pub proof_in_conversation : Database px → ProofMessage → ℕ → Bool
  proof_in_conversation db proof conversation_id =
      elim (find_unique (λ (m : Message). m.id == proof.message_id) db.messages) [
        | none ↦ false
        | some m ↦ m.conversation_id == conversation_id
      ]

  unfoldable pub find_proof : Database px → ℕ → ℕ → Option ProofMessage
  find_proof db transfer_id message_id =
      find_first []
        (λ (p : ProofMessage). p.transfer_payment_id == transfer_id && p.message_id == message_id)
        db.proofs

  abbrev pub find_lead : Database px → ℕ → Option Lead
  find_lead db id = find_unique (λ (l : Lead). l.id == id) db.leads

  -- What a transfer must be for a decision: in review, in the status that the operator saw.
  abbrev pub is_decidable : TransferPayment → TransferStatus → Bool
  is_decidable payment expected = same_status payment.status expected && is_review payment.status

  unfoldable pub close_tasks : Database px → ℕ → ℕ → px.Table Task
  close_tasks db conversation_id now =
      (update_many (task_of is_live_task conversation_id) (complete_task now) db.tasks).0

  unfoldable pub approval_writes :
      (id : ℕ)
      → ApproveTransfer
      → (user_id now : ℕ) → TransferPayment
      → Database px
      → Result (Database px × TransferPayment)
  unfolding approve_row close_tasks
  approval_writes id dto user_id now payment won = ok (
    record won {
      transfers =
          update (λ (t : TransferPayment). t.id == id) (approve_row now user_id dto) won.transfers;
      tasks = close_tasks won payment.conversation_id now;
      audit_logs = log won (some user_id) Action.transfer_approved id;
    },
    approve_row now user_id dto payment,
  )

  -- The writes of an approval whose guards hold.
  unfoldable pub finish_approval :
      (send_enabled : Bool)
      → Database px
      → (id : ℕ) → ApproveTransfer
      → (user_id now conversion_id : ℕ) → TransferPayment
      → Lead
      → Result (Database px × TransferPayment)
  unfolding win_lead approval_writes
  finish_approval send_enabled db id dto user_id now conversion_id payment lead =
      record_won_milestone px send_enabled
        (record db {
          leads = update (λ (l : Lead). l.id == lead.id) (win_lead now dto payment) db.leads;
        })
        (win_lead now dto payment lead) user_id conversion_id now
      >>= approval_writes id dto user_id now payment

  unfoldable pub approve_transfer :
      (send_enabled : Bool)
      → Database px
      → (id : ℕ) → ApproveTransfer
      → (user_id now conversion_id : ℕ) → Result (Database px × TransferPayment)
  unfolding finish_approval find_proof proof_in_conversation
  approve_transfer send_enabled db id dto user_id now conversion_id = do
    payment ← or_throw (find_transfer db id) HttpError.not_found
    require (is_decidable payment dto.expected_status) HttpError.conflict
    proof ← or_throw (find_proof db id dto.reviewed_proof_message_id) HttpError.bad_request
    require (proof_in_conversation db proof payment.conversation_id) HttpError.bad_request
    lead ← or_throw (find_lead db payment.lead_id) HttpError.conflict
    require (is_payment_review lead.stage) HttpError.conflict
    finish_approval send_enabled db id dto user_id now conversion_id payment lead

  unfoldable pub reject_transfer :
      Database px
      → (id : ℕ) → RejectTransfer
      → (user_id now : ℕ) → Result (Database px × TransferPayment)
  unfolding reject_row close_tasks
  reject_transfer db id dto user_id now = do
    payment ← or_throw (find_transfer db id) HttpError.not_found
    require (is_decidable payment dto.expected_status) HttpError.conflict
    ok (
      record db {
        transfers =
            update (λ (t : TransferPayment). t.id == id) (reject_row now user_id dto) db.transfers;
        leads =
            update (λ (l : Lead). l.id == payment.lead_id)
              (λ l. record l { stage = LeadStage.payment_pending }) db.leads;
        tasks = close_tasks db payment.conversation_id now;
        audit_logs = log db (some user_id) Action.transfer_rejected id;
      },
      reject_row now user_id dto payment,
    )

  abbrev source_of : Option ProofMessage → TransferPayment → ℕ
  source_of none payment = payment.source_message_id
  source_of (some p) payment = p.message_id

  -- An exception of the notice is caught and logged.
  unfoldable pub send_decision_notice :
      (ℕ → Round px) → Database px → TransferPayment → String → ℕ → Database px
  unfolding send_notice
  send_decision_notice rounds db payment content delivery_id =
      let latest =
        find_first (desc (λ (p : ProofMessage). p.received_at) ∷ [])
          (λ (p : ProofMessage). p.transfer_payment_id == payment.id) db.proofs in
      (send_notice px rounds db
        (notice payment.conversation_id payment.contact_id (source_of latest payment) 1 content)
        delivery_id).db

  unfoldable pub approve :
      (send_enabled : Bool)
      → (ℕ → Round px)
      → Database px
      → (id : ℕ) → ApproveTransfer
      → (user_id now conversion_id delivery_id : ℕ) → Result (Database px × TransferPayment)
  unfolding approve_transfer send_decision_notice
  approve send_enabled rounds db id dto user_id now conversion_id delivery_id = do
    require (not (str_eq (trim dto.contract_reference) "")) HttpError.bad_request
    r ← approve_transfer send_enabled db id dto user_id now conversion_id
    ok (
      send_decision_notice rounds r.0 r.1
          "Tu transferencia fue confirmada por nuestro equipo. Gracias por confiar en nosotros."
          delivery_id,
      r.1,
    )

  unfoldable pub reject :
      (ℕ → Round px)
      → Database px
      → (id : ℕ) → RejectTransfer
      → (user_id now delivery_id : ℕ) → Result (Database px × TransferPayment)
  unfolding reject_transfer send_decision_notice
  reject rounds db id dto user_id now delivery_id = do
    require (not (str_eq (trim dto.review_note) "")) HttpError.bad_request
    r ← reject_transfer db id dto user_id now
    ok (
      send_decision_notice rounds r.0 r.1
          "No pudimos validar el comprobante enviado. Un asesor revisará contigo el motivo y los siguientes pasos."
          delivery_id,
      r.1,
    )
