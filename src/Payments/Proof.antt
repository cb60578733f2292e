-- ===== src/Payments/Proof.antt =====
-- `detectProof` and `maybeReplyWithStatus` of hermes-backend/src/payments/payments.service.ts.
use text.Mathlib.Text.{◌==◌ as str_eq}
use hermes_n8n.Prelude.{
  [], ℕ, ◌+◌, ◌*◌, Bool, true, false, not, ◌&&◌, ◌||◌, ◌==◌, Option, none, some, String, [], ◌∷◌,
  if◌then◌else◌,
}
use hermes_n8n.Prisma.{Prisma, desc}
use hermes_n8n.Schema.{Database}
use hermes_n8n.Schema.Messaging.{Message, MessageType, Payload, is_inbound, is_contact}
use hermes_n8n.Schema.Crm.{
  Lead, LeadStage, TransferPayment, TransferStatus, Action, ProofMessage, Task, TaskStatus,
  TaskType, is_instruction, is_live_task, is_open_transfer,
}
use hermes_n8n.Delivery.Batch.{Round, Run, Outcome, returned, rethrown}
use hermes_n8n.Payments.Transfer.{Request, Reply, answers, throws, notice}
use hermes_n8n.Payments.Instructions.{send_notice}
use hermes_n8n.Payments.Review.{task_of}

abbrev pub mime_of : Option Payload → Option String
mime_of none = none
mime_of (some p) = p.mime_type

abbrev pub is_mime : Option String → String → Bool
is_mime none t = false
is_mime (some s) t = str_eq s t

-- `PROOF_TYPES.includes`, with the declared type that each asks for.
abbrev pub is_proof_media : MessageType → Option String → Bool
is_proof_media MessageType.document mime = is_mime mime "application/pdf"
is_proof_media MessageType.image mime = is_mime mime "image/jpeg" || is_mime mime "image/png"
is_proof_media _ mime = false

unfoldable pub may_be_proof : Message → Bool
may_be_proof m =
    is_inbound m.direction
    && is_contact m.sender
    && is_proof_media m.message_type (mime_of m.raw_payload)

-- `reviewSlaHours`: 24 unless a positive number is configured.
abbrev pub review_sla_hours : Option ℕ → ℕ
review_sla_hours none = 24
review_sla_hours (some n) = if n == 0 then 24 else n

unfoldable pub receive_proof : ℕ → TransferPayment → TransferPayment
receive_proof now t = record t {
  status = TransferStatus.proof_received;
  proof_received_at = some now;
}

unfoldable pub verification_task : ℕ → ℕ → Option ℕ → TransferPayment → Message → Task
verification_task id now sla payment message = record {
  id = id;
  lead_id = some payment.lead_id;
  conversation_id = some message.conversation_id;
  assigned_user_id = none;
  task_type = TaskType.payment_verification;
  status = TaskStatus.pending;
  due_at = some (now + review_sla_hours sla * 3_600_000);
  completed_at = none;
  transfer_payment_id = some payment.id;
  latest_message_id = some message.id;
  action_status = none;
  source_message_ids = [];
  created_at = now;
}

module _ (px : Prisma) where
  open px use {Table, find_unique, find_first, create, update, update_many}

  abbrev pub is_open_for : Message → TransferPayment → Bool
  is_open_for m t =
      t.conversation_id == m.conversation_id
      && t.contact_id == m.contact_id
      && is_open_transfer t.status

  -- The first proof moves the payment and its lead to the review.
  unfoldable pub advance_payment : Database px → TransferPayment → ℕ → Database px
  advance_payment db payment now =
      if is_instruction payment.status
      then record db {
        transfers =
            update (λ (t : TransferPayment). t.id == payment.id) (receive_proof now) db.transfers;
        leads =
            update (λ (l : Lead). l.id == payment.lead_id)
              (λ l. record l { stage = LeadStage.payment_review }) db.leads;
      }
      else db

  unfoldable pub open_task :
      Database px → TransferPayment → Message → Option ℕ → ℕ → ℕ → Database px
  open_task db payment message sla task_id now =
      elim (find_first [] (task_of is_live_task message.conversation_id) db.tasks) [
        | none ↦ record db {
          tasks = create (verification_task task_id now sla payment message) db.tasks;
        }
        | some task ↦ record db {
          tasks =
              update (λ (t : Task). t.id == task.id)
                (λ t. record t {
                  transfer_payment_id = some payment.id;
                  latest_message_id = some message.id;
                })
                db.tasks;
        }
      ]

  -- The writes for a message that is not recorded yet.
  unfoldable pub write_proof :
      Database px → TransferPayment → Message → Option ℕ → ℕ → ℕ → Database px
  unfolding advance_payment open_task receive_proof verification_task
  write_proof db payment message sla task_id now =
      let recorded : Database px = record db {
        proofs =
            create
              (record {
                message_id = message.id;
                transfer_payment_id = payment.id;
                received_at = now;
              })
              db.proofs;
      } in
      let tasked : Database px =
        open_task (advance_payment recorded payment now) payment message sla task_id now in
      record tasked {
        audit_logs =
            create
              (record {
                user_id = none;
                action = Action.transfer_proof_received;
                entity_id = payment.id;
              })
              tasked.audit_logs;
      }

  -- The transaction; `none` where the contact has no open payment in the conversation.
  unfoldable pub record_proof :
      Database px → Message → Option ℕ → (task_id now : ℕ) → Option (Database px)
  unfolding write_proof
  record_proof db message sla task_id now =
      elim (find_first (desc (λ (t : TransferPayment). t.created_at) ∷ []) (is_open_for message)
        db.transfers) [
          | none ↦ none
          | some payment ↦
              elim (find_unique (λ (p : ProofMessage). p.message_id == message.id) db.proofs) [
                | some p ↦ some db
                | none ↦ some (write_proof db payment message sla task_id now)
              ]
        ]

  abbrev reply_of : Outcome → Reply
  reply_of (returned r) = answers true
  reply_of (rethrown e) = throws

  abbrev sent_reply : Run px → Database px × Reply
  sent_reply run = (run.db, reply_of run.outcome)

  proof_notice : (ℕ → Round px) → Database px → Message → ℕ → Database px × Reply
  unfolding send_notice
  proof_notice rounds db message delivery_id = sent_reply (
      send_notice px rounds db
        (notice message.conversation_id message.contact_id message.id 0
          "Recibimos tu comprobante. Nuestro equipo lo validará y se comunicará contigo apenas esté confirmado.")
        delivery_id)

  detect_in : (ℕ → Round px) → Database px → Message → Option ℕ → ℕ → ℕ → ℕ → Database px × Reply
  unfolding record_proof proof_notice may_be_proof
  detect_in rounds db message sla task_id now delivery_id =
      if may_be_proof message
      then elim (record_proof db message sla task_id now) [
        | none ↦ (db, answers false)
        | some db' ↦ proof_notice rounds db' message delivery_id
      ]
      else (db, answers false)

  unfoldable pub detect_proof :
      (enabled : Bool)
      → Option ℕ
      → (ℕ → Round px)
      → Database px
      → (message_id task_id now delivery_id : ℕ) → Database px × Reply
  unfolding detect_in
  detect_proof enabled sla rounds db message_id task_id now delivery_id =
      if not enabled
      then (db, answers false)
      else elim (find_unique (λ (m : Message). m.id == message_id) db.messages) [
        | none ↦ (db, answers false)
        | some message ↦ detect_in rounds db message sla task_id now delivery_id
      ]

  unfoldable pub status_content : TransferStatus → String
  status_content TransferStatus.approved = "Tu transferencia fue confirmada por nuestro equipo."
  status_content TransferStatus.rejected =
      "El comprobante no fue aprobado. Un asesor puede ayudarte a revisar el motivo y los siguientes pasos."
  status_content TransferStatus.proof_received =
      "Recibimos tu comprobante y sigue en validación. Te confirmaremos cuando el equipo termine la revisión."
  status_content TransferStatus.under_review =
      "Recibimos tu comprobante y sigue en validación. Te confirmaremos cuando el equipo termine la revisión."
  status_content TransferStatus.instructions_prepared =
      "Estamos preparando los datos de transferencia. Te avisaremos por este chat cuando estén disponibles."
  status_content _ =
      "Todavía no tenemos un comprobante registrado para esta transferencia. Puedes enviarlo por este chat."

  -- `asks` says that the text names a payment and asks for its state.
  unfoldable pub maybe_reply_with_status :
      (enabled asks : Bool) → (ℕ → Round px) → Database px → Request → ℕ → Database px × Reply
  unfolding send_notice status_content
  maybe_reply_with_status enabled asks rounds db request delivery_id =
      if not (enabled && asks)
      then (db, answers false)
      else elim (find_first (desc (λ (t : TransferPayment). t.created_at) ∷ [])
          (λ (t : TransferPayment).
            t.conversation_id == request.conversation_id && t.contact_id == request.contact_id)
          db.transfers) [
            | none ↦ (db, answers false)
            | some payment ↦ sent_reply (
                send_notice px rounds db
                  (notice request.conversation_id request.contact_id request.source_message_id 0
                    (status_content payment.status))
                  delivery_id)
          ]
