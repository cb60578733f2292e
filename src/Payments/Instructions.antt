-- ===== src/Payments/Instructions.antt =====
-- `maybeSendInstructions` and `reconcileInstruction` of
-- hermes-backend/src/payments/payments.service.ts.
use text.Mathlib.Text.{◌==◌ as str_eq}
use hermes_n8n.Prelude.{
  ℕ, Bool, true, false, not, ◌&&◌, ◌==◌, ltb, Option, none, some, is_some, String, [], ◌∷◌, holds,
  if◌then◌else◌,
}
use hermes_n8n.Prisma.{Prisma, asc, desc}
use hermes_n8n.Schema.{Database}
use hermes_n8n.Schema.Delivery.{Delivery, DeliveryKind, same_kind}
use hermes_n8n.Schema.Crm.{
  Lead, LeadStage, BankAccount, TransferPayment, AuditLog, Action, is_open_transfer,
}
use hermes_n8n.Delivery.Settle.{PrepareBatch, prepare_batch}
use hermes_n8n.Delivery.Batch.{Round, Run, returned, rethrown, deliver_prepared_batch}
use hermes_n8n.Text.{or_text}
use hermes_n8n.Payments.Policy.{Signals, TransferIntentContext, analyze}
use hermes_n8n.Payments.Transfer.{
  Request, is_request_stage, is_approved, is_instructions_prepared, currency_of, amount_of,
  new_transfer, instructions_content, notice, Reply, has_confirmed, lacks_message,
  awaits_instructions, attach_message, mark_sent, answers, throws,
}

module _ (px : Prisma) where
  open px use {Table, find_unique, find_first, count_rows, create, update, update_many}

  -- The active account of a currency with the least priority, the oldest of those.
  unfoldable pub account_for : Database px → String → Option BankAccount
  account_for db currency =
      find_first
        (asc (λ (a : BankAccount). a.priority) ∷ asc (λ (a : BankAccount). a.created_at) ∷ [])
        (λ (a : BankAccount). a.is_active && str_eq a.currency currency) db.bank_accounts

  unfoldable pub lead_for : Database px → Request → Option Lead
  lead_for db request =
      find_first (desc (λ (l : Lead). l.created_at) ∷ [])
        (λ (l : Lead).
          holds l.conversation_id request.conversation_id && l.contact_id == request.contact_id)
        db.leads

  unfoldable pub context_for : Database px → Lead → Option BankAccount → TransferIntentContext
  context_for db lead account = record {
    service = or_text lead.service_requested lead.product_of_interest;
    amount = amount_of lead.proposal_value;
    lead_open = is_request_stage lead.stage;
    has_approved_transfer = ltb 0 (
        count_rows (λ (t : TransferPayment). t.lead_id == lead.id && is_approved t.status)
          db.transfers);
    has_active_account = is_some account;
  }

  abbrev pub is_open_in : ℕ → TransferPayment → Bool
  is_open_in conversation_id t = t.conversation_id == conversation_id && is_open_transfer t.status

  -- The transaction: the open transfer of the conversation, or a new one.
  unfoldable pub open_or_create :
      Database px → Lead → BankAccount → Request → ℕ → ℕ → Database px × TransferPayment
  unfolding new_transfer
  open_or_create db lead account request id now =
      elim (find_first [] (is_open_in request.conversation_id) db.transfers) [
        | some t ↦ (db, t)
        | none ↦
            let t = new_transfer id now lead account request in
            (
              record db {
                transfers = create t db.transfers;
                leads =
                    update (λ (l : Lead). l.id == lead.id)
                      (λ l. record l { stage = LeadStage.payment_pending; score = 100 }) db.leads;
                audit_logs =
                    create
                      (record {
                        user_id = none;
                        action = Action.transfer_instructions_prepared;
                        entity_id = id;
                      })
                      db.audit_logs;
              },
              t,
            )
      ]

  abbrev sent_log : ℕ → AuditLog
  sent_log id = record {
    user_id = none;
    action = Action.transfer_instructions_sent;
    entity_id = id;
  }

  -- The transaction of `reconcileInstruction`, once the message that was sent is known.
  unfoldable pub reconcile_with : Database px → TransferPayment → ℕ → Database px
  reconcile_with db payment message_id =
      let prepared =
        update_many (awaits_instructions payment.id) (mark_sent message_id) db.transfers in
      let others = update_many (lacks_message payment.id) (attach_message message_id) prepared.0 in
      if ltb 0 prepared.1
      then record db {
        transfers = prepared.0;
        audit_logs = create (sent_log payment.id) db.audit_logs;
      }
      else if ltb 0 others.1
      then record db {
        transfers = others.0;
        audit_logs = create (sent_log payment.id) db.audit_logs;
      }
      else record db { transfers = others.0 }

  abbrev outbound_of : Option Delivery → Option ℕ
  outbound_of none = none
  outbound_of (some d) = d.outbound_message_id

  -- The message by which the notice of a source message was sent.
  unfoldable pub notice_message : Database px → ℕ → Option ℕ
  notice_message db source_message_id = outbound_of (
      find_first []
        (λ (d : Delivery).
          d.source_message_id == source_message_id
          && same_kind d.delivery_kind DeliveryKind.system_notice
          && d.part_index == 0)
        db.deliveries)

  unfoldable pub reconcile_payment : Database px → TransferPayment → ℕ → Database px
  unfolding reconcile_with
  reconcile_payment db payment source_message_id =
      if is_some payment.instructions_message_id
      then db
      else elim (notice_message db source_message_id) [
        | none ↦ db
        | some message_id ↦ reconcile_with db payment message_id
      ]

  unfoldable pub reconcile_instruction : Database px → ℕ → Database px
  unfolding reconcile_payment notice_message
  reconcile_instruction db source_message_id =
      elim (find_unique (λ (t : TransferPayment). t.source_message_id == source_message_id)
        db.transfers) [ none ↦ db | some payment ↦ reconcile_payment db payment source_message_id ]

  -- `prepareBatch` and `deliverPreparedBatch` for one notice; `id` names a new row of the ledger.
  unfoldable pub send_notice : (ℕ → Round px) → Database px → PrepareBatch → ℕ → Run px
  unfolding prepare_batch deliver_prepared_batch notice
  send_notice rounds db input id =
      deliver_prepared_batch px rounds (prepare_batch px db input id) input.source_message_id

  after_instructions : ℕ → Run px → Database px × Reply
  unfolding reconcile_instruction
  after_instructions source_message_id run = elim run.outcome [
    | rethrown e ↦ (run.db, throws)
    | returned r ↦ (
      if has_confirmed r then reconcile_instruction run.db source_message_id else run.db,
      answers true,
    )
  ]

  send_instructions :
      (String → Option String)
      → (ℕ → Round px)
      → Database px
      → TransferPayment
      → Request
      → ℕ
      → Database px × Reply
  unfolding send_notice after_instructions instructions_content
  send_instructions decrypt rounds db existing request delivery_id =
      let source =
        if is_instructions_prepared existing.status
        then existing.source_message_id
        else request.source_message_id in
      elim (instructions_content decrypt existing.bank_account_snapshot) [
        | none ↦ (db, throws)
        | some content ↦ after_instructions existing.source_message_id (
            send_notice rounds db
              (notice request.conversation_id request.contact_id source 0 content) delivery_id)
      ]

  instructions_for :
      (String → Option String)
      → (ℕ → Round px)
      → Database px
      → Signals
      → Request
      → Lead
      → Option BankAccount
      → ℕ
      → ℕ
      → ℕ
      → Database px × Reply
  instructions_for decrypt rounds db signals request lead none id now delivery_id =
      (db, answers false)
  instructions_for decrypt rounds db signals request lead (some account) id now delivery_id =
      let (db', existing) = open_or_create db lead account request id now in
      let sent = send_instructions decrypt rounds db' existing request delivery_id in
      if (analyze signals (context_for db lead (some account))).approved
      then sent
      else (db, answers false)

  unfoldable pub maybe_send_instructions :
      (enabled : Bool)
      → (String → Option String)
      → (ℕ → Round px)
      → Database px
      → Signals
      → Request
      → (id now delivery_id : ℕ) → Database px × Reply
  unfolding instructions_for send_instructions open_or_create account_for lead_for context_for
  maybe_send_instructions enabled decrypt rounds db signals request id now delivery_id =
      if not enabled then (db, answers false) else elim (lead_for db request) [
        | none ↦ (db, answers false)
        | some lead ↦
            instructions_for decrypt rounds db signals request lead
              (account_for db (currency_of lead)) id now delivery_id
      ]
