-- ===== src/Payments/Runs.antt =====
-- The transactions of hermes-backend/src/payments/payments.service.ts as steps on the database,
-- and runs of them.
use hermes_n8n.Prelude.{
  ℕ, ◌≤◌, ◌≡◌, ◌∙◌, Bool, Option, none, some, [], ◌∷◌, arith, inl, inr, Bool-cases, Option-cases,
  count, ◌==◌, find-Member, ==_refl,
}
use hermes_n8n.Prisma.{Prisma, desc}
use hermes_n8n.Schema.{Database}
use hermes_n8n.Schema.Messaging.{Message}
use hermes_n8n.Schema.Crm.{TransferPayment, Lead, BankAccount, ProofMessage, is_instruction}
use hermes_n8n.Outcome.{ok}
use hermes_n8n.Payments.Transfer.{Request}
use hermes_n8n.Payments.Instructions.{open_or_create, reconcile_instruction}
use hermes_n8n.Payments.Review.{
  ApproveTransfer, RejectTransfer, start_review, approve_transfer, reject_transfer,
}
use hermes_n8n.Payments.Proof.{
  record_proof, write_proof, advance_payment, open_task, receive_proof, is_open_for,
}
use hermes_n8n.Payments.Lifecycle.{receive_proof-Evolves}
use hermes_n8n.Payments.Steps.{one_Transfers, Transfers, Transfers-refl}

module _ (px : Prisma) where
  open px use {rows, find_unique_rows, update_rows, create_rows, find_first_none, find_first_some}

  -- The identifiers of payments are a primary key.
  abbrev pub UniqueIds : Database px → Type 0
  UniqueIds db = (id : ℕ) → count (λ (t : TransferPayment). t.id == id) (rows db.transfers) ≤ 1

  advance_payment-Transfers :
      (db : Database px) (payment : TransferPayment) (now : ℕ)
      → px.find_unique (λ (a : TransferPayment). a.id == payment.id) db.transfers ≡ some payment
      → Transfers px db.transfers (advance_payment px db payment now).transfers
  unfolding advance_payment
  advance_payment-Transfers db payment now e = elim (Bool-cases (is_instruction payment.status)) [
    | inr n ↦ rw n (Transfers-refl px db.transfers)
    | inl y ↦ rw y (
        one_Transfers px db.transfers payment.id (receive_proof now) payment e
          (receive_proof-Evolves payment now y))
  ]

  pub open_task-transfers :
      (db : Database px) (payment : TransferPayment) (message : Message) (sla : Option ℕ)
      (id now : ℕ)
      → (open_task px db payment message sla id now).transfers ≡ db.transfers
  unfolding open_task
  open_task-transfers db payment message sla id now = ground arith

  write_proof-Transfers :
      (db : Database px) (payment : TransferPayment) (message : Message) (sla : Option ℕ)
      (id now : ℕ)
      → px.find_unique (λ (a : TransferPayment). a.id == payment.id) db.transfers ≡ some payment
      → Transfers px db.transfers (write_proof px db payment message sla id now).transfers
  unfolding write_proof
  write_proof-Transfers db payment message sla id now e =
      let recorded : Database px = record db {
        proofs =
            px.create
              (record {
                message_id = message.id;
                transfer_payment_id = payment.id;
                received_at = now;
              })
              db.proofs;
      } in
      rw (open_task-transfers (advance_payment px recorded payment now) payment message sla id now)
        (advance_payment-Transfers recorded payment now e)

  abbrev pub MayTransfers : Database px → Option (Database px) → Type 0
  MayTransfers db none = Unit
  MayTransfers db (some db') = Transfers px db.transfers db'.transfers

  pub record_proof-Transfers :
      (db : Database px) (message : Message) (sla : Option ℕ) (id now : ℕ)
      → UniqueIds db
      → MayTransfers db (record_proof px db message sla id now)
  unfolding record_proof
  record_proof-Transfers db message sla id now u =
      let by = desc (λ (t : TransferPayment). t.created_at) ∷ [] in
      elim (Option-cases (px.find_first by (is_open_for px message) db.transfers)) [
        | inl e ↦ rw (e, record_proof) tt
        | inr (t, e) ↦
            elim (Option-cases
              (px.find_unique (λ (p : ProofMessage). p.message_id == message.id) db.proofs)) [
                | inr (p, f) ↦ rw (e, record_proof) (rw f (Transfers-refl px db.transfers))
                | inl f ↦
                    let w : TransferPayment → Bool = λ a. a.id == t.id in
                    let found : px.find_unique w db.transfers ≡ some t =
                      find_unique_rows w db.transfers
                      ∙ find-Member w (rows db.transfers) t (u t.id)
                          (find_first_some by (is_open_for px message) db.transfers t e).1
                          (==_refl t.id) in
                    rw (e, record_proof)
                      (rw f (write_proof-Transfers db t message sla id now found))
              ]
      ]

  -- One transaction of the service. A new payment is given an identifier that is not in use.
  pub data Step (db : Database px) : Database px → Type 0 where
    creates :
        (lead : Lead) (account : BankAccount) (request : Request) (id now : ℕ)
        → count (λ (t : TransferPayment). t.id == id) (rows db.transfers) ≡ 0
        → Step db (open_or_create px db lead account request id now).0
    reconciles : (source_message_id : ℕ) → Step db (reconcile_instruction px db source_message_id)
    proves :
        {db' : Database px} (message : Message) (sla : Option ℕ) (id now : ℕ)
        → record_proof px db message sla id now ≡ some db'
        → Step db db'
    reviews :
        {db' : Database px} (id user_id now : ℕ) (t : TransferPayment)
        → start_review px db id user_id now ≡ ok (db', t)
        → Step db db'
    approves :
        {db' : Database px} (send : Bool) (id : ℕ) (dto : ApproveTransfer) (user_id now cid : ℕ)
        (t : TransferPayment)
        → approve_transfer px send db id dto user_id now cid ≡ ok (db', t)
        → Step db db'
    rejects :
        {db' : Database px} (id : ℕ) (dto : RejectTransfer) (user_id now : ℕ) (t : TransferPayment)
        → reject_transfer px db id dto user_id now ≡ ok (db', t)
        → Step db db'

  pub data Reach (db : Database px) : Database px → Type 0 where
    here : Reach db db
    next : {db' db'' : Database px} → Reach db db' → Step db' db'' → Reach db db''
