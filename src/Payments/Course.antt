-- ===== src/Payments/Course.antt =====
-- What becomes of each payment over a run of
-- hermes-backend/src/payments/payments.service.ts.
use hermes_n8n.Prelude.{
  Grows, Grows-refl, Grows-append, Grows-trans, ℕ, subst, [], inl, inr, Option-cases,
}
use hermes_n8n.Prisma.{Prisma}
use hermes_n8n.Schema.{Database}
use hermes_n8n.Schema.Crm.{TransferStatus, TransferPayment, Lead, BankAccount}
use hermes_n8n.Payments.Transfer.{Request, new_transfer}
use hermes_n8n.Payments.Instructions.{open_or_create, is_open_in}
use hermes_n8n.Payments.Lifecycle.{
  Reaches-trans, TransferEvolves-trans, TransferEvolves-refl, TransferEvolves,
}
use hermes_n8n.Payments.Steps.{
  Transfers, OkTransfers, reconcile_instruction-Transfers, start_review-Transfers,
  reject_transfer-Transfers,
}
use hermes_n8n.Payments.Approval.{approve_transfer-Transfers}
use hermes_n8n.Payments.Runs.{MayTransfers, record_proof-Transfers, Step, Reach}
use hermes_n8n.Payments.Reach.{IsSound, Reach-IsSound}
use hermes_n8n.Payments.Lifecycle.{Reaches}
use hermes_n8n.Prelude.{Grows-weaken}

-- A payment whose status can be reached from the first one.
abbrev pub IsBegun : TransferPayment → Type 0
IsBegun t = Reaches TransferStatus.instructions_prepared t.status

module _ (px : Prisma) where
  open px use {rows, create_rows}

  -- Each payment takes legal steps, and new payments have begun as prepared ones.
  abbrev pub Course : Database px → Database px → Type 0
  Course db db' = Grows TransferEvolves IsBegun (rows db.transfers) (rows db'.transfers)

  Course-refl : (db : Database px) → Course db db
  Course-refl db = Grows-refl TransferEvolves IsBegun TransferEvolves-refl (rows db.transfers)

  Course-trans : (db db' db'' : Database px) → Course db db' → Course db' db'' → Course db db''
  Course-trans db db' db'' g h =
      Grows-trans TransferEvolves IsBegun TransferEvolves-trans
        (λ a b e n. Reaches-trans n e.reaches) (rows db.transfers) (rows db'.transfers)
        (rows db''.transfers) g h

  of_Transfers : (db db' : Database px) → Transfers px db.transfers db'.transfers → Course db db'
  of_Transfers db db' g =
      Grows-weaken TransferEvolves (λ a. ⊥) IsBegun (λ a n. absurd n) (rows db.transfers)
        (rows db'.transfers) g

  open_or_create-Course :
      (db : Database px) (lead : Lead) (account : BankAccount) (request : Request) (id now : ℕ)
      → Course db (open_or_create px db lead account request id now).0
  unfolding open_or_create new_transfer
  open_or_create-Course db lead account request id now =
      let p = is_open_in px request.conversation_id in
      let t = new_transfer id now lead account request in
      elim (Option-cases (px.find_first [] p db.transfers)) [
        | inr (t, e) ↦ rw (e, open_or_create) (Course-refl db)
        | inl e ↦
            rw (e, open_or_create)
              (rw (create_rows t db.transfers) (
                Grows-append TransferEvolves IsBegun TransferEvolves-refl (rows db.transfers) t
                  Reaches.here))
      ]

  Step-Course : (db db' : Database px) → IsSound px db → Step px db db' → Course db db'
  Step-Course db _ s (Step.creates lead account request id now fresh) =
      open_or_create-Course db lead account request id now
  Step-Course db db' s (Step.reconciles m) =
      of_Transfers db db' (reconcile_instruction-Transfers px db m)
  Step-Course db db' s (Step.proves message sla id now h) =
      of_Transfers db db'
        (subst (MayTransfers px db) h (record_proof-Transfers px db message sla id now s.unique))
  Step-Course db db' s (Step.reviews id user_id now t h) =
      of_Transfers db db'
        (subst (OkTransfers px db) h (start_review-Transfers px db id user_id now))
  Step-Course db db' s (Step.approves send id dto user_id now cid t h) =
      of_Transfers db db'
        (subst (OkTransfers px db) h (approve_transfer-Transfers px send db id dto user_id now cid))
  Step-Course db db' s (Step.rejects id dto user_id now t h) =
      of_Transfers db db'
        (subst (OkTransfers px db) h (reject_transfer-Transfers px db id dto user_id now))

  -- From a database with unique payment identifiers and at most one open payment in each
  -- conversation, over every run of the service each payment takes legal steps only: it keeps its
  -- lead, conversation, amount and currency, a closed payment stays as it was decided, and a
  -- payment that comes new has begun with its instructions prepared.
  pub Reach-Course : (db db' : Database px) → IsSound px db → Reach px db db' → Course db db'
  Reach-Course db db' s Reach.here = Course-refl db
  Reach-Course db db'' s (Reach.next {db' = db'} run step) =
      Course-trans db db' db'' (Reach-Course db db' s run)
        (Step-Course db' db'' (Reach-IsSound px db db' s run) step)
