-- ===== src/Payments/Reach.antt =====
-- The invariant of the table of payments over runs of
-- hermes-backend/src/payments/payments.service.ts.
use hermes_n8n.Prelude.{
  ==_true, ℕ, ◌+◌, ◌≤◌, ◌≡◌, ap, subst, ◌∙◌, Bool, true, none, [], ◌∷◌, arith, inl, inr, Bool-cases,
  Option-cases, count-Changes, count-zero, count, count-append, ◌==◌,
}
use hermes_n8n.Prisma.{Prisma}
use hermes_n8n.Schema.{Database}
use hermes_n8n.Schema.Crm.{TransferPayment, Lead, BankAccount}
use hermes_n8n.Payments.Transfer.{Request, new_transfer}
use hermes_n8n.Payments.Instructions.{open_or_create, is_open_in}
use hermes_n8n.Payments.Lifecycle.{TransferEvolves}
use hermes_n8n.Payments.Steps.{
  Transfers, OkTransfers, reconcile_instruction-Transfers, start_review-Transfers,
  reject_transfer-Transfers,
}
use hermes_n8n.Payments.Approval.{approve_transfer-Transfers}
use hermes_n8n.Payments.Runs.{UniqueIds, MayTransfers, record_proof-Transfers, Step, Reach}

module _ (px : Prisma) where
  open px use {rows, find_unique_rows, update_rows, create_rows, find_first_none, find_first_some}

  -- At most one payment of a conversation is open.
  abbrev pub OneOpen : Database px → Type 0
  OneOpen db = (conversation_id : ℕ) → count (is_open_in px conversation_id) (rows db.transfers) ≤ 1

  -- The invariant of the table of payments.
  pub record IsSound (db : Database px) : Type 0 where
    pub unique : UniqueIds px db
    pub one_open : OneOpen db

  open_back :
      (c : ℕ) (a b : TransferPayment)
      → TransferEvolves a b
      → is_open_in px c b ≡ true
      → is_open_in px c a ≡ true
  open_back c a b e h = ground (arith, e.closed, e.same_conversation)

  id_back :
      (id : ℕ) (a b : TransferPayment)
      → TransferEvolves a b
      → (b.id == id) ≡ true
      → (a.id == id) ≡ true
  id_back id a b e h = ground (arith, e.same_id)

  Transfers-IsSound :
      (db db' : Database px) → Transfers px db.transfers db'.transfers → IsSound db → IsSound db'
  Transfers-IsSound db db' g s = record {
    unique = λ id. omega (
      arith,
      s.unique id,
      count-Changes TransferEvolves (λ (t : TransferPayment). t.id == id) (id_back id)
          (rows db.transfers) (rows db'.transfers) g,
    );
    one_open = λ c. omega (
      arith,
      s.one_open c,
      count-Changes TransferEvolves (is_open_in px c) (open_back c) (rows db.transfers)
          (rows db'.transfers) g,
    );
  }

  created_counts :
      (db : Database px) (lead : Lead) (account : BankAccount) (request : Request) (id now : ℕ)
      (p : TransferPayment → Bool)
      → px.find_first [] (is_open_in px request.conversation_id) db.transfers ≡ none
      → count p (rows (open_or_create px db lead account request id now).0.transfers)
        ≡ count p (rows db.transfers) + count p (new_transfer id now lead account request ∷ [])
  unfolding open_or_create
  created_counts db lead account request id now p e =
      let t = new_transfer id now lead account request in
      rw (e, open_or_create)
        (ap (count p) (create_rows t db.transfers) ∙ count-append p (rows db.transfers) (t ∷ []))

  open_or_create-IsSound :
      (db : Database px) (lead : Lead) (account : BankAccount) (request : Request) (id now : ℕ)
      → count (λ (t : TransferPayment). t.id == id) (rows db.transfers) ≡ 0
      → IsSound db
      → IsSound (open_or_create px db lead account request id now).0
  unfolding open_or_create new_transfer
  open_or_create-IsSound db lead account request id now fresh s =
      let p = is_open_in px request.conversation_id in
      elim (Option-cases (px.find_first [] p db.transfers)) [
        | inr (t, e) ↦ rw (e, open_or_create) s
        | inl e ↦ record {
          unique = λ k. elim (Bool-cases (id == k)) [
            | inl y ↦
                let none_there : count (λ (t : TransferPayment). t.id == k) (rows db.transfers)
                    ≡ 0 =
                  subst (λ k. count (λ (t : TransferPayment). t.id == k) (rows db.transfers) ≡ 0)
                    (==_true id k y) fresh in
                rw
                  (
                    created_counts db lead account request id now
                        (λ (t : TransferPayment). t.id == k) e,
                    y,
                    none_there,
                  )
                  (omega arith)
            | inr n ↦
                rw
                  (
                    created_counts db lead account request id now
                        (λ (t : TransferPayment). t.id == k) e,
                    n,
                  )
                  (omega (arith, s.unique k))
          ];
          one_open = λ c. elim (Bool-cases (request.conversation_id == c)) [
            | inl y ↦
                let free : count (is_open_in px c) (rows db.transfers) ≡ 0 =
                  subst (λ c. count (is_open_in px c) (rows db.transfers) ≡ 0)
                    (==_true request.conversation_id c y)
                    (count-zero p (rows db.transfers) (find_first_none [] p db.transfers e)) in
                rw (created_counts db lead account request id now (is_open_in px c) e, y, free)
                  (omega arith)
            | inr n ↦
                rw (created_counts db lead account request id now (is_open_in px c) e, n)
                  (omega (arith, s.one_open c))
          ];
        }
      ]

  pub Step-IsSound : (db db' : Database px) → IsSound db → Step px db db' → IsSound db'
  Step-IsSound db _ s (Step.creates lead account request id now fresh) =
      open_or_create-IsSound db lead account request id now fresh s
  Step-IsSound db db' s (Step.reconciles m) =
      Transfers-IsSound db db' (reconcile_instruction-Transfers px db m) s
  Step-IsSound db db' s (Step.proves message sla id now h) =
      Transfers-IsSound db db'
        (subst (MayTransfers px db) h (record_proof-Transfers px db message sla id now s.unique)) s
  Step-IsSound db db' s (Step.reviews id user_id now t h) =
      Transfers-IsSound db db'
        (subst (OkTransfers px db) h (start_review-Transfers px db id user_id now)) s
  Step-IsSound db db' s (Step.approves send id dto user_id now cid t h) =
      Transfers-IsSound db db'
        (subst (OkTransfers px db) h (approve_transfer-Transfers px send db id dto user_id now cid))
        s
  Step-IsSound db db' s (Step.rejects id dto user_id now t h) =
      Transfers-IsSound db db'
        (subst (OkTransfers px db) h (reject_transfer-Transfers px db id dto user_id now)) s

  -- From a database with unique payment identifiers and at most one open payment in each
  -- conversation, every run of the payments service leads to such a database.
  pub Reach-IsSound : (db db' : Database px) → IsSound db → Reach px db db' → IsSound db'
  Reach-IsSound db db' s Reach.here = s
  Reach-IsSound db db'' s (Reach.next {db' = db'} run step) =
      Step-IsSound db' db'' (Reach-IsSound db db' s run) step
