-- ===== src/Delivery/Progress.antt =====
-- A batch run as a whole, whatever other transactions commit between its steps.
use hermes_n8n.Prelude.{ℕ, suc, Option, none, some, List, [], ◌∷◌, Bool-cases, inl, inr}
use hermes_n8n.Prisma.{Prisma}
use hermes_n8n.Schema.{Database}
use hermes_n8n.Schema.Delivery.{Delivery, is_confirmed, is_terminal}
use hermes_n8n.Delivery.Claim.{ClaimResult, claimed, refused, claim}
use hermes_n8n.Delivery.Settle.{
  DispatchError, other, confirm, handle_dispatch_failure, is_rate_limited,
}
use hermes_n8n.Delivery.Batch.{
  Round, Run, Attempt, advances, stops, Sent, Response, accepted, thrown, fail, settle,
  send_claimed, after_claim, attempt, is_leased, sends_first, deliver_operations, deliver_from,
  deliver_prepared_batch, operations_of,
}
use hermes_n8n.Delivery.Evolution.{
  Evolution, Evolution-refl, Evolution-trans, EvolvesTo, claim-Evolution, confirm-Evolution,
  handle_dispatch_failure-Evolution,
}

module _ (px : Prisma) where
  -- What other transactions commit in a round also lets each row evolve along its life.
  pub record IsFair (round : Round px) : Type 0 where
    pub claims : (db : Database px) → Evolution px db (round.before_claim db)
    pub settles : (db : Database px) → Evolution px db (round.before_settle db)

  abbrev AttemptEvolves : Database px → Attempt px → Type 0
  AttemptEvolves db (advances db' confirmed sent) = Evolution px db db'
  AttemptEvolves db (stops db' outcome sent) = Evolution px db db'

  module _ (round : Round px) (fair : IsFair round) where
    fail-Evolves :
        (db : Database px) (operation : Delivery) (token confirmed : ℕ) (error : DispatchError)
        (sent : List Sent)
        → AttemptEvolves db (fail px round db operation token confirmed error sent)
    unfolding fail handle_dispatch_failure
    fail-Evolves db operation token confirmed error sent =
        let e = handle_dispatch_failure-Evolution px db operation token error round.settle_at in
        elim (Bool-cases (is_rate_limited error)) [ inl r ↦ rw r e | inr n ↦ rw n e ]

    settle-Evolves :
        (db : Database px) (operation : Delivery) (token confirmed : ℕ) (response : Response)
        (sent : List Sent)
        → AttemptEvolves db (settle px round db operation token confirmed response sent)
    unfolding settle
    settle-Evolves db operation token confirmed (thrown error) sent =
        fail-Evolves db operation token confirmed error sent
    settle-Evolves db operation token confirmed (accepted wamid) sent =
        go (confirm px db operation token wamid round.settle_at round.message_id)
          (confirm-Evolution px db operation token wamid round.settle_at round.message_id)
      where
        go :
            (o : Option (Database px))
            → EvolvesTo px db o
            → AttemptEvolves db (elim o [
              | some db' ↦ advances db' (suc confirmed) sent
              | none ↦ fail px round db operation token confirmed other sent
            ])
        go none h = fail-Evolves db operation token confirmed other sent
        go (some db') h = h

    AttemptEvolves-trans :
        (a b : Database px) (t : Attempt px)
        → Evolution px a b
        → AttemptEvolves b t
        → AttemptEvolves a t
    AttemptEvolves-trans a b (advances db' confirmed sent) g h = Evolution-trans px a b db' g h
    AttemptEvolves-trans a b (stops db' outcome sent) g h = Evolution-trans px a b db' g h

    after_claim-Evolves :
        (db : Database px) (confirmed : ℕ) (r : Database px × ClaimResult)
        → Evolution px db r.0
        → AttemptEvolves db (after_claim px round confirmed r)
    unfolding after_claim send_claimed
    after_claim-Evolves db confirmed (db', claimed operation wa_id token) h =
        let db'' : Database px = round.before_settle db' in
        AttemptEvolves-trans db db'' _ (Evolution-trans px db db' db'' h (fair.settles db'))
          (settle-Evolves db'' operation token confirmed _ _)
    after_claim-Evolves db confirmed (db', refused terminal reason) h = h

    pub attempt-Evolves :
        (db : Database px) (operation : Delivery) (confirmed : ℕ)
        → AttemptEvolves db (attempt px round db operation confirmed)
    unfolding attempt
    attempt-Evolves db operation confirmed = elim (Bool-cases (is_confirmed operation.status)) [
      | inl c ↦ rw c (Evolution-refl px db)
      | inr n ↦ elim (Bool-cases (is_terminal operation.status)) [
        | inl t ↦ rw (n, t) (Evolution-refl px db)
        | inr m ↦ elim (Bool-cases (is_leased round.test_at operation)) [
          | inl l ↦ rw (n, m, l) (Evolution-refl px db)
          | inr k ↦
              let db' : Database px = round.before_claim db in
              let result = claim px db' operation round.claim_at round.claim_token in
              rw (n, m, k)
                (after_claim-Evolves db confirmed result (
                  Evolution-trans px db db' result.0 (fair.claims db)
                    (claim-Evolution px db' operation round.claim_at round.claim_token)))
        ]
      ]
    ]

  module _ (rounds : ℕ → Round px) (fair : (k : ℕ) → IsFair (rounds k)) where
    deliver_from-Evolution :
        (operations : List Delivery) (k : ℕ) (db : Database px) (confirmed : ℕ)
        → Evolution px db (deliver_from px rounds k db confirmed operations).db
    unfolding deliver_from
    deliver_from-Evolution [] k db confirmed = Evolution-refl px db
    deliver_from-Evolution (operation ∷ operations) k db confirmed =
        go (attempt px (rounds k) db operation confirmed)
          (attempt-Evolves (rounds k) (fair k) db operation confirmed)
          (λ db' c. deliver_from-Evolution operations (suc k) db' c)
      where
        go :
            (t : Attempt px)
            → AttemptEvolves db t
            → ((db' : Database px) (c : ℕ)
                → Evolution px db' (deliver_from px rounds (suc k) db' c operations).db)
            → Evolution px db (
                let run : Run px = elim t [
                  | advances db' confirmed' sent ↦
                      sends_first px sent (deliver_from px rounds (suc k) db' confirmed' operations)
                  | stops db' outcome sent ↦ record { db = db'; outcome = outcome; sent = sent }
                ] in
                run.db)
        go (advances db' c sent) h ih =
            Evolution-trans px db db' (deliver_from px rounds (suc k) db' c operations).db h
              (ih db' c)
        go (stops db' outcome sent) h ih = h

    -- If what other transactions commit between the steps of a batch lets each row of the ledger
    -- evolve along its life, then so does the whole batch: each row takes legal steps only, a
    -- terminal row is not touched again, a row keeps its key and content and loses no attempts,
    -- and well-formed rows stay so.
    pub deliver_prepared_batch-Evolution :
        (db : Database px) (source_message_id : ℕ)
        → Evolution px db (deliver_prepared_batch px rounds db source_message_id).db
    unfolding deliver_prepared_batch deliver_operations
    deliver_prepared_batch-Evolution db source_message_id =
        go (operations_of px db source_message_id)
      where
        go :
            (ops : List Delivery)
            → Evolution px db (let run : Run px = deliver_operations px rounds db ops in run.db)
        go [] = Evolution-refl px db
        go (d ∷ ds) = deliver_from-Evolution (d ∷ ds) 0 db _
