-- ===== src/Delivery/Accounting.antt =====
-- What a batch reports, against what it handed to Meta.
use hermes_n8n.Prelude.{
  refl, false, ◌⊎◌, ℕ, suc, ◌+◌, ◌≤◌, ◌≡◌, true, Option, none, some, List, [], ◌∷◌, arith,
  Bool-cases, inl, inr, count, is_none, length, length-append,
}
use hermes_n8n.Prisma.{Prisma}
use hermes_n8n.Schema.{Database}
use hermes_n8n.Schema.Delivery.{Delivery, is_confirmed, is_terminal}
use hermes_n8n.Delivery.Claim.{ClaimResult, claimed, refused, claim}
use hermes_n8n.Delivery.Settle.{
  DispatchError, other, confirm, is_rate_limited, handle_dispatch_failure,
}
use hermes_n8n.Delivery.Batch.{
  Round, Run, Attempt, advances, stops, Outcome, returned, rethrown, Sent, Response, accepted,
  thrown, fail, settle, send_claimed, after_claim, attempt, is_leased, sends_first,
  deliver_operations, deliver_from, deliver_prepared_batch, operations_of,
}

-- `n` messages were handed to Meta after `c` parts were known to be confirmed.
abbrev pub Accounts : ℕ → ℕ → Outcome → Type 0
Accounts c n (returned r) =
    (r.confirmed ≤ c + n)
    × (c + n ≤ r.confirmed + 1)
    × ((r.confirmed ≡ c + n) ⊎ (is_none r.reason_code ≡ false))
Accounts c n (rethrown error) = (is_rate_limited error ≡ true) × (1 ≤ n)

Accounts-add : (c m n : ℕ) (o : Outcome) → Accounts (c + m) n o → Accounts c (m + n) o
Accounts-add c m n (returned r) (h, k, l) = (omega arith, omega arith, ground (arith, l))
Accounts-add c m n (rethrown error) (h, k) = (h, omega arith)

module _ (px : Prisma) where
  abbrev AttemptAccounts : ℕ → Attempt px → Type 0
  AttemptAccounts c (advances db' confirmed sent) = confirmed ≡ c + length sent
  AttemptAccounts c (stops db' outcome sent) = Accounts c (length sent) outcome

  module _ (round : Round px) where
    fail-Accounts :
        (db : Database px) (operation : Delivery) (token c : ℕ) (error : DispatchError) (s : Sent)
        → AttemptAccounts c (fail px round db operation token c error (s ∷ []))
    unfolding fail handle_dispatch_failure
    fail-Accounts db operation token c error s = elim (Bool-cases (is_rate_limited error)) [
      | inl r ↦ rw r (r, omega arith)
      | inr n ↦ rw n (omega arith, omega arith, inr refl)
    ]

    settle-Accounts :
        (db : Database px) (operation : Delivery) (token c : ℕ) (response : Response) (s : Sent)
        → AttemptAccounts c (settle px round db operation token c response (s ∷ []))
    unfolding settle
    settle-Accounts db operation token c (thrown error) s =
        fail-Accounts db operation token c error s
    settle-Accounts db operation token c (accepted wamid) s =
        go (confirm px db operation token wamid round.settle_at round.message_id)
      where
        go :
            (o : Option (Database px))
            → AttemptAccounts c (elim o [
              | some db' ↦ advances db' (suc c) (s ∷ [])
              | none ↦ fail px round db operation token c other (s ∷ [])
            ])
        go none = fail-Accounts db operation token c other s
        go (some db') = omega arith

    after_claim-Accounts :
        (c : ℕ) (r : Database px × ClaimResult) → AttemptAccounts c (after_claim px round c r)
    unfolding after_claim send_claimed
    after_claim-Accounts c (db, claimed operation wa_id token) =
        settle-Accounts (round.before_settle db) operation token c _ _
    after_claim-Accounts c (db, refused terminal reason) = (omega arith, omega arith, inr refl)

    attempt-Accounts :
        (db : Database px) (operation : Delivery) (c : ℕ)
        → AttemptAccounts c (attempt px round db operation c)
    unfolding attempt
    attempt-Accounts db operation c = elim (Bool-cases (is_confirmed operation.status)) [
      | inl t ↦ rw t (omega arith)
      | inr n ↦ elim (Bool-cases (is_terminal operation.status)) [
        | inl t ↦ rw (n, t) (omega arith, omega arith, inr refl)
        | inr m ↦ elim (Bool-cases (is_leased round.test_at operation)) [
          | inl l ↦ rw (n, m, l) (omega arith, omega arith, inr refl)
          | inr k ↦
              rw (n, m, k)
                (after_claim-Accounts c
                  (claim px (round.before_claim db) operation round.claim_at round.claim_token))
        ]
      ]
    ]

  module _ (rounds : ℕ → Round px) where
    abbrev RunAccounts : ℕ → Run px → Type 0
    RunAccounts c run = Accounts c (length run.sent) run.outcome

    sends_first-Accounts :
        (c c' : ℕ) (sent : List Sent) (run : Run px)
        → c' ≡ c + length sent
        → RunAccounts c' run
        → RunAccounts c (sends_first px sent run)
    sends_first-Accounts c c' sent run e h =
        rw (length-append sent run.sent)
          (Accounts-add c (length sent) (length run.sent) run.outcome (rw e at h))

    deliver_from-Accounts :
        (operations : List Delivery) (k : ℕ) (db : Database px) (c : ℕ)
        → RunAccounts c (deliver_from px rounds k db c operations)
    unfolding deliver_from
    deliver_from-Accounts [] k db c = (omega arith, omega arith, inl (omega arith))
    deliver_from-Accounts (operation ∷ operations) k db c =
        go (attempt px (rounds k) db operation c) (attempt-Accounts (rounds k) db operation c)
          (λ db' c'. deliver_from-Accounts operations (suc k) db' c')
      where
        go :
            (t : Attempt px)
            → AttemptAccounts c t
            → ((db' : Database px) (c' : ℕ)
                → RunAccounts c' (deliver_from px rounds (suc k) db' c' operations))
            → RunAccounts c (elim t [
              | advances db' confirmed' sent ↦
                  sends_first px sent (deliver_from px rounds (suc k) db' confirmed' operations)
              | stops db' outcome sent ↦ record { db = db'; outcome = outcome; sent = sent }
            ])
        go (advances db' c' sent) h ih =
            sends_first-Accounts c c' sent (deliver_from px rounds (suc k) db' c' operations) h
              (ih db' c')
        go (stops db' outcome sent) h ih = h

    -- A batch counts as confirmed the parts that were confirmed before, and every message that it
    -- handed to Meta but at most the last one; it counts them all if it ends with no reason code.
    -- An exception leaves it only for a rate limit of Meta, after an attempt to send.
    pub deliver_prepared_batch-Accounts :
        (db : Database px) (source_message_id : ℕ)
        → let run = deliver_prepared_batch px rounds db source_message_id in
          Accounts
            (count
              (λ (r : Delivery). is_confirmed r.status)
              (operations_of px db source_message_id))
            (length run.sent)
            run.outcome
    unfolding deliver_prepared_batch deliver_operations
    deliver_prepared_batch-Accounts db source_message_id =
        go (operations_of px db source_message_id)
      where
        go :
            (ops : List Delivery)
            → RunAccounts
                (count (λ (r : Delivery). is_confirmed r.status) ops)
                (deliver_operations px rounds db ops)
        go [] = (omega arith, omega arith, inl (omega arith))
        go (d ∷ ds) = deliver_from-Accounts (d ∷ ds) 0 db _
