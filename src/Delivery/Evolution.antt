-- ===== src/Delivery/Evolution.antt =====
-- How the operations of hermes-backend/src/automated-deliveries/automated-delivery.service.ts
-- change the table of deliveries, as a relation between the tables before and after.
use hermes_n8n.Prelude.{
  ℕ, ◌≡◌, refl, Bool, true, Option, none, some, List, [], ◌∷◌, arith, Bool-cases, Option-cases, inl,
  inr, Grows, Grows-refl, Grows-append, Grows-map_where, Grows-map_first, Grows-trans, ◌==◌, ◌&&◌,
  holds,
}
use hermes_n8n.Prisma.{Prisma}
use hermes_n8n.Schema.{Database}
use hermes_n8n.Schema.Delivery.{same_key, Delivery, Reason, is_prepared, is_dispatching}
use hermes_n8n.Delivery.Claim.{
  find_delivery, claim, claim_current, suppress_row, dispatch_row, reason_now, is_claimable,
  suppress, dispatch,
}
use hermes_n8n.Delivery.Settle.{
  DispatchError, PrepareBatch, Part, key_of, is_rate_limited, is_rejection, failure_reason,
  owns_claim, confirm_with, fail_with, mark_ambiguous, is_expired, new_delivery, confirm,
  handle_dispatch_failure, recover_expired_claims, prepare_batch, prepare_parts, upsert_part,
  number_parts,
}
use hermes_n8n.Delivery.Lifecycle.{
  Evolves, Evolves-refl, Evolves-trans, IsWellFormed, suppress-Evolves, dispatch-Evolves,
  status_dispatching, confirm_with-Evolves, return_to_prepared-Evolves, reject_with-Evolves,
  mark_ambiguous-Evolves,
}

fail_with-Evolves :
    (a : Delivery) (now : ℕ) (error : DispatchError)
    → is_dispatching a.status ≡ true
    → Evolves a (fail_with now error a)
unfolding fail_with
fail_with-Evolves a now error h =
    let e = status_dispatching a.status h in
    elim (Bool-cases (is_rate_limited error)) [
      | inl r ↦ rw r (return_to_prepared-Evolves a e (failure_reason error))
      | inr n ↦ elim (Bool-cases (is_rejection error)) [
        | inl r ↦ rw (n, r) (reject_with-Evolves a e now (failure_reason error))
        | inr m ↦ rw (n, m) (mark_ambiguous-Evolves a e now (failure_reason error))
      ]
    ]

module _ (px : Prisma) where
  open px use {rows, find_unique_rows, update_rows, update_many_rows, create_rows}

  -- The ledger after some operations, against the ledger before.
  abbrev pub Evolution : Database px → Database px → Type 0
  Evolution db db' = Grows Evolves IsWellFormed (rows db.deliveries) (rows db'.deliveries)

  pub Evolution-refl : (db : Database px) → Evolution db db
  Evolution-refl db = Grows-refl Evolves IsWellFormed Evolves-refl (rows db.deliveries)

  pub Evolution-trans : (a b c : Database px) → Evolution a b → Evolution b c → Evolution a c
  Evolution-trans a b c g h =
      Grows-trans Evolves IsWellFormed Evolves-trans (λ x y e w. e.keeps w) (rows a.deliveries)
        (rows b.deliveries) (rows c.deliveries) g h

  many_Evolution :
      (db : Database px) (w : Delivery → Bool) (f : Delivery → Delivery)
      → ((a : Delivery) → w a ≡ true → Evolves a (f a))
      → Evolution db (record db { deliveries = (px.update_many w f db.deliveries).0 })
  many_Evolution db w f step =
      rw (update_many_rows w f db.deliveries)
        (Grows-map_where Evolves IsWellFormed Evolves-refl w f step (rows db.deliveries))

  claim_current-Evolution :
      (db : Database px) (current : Delivery) (now token : ℕ)
      → Evolution db (claim_current px db current now token).0
  unfolding claim_current suppress_row dispatch_row
  claim_current-Evolution db current now token = elim (Bool-cases (is_prepared current.status)) [
    | inr n ↦ rw n (Evolution-refl db)
    | inl p ↦ elim (Option-cases (reason_now px db current now)) [
      | inl e ↦
          rw (p, e)
            (many_Evolution db (is_claimable current.id) (dispatch now token)
              (λ a h. dispatch-Evolves a now token (ground arith)))
      | inr (reason, e) ↦
          rw (p, e)
            (many_Evolution db (is_claimable current.id) (suppress now reason)
              (λ a h. suppress-Evolves a now reason (ground arith)))
    ]
  ]

  pub claim-Evolution :
      (db : Database px) (operation : Delivery) (now token : ℕ)
      → Evolution db (claim px db operation now token).0
  unfolding claim
  claim-Evolution db operation now token = elim (Option-cases (find_delivery px db operation.id)) [
    | inl e ↦ rw (e, claim) (Evolution-refl db)
    | inr (current, e) ↦ rw (e, claim) (claim_current-Evolution db current now token)
  ]

  pub handle_dispatch_failure-Evolution :
      (db : Database px) (operation : Delivery) (token : ℕ) (error : DispatchError) (now : ℕ)
      → Evolution db (handle_dispatch_failure px db operation token error now).0
  unfolding handle_dispatch_failure
  handle_dispatch_failure-Evolution db operation token error now =
      many_Evolution db (owns_claim operation.id token) (fail_with now error)
        (λ a h. fail_with-Evolves a now error (ground arith))

  pub recover_expired_claims-Evolution :
      (db : Database px) (now : ℕ) → Evolution db (recover_expired_claims px db now).0
  unfolding recover_expired_claims
  recover_expired_claims-Evolution db now =
      many_Evolution db (is_expired now) (mark_ambiguous now Reason.claim_expired) (λ a h.
        mark_ambiguous-Evolves a (status_dispatching a.status (ground arith)) now
          Reason.claim_expired)

  -- A transaction that is rolled back leaves the ledger as it was.
  abbrev pub EvolvesTo : Database px → Option (Database px) → Type 0
  EvolvesTo db none = Unit
  EvolvesTo db (some db') = Evolution db db'

  confirm_row-Evolution :
      (db : Database px) (operation current : Delivery) (now message_id wamid : ℕ)
      → find_delivery px db operation.id ≡ some current
      → is_dispatching current.status ≡ true
      → Grows Evolves IsWellFormed (rows db.deliveries) (
          rows (
            px.update
              (λ (d : Delivery). d.id == operation.id)
              (confirm_with now message_id wamid)
              db.deliveries))
  confirm_row-Evolution db operation current now message_id wamid e d =
      let w : Delivery → Bool = λ a. a.id == operation.id in
      rw (update_rows w (confirm_with now message_id wamid) db.deliveries) (
        Grows-map_first Evolves IsWellFormed Evolves-refl w (confirm_with now message_id wamid)
          (rows db.deliveries)
          λ a f.
            let same : current ≡ a = ground (arith, find_unique_rows w db.deliveries) in
            confirm_with-Evolves a (status_dispatching a.status (rw same at d)) now message_id
              wamid)

  pub confirm-Evolution :
      (db : Database px) (operation : Delivery) (token wamid now message_id : ℕ)
      → EvolvesTo db (confirm px db operation token wamid now message_id)
  unfolding confirm
  confirm-Evolution db operation token wamid now message_id =
      elim (Option-cases (find_delivery px db operation.id)) [
        | inl e ↦ rw (e, confirm) tt
        | inr (current, e) ↦
            elim (Bool-cases (is_dispatching current.status && holds current.claim_token token)) [
              | inr n ↦ rw (e, confirm) (rw n tt)
              | inl y ↦
                  rw (e, confirm)
                    (rw y (
                      confirm_row-Evolution db operation current now message_id wamid e
                        (ground arith)))
            ]
      ]

  new_delivery-IsWellFormed :
      (id : ℕ) (input : PrepareBatch) (part : Part) → IsWellFormed (new_delivery id input part)
  unfolding new_delivery
  new_delivery-IsWellFormed id input part = record {
    token = refl;
    lease = refl;
    receipt = refl;
    message = refl;
  }

  upsert_part-Evolution :
      (input : PrepareBatch) (db : Database px) (id : ℕ) (part : Part)
      → Evolution db (upsert_part px input db (id, part))
  unfolding upsert_part
  upsert_part-Evolution input db id part =
      elim (Option-cases (
        px.find_unique (λ (d : Delivery). same_key d.operation_key (key_of input part))
          db.deliveries)) [
            | inr (d, e) ↦ rw (e, upsert_part) (Evolution-refl db)
            | inl e ↦
                rw (e, upsert_part)
                  (rw (create_rows (new_delivery id input part) db.deliveries) (
                    Grows-append Evolves IsWellFormed Evolves-refl (rows db.deliveries)
                      (new_delivery id input part) (new_delivery-IsWellFormed id input part)))
          ]

  prepare_parts-Evolution :
      (input : PrepareBatch) (ps : List (ℕ × Part)) (db : Database px)
      → Evolution db (prepare_parts px input ps db)
  unfolding prepare_parts
  prepare_parts-Evolution input [] db = Evolution-refl db
  prepare_parts-Evolution input ((id, part) ∷ ps) db =
      let next : Database px = upsert_part px input db (id, part) in
      Evolution-trans db next (prepare_parts px input ps next)
        (upsert_part-Evolution input db id part) (prepare_parts-Evolution input ps next)

  pub prepare_batch-Evolution :
      (db : Database px) (input : PrepareBatch) (id : ℕ)
      → Evolution db (prepare_batch px db input id)
  unfolding prepare_batch
  prepare_batch-Evolution db input id =
      prepare_parts-Evolution input (number_parts px id input.parts) db
