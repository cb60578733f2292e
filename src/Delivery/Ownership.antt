-- ===== src/Delivery/Ownership.antt =====
-- Claims of automated-delivery.service.ts: what one finds and leaves, and who is refused then.
use hermes_n8n.Prelude.{
  find-some, find-map_where, All-member, All, ==_refl, ◌∙◌, refl, false, some, ℕ, ◌≡◌, inl, inr,
  true, Option, none, arith, ◌==◌, find, Bool-cases, Option-cases,
}
use hermes_n8n.Prisma.{Prisma}
use hermes_n8n.Schema.{Database}
use hermes_n8n.Schema.Delivery.{Reason, DeliveryStatus, Delivery, is_prepared}
use hermes_n8n.Delivery.Claim.{
  dispatch, find_delivery, reason_or, refused, claim, is_claimable, claimed, claim_current,
  dispatch_row, suppress_row, reason_now,
}
use hermes_n8n.Delivery.Lifecycle.{IsWellFormed}

module _ (px : Prisma) where
  open px use {rows, find_unique_rows, update_many_rows, update_many_count}

  -- The row with an identifier, as the table holds it.
  abbrev pub row_of : Database px → ℕ → Option Delivery
  row_of db id = find (λ (d : Delivery). d.id == id) (rows db.deliveries)

  claim_current-claimed :
      (db db' : Database px) (d current : Delivery) (now token wa_id token' : ℕ)
      → claim_current px db d now token ≡ (db', claimed current wa_id token')
      → (current ≡ d)
        × (token' ≡ token)
        × (is_prepared d.status ≡ true)
        × (reason_now px db d now ≡ none)
        × (db' ≡ (dispatch_row px db d now token).0)
  unfolding claim_current suppress_row dispatch_row
  claim_current-claimed db db' d current now token wa_id token' h =
      elim (Bool-cases (is_prepared d.status)) [
        | inr n ↦ absurd (ground arith)
        | inl p ↦ elim (Option-cases (reason_now px db d now)) [
          | inr (reason, e) ↦ absurd (ground arith)
          | inl e ↦ (ground arith, ground arith, p, e, ground arith)
        ]
      ]

  found_row :
      (db : Database px) (id : ℕ) (d : Delivery)
      → find_delivery px db id ≡ some d
      → row_of db id ≡ some d
  found_row db id d e =
      ground (arith, find_unique_rows (λ (a : Delivery). a.id == id) db.deliveries)

  found-IsWellFormed :
      (db : Database px) (id : ℕ) (d : Delivery)
      → All IsWellFormed (rows db.deliveries)
      → row_of db id ≡ some d
      → (d.id == id) ≡ true × IsWellFormed d
  found-IsWellFormed db id d w e =
      let m = find-some (λ (a : Delivery). a.id == id) (rows db.deliveries) d e in
      (m.0, All-member IsWellFormed (rows db.deliveries) d w m.1)

  dispatch_row-row :
      (db : Database px) (id : ℕ) (d : Delivery) (now token : ℕ)
      → All IsWellFormed (rows db.deliveries)
      → is_prepared d.status ≡ true
      → row_of db id ≡ some d
      → row_of (dispatch_row px db d now token).0 id ≡ some (dispatch now token d)
  unfolding dispatch_row dispatch
  dispatch_row-row db id d now token w p e =
      let (same, f) = found-IsWellFormed db id d w e in
      let claimable : is_claimable d.id d ≡ true = ground (arith, f.token, ==_refl d.id) in
      rw (update_many_rows (is_claimable d.id) (dispatch now token) db.deliveries) (
        find-map_where (λ a. a.id == id) (is_claimable d.id) (dispatch now token) (λ a. refl)
          (rows db.deliveries) d e
        ∙ (rw claimable))

  -- What a claim that succeeds has found, and the row that it leaves.
  pub claim_found :
      (db db' : Database px) (operation current : Delivery) (now token wa_id token' : ℕ)
      → All IsWellFormed (rows db.deliveries)
      → claim px db operation now token ≡ (db', claimed current wa_id token')
      → (row_of db operation.id ≡ some current)
        × (current.status ≡ DeliveryStatus.prepared)
        × (reason_now px db current now ≡ none)
        × (token' ≡ token)
        × (row_of db' operation.id ≡ some (dispatch now token current))
  unfolding claim
  claim_found db db' operation current now token wa_id token' w h =
      elim (Option-cases (find_delivery px db operation.id)) [
        | inl e ↦ absurd (ground arith)
        | inr (d, e) ↦
            let c = claim_current-claimed db db' d current now token wa_id token' (ground arith) in
            let found = found_row db operation.id d e in
            (
              rw c.0 found,
              ground arith,
              rw c.0 c.3,
              c.1,
              rw (c.4, c.0) (dispatch_row-row db operation.id d now token w c.2 found),
            )
      ]

  dispatched_refuses :
      (db : Database px) (operation d : Delivery) (now token : ℕ)
      → row_of db operation.id ≡ some d
      → d.status ≡ DeliveryStatus.dispatching
      → claim px db operation now token
        ≡ (db, refused false (reason_or d.reason_code Reason.delivery_in_progress))
  unfolding claim claim_current
  dispatched_refuses db operation d now token e s =
      ground (arith, find_unique_rows (λ (a : Delivery). a.id == operation.id) db.deliveries)

  -- On a ledger of well-formed rows a claim is exclusive: in the database that it leaves, every
  -- other claim of the row, at whatever time, is refused as not terminal, with the reason that the
  -- row had or else as being in progress, and changes nothing.
  pub claim_exclusive :
      (db db' : Database px) (operation current : Delivery) (now token wa_id token' : ℕ)
      → All IsWellFormed (rows db.deliveries)
      → claim px db operation now token ≡ (db', claimed current wa_id token')
      → (later another : ℕ)
      → claim px db' operation later another
        ≡ (db', refused false (reason_or current.reason_code Reason.delivery_in_progress))
  unfolding dispatch
  claim_exclusive db db' operation current now token wa_id token' w h later another =
      let c = claim_found db db' operation current now token wa_id token' w h in
      dispatched_refuses db' operation (dispatch now token current) later another c.4 refl
