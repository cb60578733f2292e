-- ===== src/Payments/Recording.antt =====
-- `detectProof` of hermes-backend/src/payments/payments.service.ts met twice by one message.
use hermes_n8n.Prelude.{
  find-Member, ℕ, ◌≡◌, refl, sym, ap, subst, ◌∙◌, Bool, true, false, Option, none, some, List, [],
  ◌∷◌, arith, inl, inr, Bool-cases, Option-cases, ◌==◌, find, find-some, find-map_first,
  find-append_none, All-member, Member, ==_refl,
}
use hermes_n8n.Prisma.{Prisma, desc, Order}
use hermes_n8n.Schema.{Database}
use hermes_n8n.Schema.Messaging.{Message}
use hermes_n8n.Schema.Crm.{TransferPayment, ProofMessage, is_instruction}
use hermes_n8n.Payments.Proof.{
  record_proof, write_proof, advance_payment, open_task, receive_proof, is_open_for,
}
use hermes_n8n.Payments.Runs.{UniqueIds, open_task-transfers}

module _ (px : Prisma) where
  open px use {rows, find_unique_rows, update_rows, create_rows, find_first_none, find_first_some}

  abbrev newest : List (Order TransferPayment)
  newest = desc (λ (t : TransferPayment). t.created_at) ∷ []

  -- A table holds an open payment for the message.
  abbrev HoldsOpen : px.Table TransferPayment → Message → Type 0
  HoldsOpen u message =
      (t : TransferPayment) × (is_open_for px message t ≡ true) × Member t (rows u)

  recorded_again :
      (db : Database px) (message : Message) (sla : Option ℕ) (id now : ℕ) (p : ProofMessage)
      → HoldsOpen db.transfers message
      → px.find_unique (λ (p : ProofMessage). p.message_id == message.id) db.proofs ≡ some p
      → record_proof px db message sla id now ≡ some db
  unfolding record_proof
  recorded_again db message sla id now p (t, y, m) f =
      elim (Option-cases (px.find_first newest (is_open_for px message) db.transfers)) [
        | inr (a, e) ↦ rw (e, record_proof) (rw f)
        | inl e ↦
            let off =
              All-member (λ a. is_open_for px message a ≡ false) (rows db.transfers) t
                (find_first_none newest (is_open_for px message) db.transfers e) m in
            absurd (ground (arith, off, y))
      ]

  advance_payment-HoldsOpen :
      (db : Database px) (message : Message) (t : TransferPayment) (now : ℕ)
      → UniqueIds px db
      → is_open_for px message t ≡ true
      → Member t (rows db.transfers)
      → HoldsOpen (advance_payment px db t now).transfers message
  unfolding advance_payment receive_proof
  advance_payment-HoldsOpen db message t now u y m = elim (Bool-cases (is_instruction t.status)) [
    | inr n ↦ rw n (t, y, m)
    | inl k ↦
        let w : TransferPayment → Bool = λ a. a.id == t.id in
        let f = receive_proof now in
        let found = find-Member w (rows db.transfers) t (u t.id) m (==_refl t.id) in
        let kept : find w (rows (px.update w f db.transfers)) ≡ some (f t) =
          ap (find w) (update_rows w f db.transfers)
          ∙ find-map_first w f (λ a. refl) (rows db.transfers) t found in
        rw k
          (f t, ground (arith, y), (find-some w (rows (px.update w f db.transfers)) (f t) kept).1)
  ]

  advance_payment-proofs :
      (db : Database px) (t : TransferPayment) (now : ℕ)
      → (advance_payment px db t now).proofs ≡ db.proofs
  unfolding advance_payment
  advance_payment-proofs db t now = ground arith

  open_task-proofs :
      (db : Database px) (t : TransferPayment) (message : Message) (sla : Option ℕ) (id now : ℕ)
      → (open_task px db t message sla id now).proofs ≡ db.proofs
  unfolding open_task
  open_task-proofs db t message sla id now = ground arith

  write_proof-again :
      (db : Database px) (t : TransferPayment) (message : Message) (sla sla' : Option ℕ)
      (id id' now now' : ℕ)
      → UniqueIds px db
      → is_open_for px message t ≡ true
      → Member t (rows db.transfers)
      → px.find_unique (λ (p : ProofMessage). p.message_id == message.id) db.proofs ≡ none
      → record_proof px (write_proof px db t message sla id now) message sla' id' now'
        ≡ some (write_proof px db t message sla id now)
  unfolding write_proof
  write_proof-again db t message sla sla' id id' now now' u y m f =
      let w : ProofMessage → Bool = λ p. p.message_id == message.id in
      let p : ProofMessage = record {
        message_id = message.id;
        transfer_payment_id = t.id;
        received_at = now;
      } in
      let recorded : Database px = record db { proofs = px.create p db.proofs } in
      let advanced : Database px = advance_payment px recorded t now in
      let here : px.find_unique w (px.create p db.proofs) ≡ some p =
        find_unique_rows w (px.create p db.proofs)
        ∙ ap (find w) (create_rows p db.proofs)
        ∙ find-append_none w (rows db.proofs) p (sym (find_unique_rows w db.proofs) ∙ f)
            (==_refl message.id) in
      recorded_again (write_proof px db t message sla id now) message sla' id' now' p
        (subst (λ u. HoldsOpen u message)
          (sym (open_task-transfers px advanced t message sla id now))
          (advance_payment-HoldsOpen recorded message t now u y m))
        (ap (px.find_unique w)
            (open_task-proofs advanced t message sla id now ∙ advance_payment-proofs recorded t now)
          ∙ here)

  -- A proof is recorded once: where payments have unique identifiers, meeting the same message
  -- again after it was recorded changes nothing, and finds it recorded.
  pub record_proof_once :
      (db db' : Database px) (message : Message) (sla sla' : Option ℕ) (id id' now now' : ℕ)
      → UniqueIds px db
      → record_proof px db message sla id now ≡ some db'
      → record_proof px db' message sla' id' now' ≡ some db'
  unfolding record_proof
  record_proof_once db db' message sla sla' id id' now now' u h =
      elim (Option-cases (px.find_first newest (is_open_for px message) db.transfers)) [
        | inl e ↦ absurd (let k = rw (e, record_proof) at h in ground (arith, k))
        | inr (t, e) ↦
            let (y, m, _) = find_first_some newest (is_open_for px message) db.transfers t e in
            let w : ProofMessage → Bool = λ p. p.message_id == message.id in
            elim (Option-cases (px.find_unique w db.proofs)) [
              | inr (p, f) ↦
                  let k = rw (e, f, record_proof) at h in
                  let same : db ≡ db' = ground (arith, k) in
                  subst (λ d. record_proof px d message sla' id' now' ≡ some d) same
                    (recorded_again db message sla' id' now' p (t, y, m) f)
              | inl f ↦
                  let k = rw (e, f, record_proof) at h in
                  let same : write_proof px db t message sla id now ≡ db' = ground (arith, k) in
                  subst (λ d. record_proof px d message sla' id' now' ≡ some d) same
                    (write_proof-again db t message sla sla' id id' now now' u y m f)
            ]
      ]
