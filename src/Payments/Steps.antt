-- ===== src/Payments/Steps.antt =====
-- The transactions of hermes-backend/src/payments/payments.service.ts as changes of the table of
-- payments.
use hermes_n8n.Prelude.{
  not, ℕ, ◌≡◌, subst, ◌∙◌, Bool, true, some, arith, inl, inr, Bool-cases, Option-cases, is_some,
  Grows, Grows-refl, Grows-trans, Grows-map_where, Grows-map_first, ◌==◌, ltb,
}
use hermes_n8n.Prisma.{Prisma}
use hermes_n8n.Schema.{Database}
use hermes_n8n.Schema.Crm.{TransferPayment, Lead, is_review}
use hermes_n8n.Outcome.{Result, ok, err}
use hermes_n8n.Leads.Won.{record_won_milestone, upsert_conversion, upsert_job, agrees}
use hermes_n8n.Payments.Transfer.{awaits_instructions, lacks_message, mark_sent, attach_message}
use hermes_n8n.Payments.Instructions.{
  notice_message, reconcile_instruction, reconcile_payment, reconcile_with,
}
use hermes_n8n.Payments.Review.{
  RejectTransfer, start_review, reject_transfer, find_transfer, review_row, reject_row,
  is_decidable,
}
use hermes_n8n.Payments.Lifecycle.{
  TransferEvolves, TransferEvolves-refl, TransferEvolves-trans, message-Evolves, sent-Evolves,
  review_row-Evolves, reject_row-Evolves,
}

module _ (px : Prisma) where
  open px use {
    rows, find_unique_rows, update_rows, update_many_rows, update_many_count, create_rows,
  }

  -- Every payment evolves along its life, and no row comes or goes.
  abbrev pub Transfers : px.Table TransferPayment → px.Table TransferPayment → Type 0
  Transfers t u = Grows TransferEvolves (λ a. ⊥) (rows t) (rows u)

  pub Transfers-refl : (t : px.Table TransferPayment) → Transfers t t
  Transfers-refl t = Grows-refl TransferEvolves (λ a. ⊥) TransferEvolves-refl (rows t)

  pub many_Transfers :
      (t : px.Table TransferPayment) (w : TransferPayment → Bool)
      (f : TransferPayment → TransferPayment)
      → ((a : TransferPayment) → w a ≡ true → TransferEvolves a (f a))
      → Transfers t (px.update_many w f t).0
  many_Transfers t w f step =
      rw (update_many_rows w f t)
        (Grows-map_where TransferEvolves (λ a. ⊥) TransferEvolves-refl w f step (rows t))

  -- An update of the row that was read, where its status allows the step.
  pub one_Transfers :
      (t : px.Table TransferPayment) (id : ℕ) (f : TransferPayment → TransferPayment)
      (d : TransferPayment)
      → px.find_unique (λ (a : TransferPayment). a.id == id) t ≡ some d
      → TransferEvolves d (f d)
      → Transfers t (px.update (λ (a : TransferPayment). a.id == id) f t)
  one_Transfers t id f d e step =
      let w : TransferPayment → Bool = λ a. a.id == id in
      rw (update_rows w f t) (
        Grows-map_first TransferEvolves (λ a. ⊥) TransferEvolves-refl w f (rows t)
          λ a g.
            let same : d ≡ a = ground (arith, find_unique_rows w t) in
            subst (λ x. TransferEvolves x (f x)) same step)

  pub trans_Transfers :
      (t u v : px.Table TransferPayment) → Transfers t u → Transfers u v → Transfers t v
  trans_Transfers t u v g h =
      Grows-trans TransferEvolves (λ a. ⊥) TransferEvolves-trans (λ a b e n. n) (rows t) (rows u)
        (rows v) g h

  reconcile_with-Transfers :
      (db : Database px) (payment : TransferPayment) (message_id : ℕ)
      → Transfers db.transfers (reconcile_with px db payment message_id).transfers
  unfolding reconcile_with
  reconcile_with-Transfers db payment message_id =
      let prepared : px.Table TransferPayment × ℕ =
        px.update_many (awaits_instructions payment.id) (mark_sent message_id) db.transfers in
      let others : px.Table TransferPayment × ℕ =
        px.update_many (lacks_message payment.id) (attach_message message_id) prepared.0 in
      let p : Transfers db.transfers prepared.0 =
        many_Transfers db.transfers (awaits_instructions payment.id) (mark_sent message_id)
          (λ a h. sent-Evolves a message_id (ground arith)) in
      let o : Transfers db.transfers others.0 = trans_Transfers db.transfers prepared.0 others.0 p (
        many_Transfers prepared.0 (lacks_message payment.id) (attach_message message_id)
          (λ a h. message-Evolves a message_id)) in
      elim (Bool-cases (ltb 0 prepared.1)) [
        | inl y ↦ rw y p
        | inr n ↦ elim (Bool-cases (ltb 0 others.1)) [ inl y ↦ rw (n, y) o | inr m ↦ rw (n, m) o ]
      ]

  reconcile_payment-Transfers :
      (db : Database px) (payment : TransferPayment) (source_message_id : ℕ)
      → Transfers db.transfers (reconcile_payment px db payment source_message_id).transfers
  unfolding reconcile_payment
  reconcile_payment-Transfers db payment source_message_id =
      elim (Bool-cases (is_some payment.instructions_message_id)) [
        | inl y ↦ rw y (Transfers-refl db.transfers)
        | inr n ↦ elim (Option-cases (notice_message px db source_message_id)) [
          | inl e ↦ rw (n, e) (Transfers-refl db.transfers)
          | inr (m, e) ↦ rw (n, e) (reconcile_with-Transfers db payment m)
        ]
      ]

  pub reconcile_instruction-Transfers :
      (db : Database px) (source_message_id : ℕ)
      → Transfers db.transfers (reconcile_instruction px db source_message_id).transfers
  unfolding reconcile_instruction
  reconcile_instruction-Transfers db source_message_id =
      elim (Option-cases (
        px.find_unique (λ (t : TransferPayment). t.source_message_id == source_message_id)
          db.transfers)) [
            | inl e ↦ rw (e, reconcile_instruction) (Transfers-refl db.transfers)
            | inr (t, e) ↦
                rw (e, reconcile_instruction) (reconcile_payment-Transfers db t source_message_id)
          ]

  -- What a transaction that may throw makes of the payments, if it returns.
  abbrev pub OkTransfers : Database px → Result (Database px × TransferPayment) → Type 0
  OkTransfers db (err e) = Unit
  OkTransfers db (ok (db', t)) = Transfers db.transfers db'.transfers

  pub start_review-Transfers :
      (db : Database px) (id user_id now : ℕ) → OkTransfers db (start_review px db id user_id now)
  unfolding start_review
  start_review-Transfers db id user_id now = elim (Option-cases (find_transfer px db id)) [
    | inl e ↦ rw e tt
    | inr (t, e) ↦ elim (Bool-cases (is_review t.status)) [
      | inr n ↦ rw (e, n) tt
      | inl y ↦
          rw (e, y)
            (one_Transfers db.transfers id (review_row now) t e (review_row-Evolves t y now))
    ]
  ]

  pub reject_transfer-Transfers :
      (db : Database px) (id : ℕ) (dto : RejectTransfer) (user_id now : ℕ)
      → OkTransfers db (reject_transfer px db id dto user_id now)
  unfolding reject_transfer
  reject_transfer-Transfers db id dto user_id now = elim (Option-cases (find_transfer px db id)) [
    | inl e ↦ rw e tt
    | inr (t, e) ↦ elim (Bool-cases (is_decidable px t dto.expected_status)) [
      | inr n ↦ rw (e, n) tt
      | inl y ↦
          rw (e, y)
            (one_Transfers db.transfers id (reject_row now user_id dto) t e
              (reject_row-Evolves t (ground arith) now user_id dto))
    ]
  ]

  -- A successful milestone leaves every table but the conversions and the jobs as it was.
  abbrev pub KeepsTransfers : Database px → Result (Database px) → Type 0
  KeepsTransfers db (err e) = Unit
  KeepsTransfers db (ok won) = (won.transfers ≡ db.transfers) × (won.leads ≡ db.leads)

  upsert_job-transfers :
      (db : Database px) (conversion_id : ℕ) (validate_only : Bool)
      → ((upsert_job px db conversion_id validate_only).transfers ≡ db.transfers)
        × ((upsert_job px db conversion_id validate_only).leads ≡ db.leads)
  unfolding upsert_job
  upsert_job-transfers db conversion_id validate_only = (ground arith, ground arith)

  upsert_conversion-transfers :
      (db : Database px) (lead : Lead) (user_id id now : ℕ)
      → ((upsert_conversion px db lead user_id id now).0.transfers ≡ db.transfers)
        × ((upsert_conversion px db lead user_id id now).0.leads ≡ db.leads)
  unfolding upsert_conversion
  upsert_conversion-transfers db lead user_id id now = (ground arith, ground arith)

  pub record_won_milestone-KeepsTransfers :
      (send : Bool) (db : Database px) (lead : Lead) (user_id id now : ℕ)
      → KeepsTransfers db (record_won_milestone px send db lead user_id id now)
  unfolding record_won_milestone
  record_won_milestone-KeepsTransfers send db lead user_id id now =
      let r = upsert_conversion px db lead user_id id now in
      let k = upsert_conversion-transfers db lead user_id id now in
      elim (Bool-cases (agrees r.1 lead)) [
        | inr n ↦ rw n tt
        | inl y ↦ let j = upsert_job-transfers r.0 r.1.id (not send) in rw y (j.0 ∙ k.0, j.1 ∙ k.1)
      ]
