-- ===== src/Payments/Decision.antt =====
-- What an approval of a transfer payment rests on and what it leaves, stated apart from the tests and
-- writes of the service: payments.service.ts, approve.
use hermes_n8n.Prelude.{
  subst, [], find-some, ℕ, ◌≡◌, ◌⊎◌, refl, sym, ◌∙◌, Bool, true, some, none, String, Option, arith,
  inl, inr, Option-cases, ◌==◌, ◌&&◌, Member, ==_true,
}
use hermes_n8n.Prisma.{Prisma}
use hermes_n8n.Schema.{Database}
use hermes_n8n.Schema.Messaging.{Message}
use hermes_n8n.Schema.Crm.{
  TransferPayment, TransferStatus, Lead, LeadStage, ProofMessage, is_review,
}
use hermes_n8n.Outcome.{ok}
use hermes_n8n.Text.{trim}
use hermes_n8n.Payments.Review.{
  ApproveTransfer, approve_transfer, approve_row, win_lead, find_proof, proof_in_conversation,
  same_status, is_payment_review, status_code, or_note, trim_note,
}
use hermes_n8n.Payments.Approval.{approve_transfer-Finished}

-- The note of the decision, or the one of before if it has none.
pub data IsNote : (given old new : Option String) → Type 0 where
  no_note : (old : Option String) → IsNote none old old
  noted : (s : String) (old : Option String) → IsNote (some s) old (some (trim s))

or_note-IsNote : (given old : Option String) → IsNote given old (or_note (trim_note given) old)
or_note-IsNote none old = IsNote.no_note old
or_note-IsNote (some s) old = IsNote.noted s old

review_status :
    (s : TransferStatus)
    → is_review s ≡ true
    → (s ≡ TransferStatus.proof_received) ⊎ (s ≡ TransferStatus.under_review)
review_status s h = ground (arith, h)

same_review_status : (s t : TransferStatus) → same_status s t ≡ true → is_review s ≡ true → s ≡ t
unfolding same_status status_code
same_review_status s t h k = ground (arith, h, k)

payment_review : (s : LeadStage) → is_payment_review s ≡ true → s ≡ LeadStage.payment_review
payment_review s h = ground (arith, h)

module _ (px : Prisma) where
  open px use {rows, find_unique, find_unique_rows, find_first_some}

  -- A successful approval of the payment `id` by `user_id` at `now`, which answers `t`.
  pub record Approved (db db' : Database px) (id : ℕ) (dto : ApproveTransfer) (user_id now : ℕ)
      (t : TransferPayment) : Type 0 where
    pub payment : TransferPayment
    pub payment_found :
        find_unique (λ (a : TransferPayment). a.id == id) db.transfers ≡ some payment
    pub as_seen : payment.status ≡ dto.expected_status
    pub in_review :
        (payment.status ≡ TransferStatus.proof_received)
        ⊎ (payment.status ≡ TransferStatus.under_review)
    pub proof : ProofMessage
    pub proof_stored : Member proof (rows db.proofs)
    pub proof_of_payment : proof.transfer_payment_id ≡ id
    pub proof_reviewed : proof.message_id ≡ dto.reviewed_proof_message_id
    pub message : Message
    pub message_stored : Member message (rows db.messages)
    pub message_of_proof : message.id ≡ dto.reviewed_proof_message_id
    pub message_here : message.conversation_id ≡ payment.conversation_id
    pub lead : Lead
    pub lead_found : find_unique (λ (l : Lead). l.id == payment.lead_id) db.leads ≡ some lead
    pub lead_stage : lead.stage ≡ LeadStage.payment_review
    pub note : IsNote dto.review_note payment.review_note t.review_note
    pub answered : t ≡ record payment {
      status = TransferStatus.approved;
      approved_at = some now;
      approved_by_user_id = some user_id;
      reviewed_proof_message_id = some dto.reviewed_proof_message_id;
      review_note = t.review_note;
    }
    pub stored : find_unique (λ (a : TransferPayment). a.id == id) db'.transfers ≡ some t
    pub won :
        find_unique (λ (l : Lead). l.id == payment.lead_id) db'.leads
        ≡ some (record lead {
          stage = LeadStage.won;
          won_at = some now;
          contracted_amount = some payment.amount_expected;
          revenue_received = some payment.amount_expected;
          commercial_currency = some payment.currency;
          contract_reference = some (trim dto.contract_reference);
        })

  found_proof :
      (db : Database px) (id message_id : ℕ) (p : ProofMessage)
      → find_proof px db id message_id ≡ some p
      → Member p (rows db.proofs) × (p.transfer_payment_id ≡ id) × (p.message_id ≡ message_id)
  unfolding find_proof
  found_proof db id message_id p h =
      let w : ProofMessage → Bool =
        λ a. a.transfer_payment_id == id && a.message_id == message_id in
      let m = find_first_some [] w db.proofs p h in (m.1, ground (arith, m.0), ground (arith, m.0))

  found_message :
      (db : Database px) (p : ProofMessage) (conversation_id : ℕ)
      → proof_in_conversation px db p conversation_id ≡ true
      → (m : Message) × Member m (rows db.messages)
        × (m.id ≡ p.message_id)
        × (m.conversation_id ≡ conversation_id)
  unfolding proof_in_conversation
  found_message db p conversation_id h =
      let w : Message → Bool = λ m. m.id == p.message_id in
      elim (Option-cases (find_unique w db.messages)) [
        | inl e ↦ absurd (cc (rw (e, proof_in_conversation) at h))
        | inr (m, e) ↦
            let f = find-some w (rows db.messages) m (sym (find_unique_rows w db.messages) ∙ e) in
            (
              m,
              f.1,
              ==_true m.id p.message_id f.0,
              ==_true m.conversation_id conversation_id (rw (e, proof_in_conversation) at h),
            )
      ]

  approved_fields :
      (now user_id : ℕ) (dto : ApproveTransfer) (p : TransferPayment)
      → approve_row now user_id dto p ≡ record p {
        status = TransferStatus.approved;
        approved_at = some now;
        approved_by_user_id = some user_id;
        reviewed_proof_message_id = some dto.reviewed_proof_message_id;
        review_note = (approve_row now user_id dto p).review_note;
      }
  unfolding approve_row
  approved_fields now user_id dto p = refl

  approved-IsNote :
      (now user_id : ℕ) (dto : ApproveTransfer) (p : TransferPayment)
      → IsNote dto.review_note p.review_note (approve_row now user_id dto p).review_note
  unfolding approve_row
  approved-IsNote now user_id dto p = or_note-IsNote dto.review_note p.review_note

  -- An approval that returns was decided on a payment that had its proof received or was under
  -- review, in the status that the operator saw, on the reviewed message, which is a proof of that
  -- payment and came in its conversation, and with its lead in payment review. It stores and
  -- answers the payment as approved at that time by that user on that proof, with the note if there
  -- is one, and otherwise as it was; and it stores the lead as won then for the expected amount in
  -- the payment's currency under the given contract reference, and otherwise as it was.
  pub approve_transfer-Approved :
      (send : Bool) (db db' : Database px) (id : ℕ) (dto : ApproveTransfer) (user_id now cid : ℕ)
      (t : TransferPayment)
      → approve_transfer px send db id dto user_id now cid ≡ ok (db', t)
      → Approved db db' id dto user_id now t
  unfolding win_lead
  approve_transfer-Approved send db db' id dto user_id now cid t h =
      let f = approve_transfer-Finished px send db db' id dto user_id now cid t h in
      let g = f.guards in
      let (p_in, p_of, p_is) = found_proof db id dto.reviewed_proof_message_id g.proof g.proven in
      let (m, m_in, m_is, m_here) =
        found_message db g.proof f.payment.conversation_id g.same_conversation in
      let review : is_review f.payment.status ≡ true = ground (arith, g.decidable) in
      record {
        payment = f.payment;
        payment_found = g.found;
        as_seen =
            same_review_status f.payment.status dto.expected_status (ground (arith, g.decidable))
              review;
        in_review = review_status f.payment.status review;
        proof = g.proof;
        proof_stored = p_in;
        proof_of_payment = p_of;
        proof_reviewed = p_is;
        message = m;
        message_stored = m_in;
        message_of_proof = m_is ∙ p_is;
        message_here = m_here;
        lead = f.lead;
        lead_found = g.lead_found;
        lead_stage = payment_review f.lead.stage g.in_review;
        note =
            subst (λ k. IsNote dto.review_note f.payment.review_note k.review_note) (sym f.result)
              (approved-IsNote now user_id dto f.payment);
        answered =
            subst
              (λ k. k ≡ record f.payment {
                status = TransferStatus.approved;
                approved_at = some now;
                approved_by_user_id = some user_id;
                reviewed_proof_message_id = some dto.reviewed_proof_message_id;
                review_note = k.review_note;
              })
              (sym f.result) (approved_fields now user_id dto f.payment);
        stored = f.stored;
        won = f.won;
      }
