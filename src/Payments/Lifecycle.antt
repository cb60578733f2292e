-- ===== src/Payments/Lifecycle.antt =====
-- The life of a transfer payment, and the steps that the service takes on it.
use hermes_n8n.Prelude.{ℕ, ◌≡◌, refl, ◌∙◌, true, false, some, arith}
use hermes_n8n.Schema.Crm.{
  TransferPayment, TransferStatus, is_open_transfer, is_review, is_instruction,
}
use hermes_n8n.Payments.Transfer.{is_instructions_prepared}
use hermes_n8n.Payments.Review.{
  ApproveTransfer, RejectTransfer, review_row, approve_row, reject_row,
}
use hermes_n8n.Payments.Proof.{receive_proof}

pub data Legal : TransferStatus → TransferStatus → Type 0 where
  sends : Legal TransferStatus.instructions_prepared TransferStatus.instructions_sent
  proves : {s : TransferStatus} → is_instruction s ≡ true → Legal s TransferStatus.proof_received
  reviews : {s : TransferStatus} → is_review s ≡ true → Legal s TransferStatus.under_review
  approves : {s : TransferStatus} → is_review s ≡ true → Legal s TransferStatus.approved
  rejects : {s : TransferStatus} → is_review s ≡ true → Legal s TransferStatus.rejected

pub data Reaches (s : TransferStatus) : TransferStatus → Type 0 where
  here : Reaches s s
  next : {t u : TransferStatus} → Reaches s t → Legal t u → Reaches s u

pub Reaches-trans : {s t u : TransferStatus} → Reaches s t → Reaches t u → Reaches s u
Reaches-trans r here = r
Reaches-trans r (next q l) = next (Reaches-trans r q) l

-- Legal steps, the same identity, amount and currency, and nothing that is closed opens again.
pub record TransferEvolves (a b : TransferPayment) : Type 0 where
  pub reaches : Reaches a.status b.status
  pub closed : is_open_transfer a.status ≡ false → b.status ≡ a.status
  pub same_id : b.id ≡ a.id
  pub same_conversation : b.conversation_id ≡ a.conversation_id
  pub same_lead : b.lead_id ≡ a.lead_id
  pub same_amount : (b.amount_expected ≡ a.amount_expected) × (b.currency ≡ a.currency)

pub TransferEvolves-refl : (a : TransferPayment) → TransferEvolves a a
TransferEvolves-refl a = record {
  reaches = here;
  closed = λ h. refl;
  same_id = refl;
  same_conversation = refl;
  same_lead = refl;
  same_amount = (refl, refl);
}

closed_trans :
    (a b c : TransferPayment)
    → TransferEvolves a b
    → TransferEvolves b c
    → is_open_transfer a.status ≡ false
    → c.status ≡ a.status
closed_trans a b c p q h = let e : b.status ≡ a.status = p.closed h in q.closed (rw e h) ∙ e

pub TransferEvolves-trans :
    (a b c : TransferPayment) → TransferEvolves a b → TransferEvolves b c → TransferEvolves a c
TransferEvolves-trans a b c p q = record {
  reaches = Reaches-trans p.reaches q.reaches;
  closed = closed_trans a b c p q;
  same_id = q.same_id ∙ p.same_id;
  same_conversation = q.same_conversation ∙ p.same_conversation;
  same_lead = q.same_lead ∙ p.same_lead;
  same_amount = (q.same_amount.0 ∙ p.same_amount.0, q.same_amount.1 ∙ p.same_amount.1);
}

status_prepared :
    (s : TransferStatus)
    → is_instructions_prepared s ≡ true
    → s ≡ TransferStatus.instructions_prepared
status_prepared TransferStatus.instructions_prepared h = refl
status_prepared _ h = cc

prepared_sends :
    (s : TransferStatus)
    → is_instructions_prepared s ≡ true
    → Reaches s TransferStatus.instructions_sent
prepared_sends s h = rw (status_prepared s h) (next here sends)

open_of_review : (s : TransferStatus) → is_review s ≡ true → is_open_transfer s ≡ true
open_of_review TransferStatus.proof_received h = refl
open_of_review TransferStatus.under_review h = refl
open_of_review _ h = cc

open_of_instruction : (s : TransferStatus) → is_instruction s ≡ true → is_open_transfer s ≡ true
open_of_instruction TransferStatus.instructions_prepared h = refl
open_of_instruction TransferStatus.instructions_sent h = refl
open_of_instruction _ h = cc

-- One step of an open payment that keeps what identifies it.
step-Evolves :
    (a b : TransferPayment)
    → Reaches a.status b.status
    → is_open_transfer a.status ≡ true
    → (b.id ≡ a.id)
      × (b.conversation_id ≡ a.conversation_id)
      × (b.lead_id ≡ a.lead_id)
      × (b.amount_expected ≡ a.amount_expected)
      × (b.currency ≡ a.currency)
    → TransferEvolves a b
step-Evolves a b r live same = record {
  reaches = r;
  closed = λ h. absurd (ground arith);
  same_id = same.0;
  same_conversation = same.1;
  same_lead = same.2;
  same_amount = (same.3, same.4);
}

module _ (a : TransferPayment) where
  pub message-Evolves :
      (message_id : ℕ) → TransferEvolves a (record a { instructions_message_id = some message_id })
  message-Evolves message_id = record {
    reaches = here;
    closed = λ h. refl;
    same_id = refl;
    same_conversation = refl;
    same_lead = refl;
    same_amount = (refl, refl);
  }

  pub sent-Evolves :
      (message_id : ℕ)
      → is_instructions_prepared a.status ≡ true
      → TransferEvolves a (record a {
        instructions_message_id = some message_id;
        status = TransferStatus.instructions_sent;
      })
  sent-Evolves message_id h =
      step-Evolves a _ (prepared_sends a.status h) (rw (status_prepared a.status h))
        (refl, refl, refl, refl, refl)

  pub receive_proof-Evolves :
      (now : ℕ) → is_instruction a.status ≡ true → TransferEvolves a (receive_proof now a)
  unfolding receive_proof
  receive_proof-Evolves now h =
      step-Evolves a _ (next here (proves h)) (open_of_instruction a.status h)
        (refl, refl, refl, refl, refl)

  module _ (h : is_review a.status ≡ true) where
    pub review_row-Evolves : (now : ℕ) → TransferEvolves a (review_row now a)
    unfolding review_row
    review_row-Evolves now =
        step-Evolves a _ (next here (reviews h)) (open_of_review a.status h)
          (refl, refl, refl, refl, refl)

    pub approve_row-Evolves :
        (now user_id : ℕ) (dto : ApproveTransfer)
        → TransferEvolves a (approve_row now user_id dto a)
    unfolding approve_row
    approve_row-Evolves now user_id dto =
        step-Evolves a _ (next here (approves h)) (open_of_review a.status h)
          (refl, refl, refl, refl, refl)

    pub reject_row-Evolves :
        (now user_id : ℕ) (dto : RejectTransfer) → TransferEvolves a (reject_row now user_id dto a)
    unfolding reject_row
    reject_row-Evolves now user_id dto =
        step-Evolves a _ (next here (rejects h)) (open_of_review a.status h)
          (refl, refl, refl, refl, refl)
