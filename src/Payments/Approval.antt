-- ===== src/Payments/Approval.antt =====
-- Approvals of transfer payments: their guards, and what they leave.
use hermes_n8n.Prelude.{
  find-some, find-map_first, ℕ, ◌≡◌, refl, sym, subst, Bool, true, false, some, arith, inl, inr,
  Bool-cases, Option-cases, ◌==◌,
}
use hermes_n8n.Prisma.{Prisma}
use hermes_n8n.Schema.{Database}
use hermes_n8n.Schema.Crm.{TransferPayment, Lead, ProofMessage, is_review}
use hermes_n8n.Outcome.{HttpError, Result, ok, err, ◌>>=◌}
use hermes_n8n.Leads.Won.{record_won_milestone}
use hermes_n8n.Payments.Review.{
  approval_writes, finish_approval, find_lead, ApproveTransfer, RejectTransfer, approve_transfer,
  reject_transfer, find_transfer, approve_row, is_decidable, win_lead, find_proof,
  proof_in_conversation, is_payment_review,
}
use hermes_n8n.Payments.Lifecycle.{approve_row-Evolves}
use hermes_n8n.Payments.Steps.{
  one_Transfers, OkTransfers, KeepsTransfers, record_won_milestone-KeepsTransfers,
}

module _ (px : Prisma) where
  open px use {rows, find_unique_rows, update_rows, create_rows, find_first_none, find_first_some}

  -- The guards of an approval.
  pub record CanApprove (db : Database px) (id : ℕ) (dto : ApproveTransfer)
      (payment : TransferPayment) (lead : Lead) : Type 0 where
    pub proof : ProofMessage
    pub found : find_transfer px db id ≡ some payment
    pub decidable : is_decidable px payment dto.expected_status ≡ true
    pub proven : find_proof px db id dto.reviewed_proof_message_id ≡ some proof
    pub same_conversation : proof_in_conversation px db proof payment.conversation_id ≡ true
    pub lead_found : find_lead px db payment.lead_id ≡ some lead
    pub in_review : is_payment_review lead.stage ≡ true

  module _ (send : Bool) (db : Database px) (id : ℕ) (dto : ApproveTransfer) (user_id now cid : ℕ)
      (P : Result (Database px × TransferPayment) → Type 0) where
    pub approve_transfer_cases :
        ((e : HttpError) → P (err e))
        → ((payment : TransferPayment) (lead : Lead)
            → CanApprove db id dto payment lead
            → P (finish_approval px send db id dto user_id now cid payment lead))
        → P (approve_transfer px send db id dto user_id now cid)
    unfolding approve_transfer
    approve_transfer_cases fails finishes = elim (Option-cases (find_transfer px db id)) [
      | inl e ↦ rw e (fails HttpError.not_found)
      | inr (t, e) ↦ elim (Bool-cases (is_decidable px t dto.expected_status)) [
        | inr n ↦ rw (e, n) (fails HttpError.conflict)
        | inl y ↦ elim (Option-cases (find_proof px db id dto.reviewed_proof_message_id)) [
          | inl f ↦ rw (e, y, f) (fails HttpError.bad_request)
          | inr (p, f) ↦ elim (Bool-cases (proof_in_conversation px db p t.conversation_id)) [
            | inr n ↦ rw (e, y, f, n) (fails HttpError.bad_request)
            | inl z ↦ elim (Option-cases (find_lead px db t.lead_id)) [
              | inl g ↦ rw (e, y, f, z, g) (fails HttpError.conflict)
              | inr (l, g) ↦ elim (Bool-cases (is_payment_review l.stage)) [
                | inr n ↦ rw (e, y, f, z, g, n) (fails HttpError.conflict)
                | inl q ↦
                    rw (e, y, f, z, g, q)
                      (finishes t l (record {
                        proof = p;
                        found = e;
                        decidable = y;
                        proven = f;
                        same_conversation = z;
                        lead_found = g;
                        in_review = q;
                      }))
              ]
            ]
          ]
        ]
      ]
    ]

  finish_approval-Transfers :
      (send : Bool) (db : Database px) (id : ℕ) (dto : ApproveTransfer) (user_id now cid : ℕ)
      (t : TransferPayment) (l : Lead)
      → CanApprove db id dto t l
      → OkTransfers px db (finish_approval px send db id dto user_id now cid t l)
  unfolding finish_approval
  finish_approval-Transfers send db id dto user_id now cid t l c =
      go (record_won_milestone px send won_db (win_lead now dto t l) user_id cid now)
        (record_won_milestone-KeepsTransfers px send won_db (win_lead now dto t l) user_id cid now)
    where
      won_db : Database px
      won_db = record db {
        leads = px.update (λ (a : Lead). a.id == l.id) (win_lead now dto t) db.leads;
      }

      go :
          (r : Result (Database px))
          → KeepsTransfers px won_db r
          → OkTransfers px db (r >>= approval_writes px id dto user_id now t)
      go (err e) k = tt
      go (ok won) k = rw k.0 (
          one_Transfers px db.transfers id (approve_row now user_id dto) t c.found
            (approve_row-Evolves t (ground (arith, c.decidable)) now user_id dto))

  pub approve_transfer-Transfers :
      (send : Bool) (db : Database px) (id : ℕ) (dto : ApproveTransfer) (user_id now cid : ℕ)
      → OkTransfers px db (approve_transfer px send db id dto user_id now cid)
  approve_transfer-Transfers send db id dto user_id now cid =
      approve_transfer_cases send db id dto user_id now cid (OkTransfers px db) (λ e. tt)
        (finish_approval-Transfers send db id dto user_id now cid)

  -- What a successful approval leaves.
  pub record Finished (db db' : Database px) (id : ℕ) (dto : ApproveTransfer) (user_id now : ℕ)
      (t : TransferPayment) : Type 0 where
    pub payment : TransferPayment
    pub lead : Lead
    pub guards : CanApprove db id dto payment lead
    pub result : t ≡ approve_row now user_id dto payment
    pub stored : find_transfer px db' id ≡ some t
    pub won : find_lead px db' payment.lead_id ≡ some (win_lead now dto payment lead)

  abbrev IsApproval :
      Database px → ℕ → ApproveTransfer → ℕ → ℕ → Result (Database px × TransferPayment) → Type 0
  IsApproval db id dto user_id now (err e) = Unit
  IsApproval db id dto user_id now (ok (db', t)) = Finished db db' id dto user_id now t

  update_found :
      {R : Type 0} (w : R → Bool) (f : R → R) (t : px.Table R) (r : R)
      → ((a : R) → w (f a) ≡ w a)
      → px.find_unique w t ≡ some r
      → px.find_unique w (px.update w f t) ≡ some (f r)
  update_found w f t r same e =
      rw (find_unique_rows w (px.update w f t), update_rows w f t)
        (find-map_first w f same (rows t) r (rw (find_unique_rows w t) at e))

  approve_row-id :
      (now user_id : ℕ) (dto : ApproveTransfer) (a : TransferPayment) (id : ℕ)
      → ((approve_row now user_id dto a).id == id) ≡ (a.id == id)
  unfolding approve_row
  approve_row-id now user_id dto a id = refl

  win_lead-id :
      (now : ℕ) (dto : ApproveTransfer) (t : TransferPayment) (a : Lead) (id : ℕ)
      → ((win_lead now dto t a).id == id) ≡ (a.id == id)
  unfolding win_lead
  win_lead-id now dto t a id = refl

  won_lead_found :
      (db : Database px) (t : TransferPayment) (l : Lead) (now : ℕ) (dto : ApproveTransfer)
      → find_lead px db t.lead_id ≡ some l
      → px.find_unique
          (λ (a : Lead). a.id == t.lead_id)
          (px.update (λ (a : Lead). a.id == l.id) (win_lead now dto t) db.leads)
        ≡ some (win_lead now dto t l)
  won_lead_found db t l now dto e =
      let w : Lead → Bool = λ a. a.id == t.lead_id in
      let m = find-some w (rows db.leads) l (rw (find_unique_rows w db.leads) at e) in
      let same : l.id ≡ t.lead_id = ground (arith, m.0) in
      subst
        (λ k.
          px.find_unique w (px.update (λ (a : Lead). a.id == k) (win_lead now dto t) db.leads)
          ≡ some (win_lead now dto t l))
        (sym same)
        (update_found w (win_lead now dto t) db.leads l (λ a. win_lead-id now dto t a t.lead_id) e)

  finish_approval-IsApproval :
      (send : Bool) (db : Database px) (id : ℕ) (dto : ApproveTransfer) (user_id now cid : ℕ)
      (t : TransferPayment) (l : Lead)
      → CanApprove db id dto t l
      → IsApproval db id dto user_id now (finish_approval px send db id dto user_id now cid t l)
  unfolding finish_approval
  finish_approval-IsApproval send db id dto user_id now cid t l c =
      go (record_won_milestone px send won_db (win_lead now dto t l) user_id cid now)
        (record_won_milestone-KeepsTransfers px send won_db (win_lead now dto t l) user_id cid now)
    where
      won_db : Database px
      won_db = record db {
        leads = px.update (λ (a : Lead). a.id == l.id) (win_lead now dto t) db.leads;
      }

      go :
          (r : Result (Database px))
          → KeepsTransfers px won_db r
          → IsApproval db id dto user_id now (r >>= approval_writes px id dto user_id now t)
      go (err e) k = tt
      go (ok won) k = record {
        payment = t;
        lead = l;
        guards = c;
        result = refl;
        stored = rw k.0 (
            update_found (λ (a : TransferPayment). a.id == id) (approve_row now user_id dto)
              db.transfers t (λ a. approve_row-id now user_id dto a id) c.found);
        won = rw k.1 (won_lead_found db t l now dto c.lead_found);
      }

  -- An approval that returns has met its guards and finished its writes.
  pub approve_transfer-Finished :
      (send : Bool) (db db' : Database px) (id : ℕ) (dto : ApproveTransfer) (user_id now cid : ℕ)
      (t : TransferPayment)
      → approve_transfer px send db id dto user_id now cid ≡ ok (db', t)
      → Finished db db' id dto user_id now t
  approve_transfer-Finished send db db' id dto user_id now cid t h =
      subst (IsApproval db id dto user_id now) h (
        approve_transfer_cases send db id dto user_id now cid (IsApproval db id dto user_id now)
          (λ e. tt) (finish_approval-IsApproval send db id dto user_id now cid))

  undecidable :
      (send : Bool) (db : Database px) (id : ℕ) (t : TransferPayment)
      → find_transfer px db id ≡ some t
      → is_review t.status ≡ false
      → (dto : ApproveTransfer) (reason : RejectTransfer) (user_id now cid : ℕ)
      → (approve_transfer px send db id dto user_id now cid ≡ err HttpError.conflict)
        × (reject_transfer px db id reason user_id now ≡ err HttpError.conflict)
  unfolding approve_transfer reject_transfer
  undecidable send db id t e n dto reason user_id now cid =
      let m : is_decidable px t dto.expected_status ≡ false = ground arith in
      let k : is_decidable px t reason.expected_status ≡ false = ground arith in
      (rw e (rw m), rw e (rw k))

  -- A decision is taken once: after an approval, another approval and a rejection of the same
  -- payment are both refused as conflicts.
  pub approve_transfer_once :
      (send : Bool) (db db' : Database px) (id : ℕ) (dto : ApproveTransfer) (user_id now cid : ℕ)
      (t : TransferPayment)
      → approve_transfer px send db id dto user_id now cid ≡ ok (db', t)
      → (again : ApproveTransfer) (reason : RejectTransfer) (other later cid' : ℕ)
      → (approve_transfer px send db' id again other later cid' ≡ err HttpError.conflict)
        × (reject_transfer px db' id reason other later ≡ err HttpError.conflict)
  unfolding approve_row
  approve_transfer_once send db db' id dto user_id now cid t h again reason other later cid' =
      let a = approve_transfer-Finished send db db' id dto user_id now cid t h in
      undecidable send db' id t a.stored (rw a.result) again reason other later cid'
