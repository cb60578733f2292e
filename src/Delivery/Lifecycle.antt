-- ===== src/Delivery/Lifecycle.antt =====
-- The life of a row of the ledger: the steps that the service may take on it, as a relation.
use hermes_n8n.Prelude.{ℕ, ◌≤◌, ◌≡◌, refl, ◌∙◌, true, false, arith, is_some}
use hermes_n8n.Schema.Delivery.{
  Delivery, DeliveryStatus, Reason, is_prepared, is_dispatching, is_confirmed, is_terminal,
}
use hermes_n8n.Delivery.Claim.{suppress, dispatch}
use hermes_n8n.Delivery.Settle.{confirm_with, return_to_prepared, reject_with, mark_ambiguous}

-- One step of the state machine of a delivery.
pub data Legal : DeliveryStatus → DeliveryStatus → Type 0 where
  claims : Legal DeliveryStatus.prepared DeliveryStatus.dispatching
  suppresses : Legal DeliveryStatus.prepared DeliveryStatus.suppressed
  confirms : Legal DeliveryStatus.dispatching DeliveryStatus.confirmed
  returns : Legal DeliveryStatus.dispatching DeliveryStatus.prepared
  rejects : Legal DeliveryStatus.dispatching DeliveryStatus.rejected
  loses : Legal DeliveryStatus.dispatching DeliveryStatus.ambiguous

pub data Reaches (s : DeliveryStatus) : DeliveryStatus → Type 0 where
  here : Reaches s s
  next : {t u : DeliveryStatus} → Reaches s t → Legal t u → Reaches s u

pub Reaches-trans : {s t u : DeliveryStatus} → Reaches s t → Reaches t u → Reaches s u
Reaches-trans r here = r
Reaches-trans r (next q l) = next (Reaches-trans r q) l

-- A claim has its token and its lease while it is dispatched and no longer, and exactly the
-- confirmed rows carry the identifiers of the message that Meta accepted.
pub record IsWellFormed (d : Delivery) : Type 0 where
  pub token : is_some d.claim_token ≡ is_dispatching d.status
  pub lease : is_some d.claim_expires_at ≡ is_dispatching d.status
  pub receipt : is_some d.wamid ≡ is_confirmed d.status
  pub message : is_some d.outbound_message_id ≡ is_confirmed d.status

-- What may become of a row: legal steps, nothing at all once it is terminal, the same key and
-- content, never fewer attempts.
pub record Evolves (a b : Delivery) : Type 0 where
  pub reaches : Reaches a.status b.status
  pub frozen : is_terminal a.status ≡ true → b ≡ a
  pub same_id : b.id ≡ a.id
  pub same_key : b.operation_key ≡ a.operation_key
  pub same_content : b.content ≡ a.content
  pub attempts : a.attempts ≤ b.attempts
  pub keeps : IsWellFormed a → IsWellFormed b

pub Evolves-refl : (a : Delivery) → Evolves a a
Evolves-refl a = record {
  reaches = here;
  frozen = λ h. refl;
  same_id = refl;
  same_key = refl;
  same_content = refl;
  attempts = omega arith;
  keeps = λ w. w;
}

frozen_trans : (a b c : Delivery) → Evolves a b → Evolves b c → is_terminal a.status ≡ true → c ≡ a
frozen_trans a b c p q h = let e : b ≡ a = p.frozen h in q.frozen (rw e h) ∙ e

pub Evolves-trans : (a b c : Delivery) → Evolves a b → Evolves b c → Evolves a c
Evolves-trans a b c p q = record {
  reaches = Reaches-trans p.reaches q.reaches;
  frozen = frozen_trans a b c p q;
  same_id = q.same_id ∙ p.same_id;
  same_key = q.same_key ∙ p.same_key;
  same_content = q.same_content ∙ p.same_content;
  attempts = omega arith;
  keeps = λ w. q.keeps (p.keeps w);
}

one_step : {s t u : DeliveryStatus} → s ≡ t → Legal t u → Reaches s u
one_step e l = rw e (next here l)

-- A row that is not terminal, after one step that keeps what identifies it.
step-Evolves :
    (a b : Delivery)
    → Reaches a.status b.status
    → is_terminal a.status ≡ false
    → (b.id ≡ a.id) × (b.operation_key ≡ a.operation_key) × (b.content ≡ a.content)
    → a.attempts ≤ b.attempts
    → (IsWellFormed a → IsWellFormed b)
    → Evolves a b
step-Evolves a b r live same le keeps = record {
  reaches = r;
  frozen = λ t. absurd (ground arith);
  same_id = same.0;
  same_key = same.1;
  same_content = same.2;
  attempts = le;
  keeps = keeps;
}

status_prepared : (s : DeliveryStatus) → is_prepared s ≡ true → s ≡ DeliveryStatus.prepared
status_prepared DeliveryStatus.prepared h = refl
status_prepared _ h = cc

pub status_dispatching :
    (s : DeliveryStatus) → is_dispatching s ≡ true → s ≡ DeliveryStatus.dispatching
status_dispatching DeliveryStatus.dispatching h = refl
status_dispatching _ h = cc

module _ (a : Delivery) where
  pub suppress-Evolves :
      (now : ℕ) (reason : Reason) → is_prepared a.status ≡ true → Evolves a (suppress now reason a)
  unfolding suppress
  suppress-Evolves now reason h =
      let e : a.status ≡ DeliveryStatus.prepared = status_prepared a.status h in
      step-Evolves a _ (one_step e suppresses) (rw e) (refl, refl, refl) (omega arith)
        (λ w. ground arith)

  pub dispatch-Evolves :
      (now token : ℕ) → is_prepared a.status ≡ true → Evolves a (dispatch now token a)
  unfolding dispatch
  dispatch-Evolves now token h =
      let e : a.status ≡ DeliveryStatus.prepared = status_prepared a.status h in
      step-Evolves a _ (one_step e claims) (rw e) (refl, refl, refl) (omega arith)
        (λ w. ground arith)

module _ (a : Delivery) (e : a.status ≡ DeliveryStatus.dispatching) where
  pub confirm_with-Evolves :
      (now message_id wamid : ℕ) → Evolves a (confirm_with now message_id wamid a)
  unfolding confirm_with
  confirm_with-Evolves now message_id wamid =
      step-Evolves a _ (one_step e confirms) (rw e) (refl, refl, refl) (omega arith)
        (λ w. ground arith)

  pub return_to_prepared-Evolves : (reason : Reason) → Evolves a (return_to_prepared reason a)
  unfolding return_to_prepared
  return_to_prepared-Evolves reason =
      step-Evolves a _ (one_step e returns) (rw e) (refl, refl, refl) (omega arith)
        (λ w. ground arith)

  pub reject_with-Evolves : (now : ℕ) (reason : Reason) → Evolves a (reject_with now reason a)
  unfolding reject_with
  reject_with-Evolves now reason =
      step-Evolves a _ (one_step e rejects) (rw e) (refl, refl, refl) (omega arith)
        (λ w. ground arith)

  pub mark_ambiguous-Evolves : (now : ℕ) (reason : Reason) → Evolves a (mark_ambiguous now reason a)
  unfolding mark_ambiguous
  mark_ambiguous-Evolves now reason =
      step-Evolves a _ (one_step e loses) (rw e) (refl, refl, refl) (omega arith)
        (λ w. ground arith)
