-- ===== src/Delivery/Batch.antt =====
-- `deliverPreparedBatch`, `deliverLockedBatch`, `recoverBatch` and `getBatchProgress` of
-- hermes-backend/src/automated-deliveries/automated-delivery.service.ts.
use hermes_n8n.Prelude.{
  ℕ, suc, Bool, true, false, ◌&&◌, Option, none, some, List, [], ◌∷◌, ◌++◌, ◌==◌, ltb,
  if◌then◌else◌, String, select, count, map,
}
use hermes_n8n.Prisma.{Prisma, asc}
use hermes_n8n.Schema.{Database}
use hermes_n8n.Schema.Delivery.{
  Delivery, DeliveryKind, Metadata, Reason, is_confirmed, is_dispatching, is_terminal, same_kind,
}
use hermes_n8n.Delivery.Claim.{ClaimResult, claimed, refused, claim, reason_or}
use hermes_n8n.Delivery.Settle.{
  DispatchError, other, confirm, handle_dispatch_failure, voice_media_id,
}

pub record BatchResult : Type 0 where
  pub handled : Bool
  pub confirmed : ℕ
  pub terminal : Bool
  pub reason_code : Option Reason

-- What the Meta client is asked to send.
pub data Content : Type 0 where
  text : String → Content
  voice_note : ℕ → Content

pub record Sent : Type 0 where
  pub delivery_id : ℕ
  pub wa_id : ℕ
  pub content : Content

-- The answer of the Meta client: `response.messages[0].id`, or what was thrown.
pub data Response : Type 0 where
  accepted : (wamid : ℕ) → Response
  thrown : DispatchError → Response

-- What one round of the loop meets: the clock at its reads, the random token, the answer of
-- the Meta client, the identifier of the new message, and what other transactions commit before
-- the claim and between the claim and its settlement.
pub record Round (px : Prisma) : Type 0 where
  pub test_at : ℕ
  pub claim_at : ℕ
  pub claim_token : ℕ
  pub before_claim : Database px → Database px
  pub response : Sent → Response
  pub before_settle : Database px → Database px
  pub settle_at : ℕ
  pub message_id : ℕ

pub data Outcome : Type 0 where
  returned : BatchResult → Outcome
  rethrown : DispatchError → Outcome

unfoldable pub content_of : Delivery → Content
unfolding voice_media_id
content_of d = elim (voice_media_id d.metadata) [ none ↦ text d.content | some v ↦ voice_note v ]

-- `status === DISPATCHING && claimExpiresAt && claimExpiresAt.getTime() > Date.now()`.
abbrev pub is_leased : ℕ → Delivery → Bool
is_leased now d =
    is_dispatching d.status && elim d.claim_expires_at [ none ↦ false | some t ↦ ltb now t ]

module _ (px : Prisma) where
  open px use {Table, find_many}

  pub record Run : Type 0 where
    pub db : Database px
    pub outcome : Outcome
    pub sent : List Sent

  -- One round of the loop: on to the next part, or the end of the batch.
  pub data Attempt : Type 0 where
    advances : Database px → (confirmed : ℕ) → List Sent → Attempt
    stops : Database px → Outcome → List Sent → Attempt

  abbrev pub stop : ℕ → Bool → Reason → Outcome
  stop confirmed terminal reason = returned (record {
    handled = true;
    confirmed = confirmed;
    terminal = terminal;
    reason_code = some reason;
  })

  -- The `catch` block.
  unfoldable pub fail :
      Round px → Database px → Delivery → ℕ → ℕ → DispatchError → List Sent → Attempt
  fail round db operation token confirmed error sent =
      let (db', retry, reason) =
        handle_dispatch_failure px db operation token error round.settle_at in
      if retry then stops db' (rethrown error) sent else stops db' (stop confirmed true reason) sent

  -- The `try` block, after the Meta client has answered.
  unfoldable pub settle : Round px → Database px → Delivery → ℕ → ℕ → Response → List Sent → Attempt
  unfolding fail
  settle round db operation token confirmed (thrown error) sent =
      fail round db operation token confirmed error sent
  settle round db operation token confirmed (accepted wamid) sent =
      elim (confirm px db operation token wamid round.settle_at round.message_id) [
        | some db' ↦ advances db' (suc confirmed) sent
        | none ↦ fail round db operation token confirmed other sent
      ]

  unfoldable pub send_claimed : Round px → Database px → Delivery → ℕ → ℕ → ℕ → Attempt
  unfolding settle content_of
  send_claimed round db operation wa_id token confirmed =
      let sent : Sent = record {
        delivery_id = operation.id;
        wa_id = wa_id;
        content = content_of operation;
      } in
      settle round (round.before_settle db) operation token confirmed (round.response sent)
        (sent ∷ [])

  unfoldable pub after_claim : Round px → ℕ → Database px × ClaimResult → Attempt
  unfolding send_claimed
  after_claim round confirmed (db, claimed operation wa_id token) =
      send_claimed round db operation wa_id token confirmed
  after_claim round confirmed (db, refused terminal reason) =
      stops db (stop confirmed terminal reason) []

  unfoldable pub attempt : Round px → Database px → Delivery → ℕ → Attempt
  unfolding after_claim
  attempt round db operation confirmed =
      if is_confirmed operation.status
      then advances db confirmed []
      else if is_terminal operation.status
      then stops db
          (stop confirmed true
            (reason_or operation.reason_code (Reason.of_status operation.status)))
          []
      else if is_leased round.test_at operation
      then stops db (stop confirmed false Reason.delivery_in_progress) []
      else after_claim round confirmed
          (claim px (round.before_claim db) operation round.claim_at round.claim_token)

  abbrev pub sends_first : List Sent → Run → Run
  sends_first sent run = record run { sent = sent ++ run.sent }

  unfoldable pub deliver_from : (ℕ → Round px) → ℕ → Database px → ℕ → List Delivery → Run
  deliver_from rounds k db confirmed [] = record {
    db = db;
    outcome =
        returned
          (record { handled = true; confirmed = confirmed; terminal = true; reason_code = none });
    sent = [];
  }
  deliver_from rounds k db confirmed (operation ∷ operations) =
      elim (attempt (rounds k) db operation confirmed) [
        | advances db' confirmed' sent ↦
            sends_first sent (deliver_from rounds (suc k) db' confirmed' operations)
        | stops db' outcome sent ↦ record { db = db'; outcome = outcome; sent = sent }
      ]

  unfoldable pub operations_of : Database px → ℕ → List Delivery
  operations_of db source_message_id =
      find_many (asc (λ (d : Delivery). d.part_index) ∷ [])
        (λ (d : Delivery). d.source_message_id == source_message_id) db.deliveries

  abbrev not_handled : BatchResult
  not_handled = record { handled = false; confirmed = 0; terminal = false; reason_code = none }

  unfoldable pub deliver_operations : (ℕ → Round px) → Database px → List Delivery → Run
  deliver_operations rounds db [] = record { db = db; outcome = returned not_handled; sent = [] }
  deliver_operations rounds db (d ∷ ds) =
      deliver_from rounds 0 db (count (λ (r : Delivery). is_confirmed r.status) (d ∷ ds)) (d ∷ ds)

  -- The advisory lock keeps two batches of a conversation from running at once; the first query
  -- only finds the conversation to lock.
  unfoldable pub deliver_prepared_batch : (ℕ → Round px) → Database px → ℕ → Run
  unfolding deliver_from attempt operations_of deliver_operations
  deliver_prepared_batch rounds db source_message_id =
      deliver_operations rounds db (operations_of db source_message_id)

  abbrev as_handled : Outcome → Outcome
  as_handled (returned r) = returned (record r { handled = true })
  as_handled (rethrown e) = rethrown e

  unfoldable pub recover_batch : (ℕ → Round px) → Database px → ℕ → Option Run
  unfolding deliver_prepared_batch
  recover_batch rounds db source_message_id = elim (operations_of db source_message_id) [
    | [] ↦ none
    | d ∷ ds ↦
        let run = deliver_prepared_batch rounds db source_message_id in
        some (record run { outcome = as_handled run.outcome })
  ]

  pub record Progress : Type 0 where
    pub metadata : Option Metadata
    pub confirmed_part_indexes : List ℕ

  unfoldable pub get_batch_progress : Database px → ℕ → Option Progress
  get_batch_progress db source_message_id =
      elim (find_many (asc (λ (d : Delivery). d.part_index) ∷ [])
        (λ (d : Delivery).
          d.source_message_id == source_message_id
          && same_kind d.delivery_kind DeliveryKind.hermes_reply)
        db.deliveries) [
          | [] ↦ none
          | d ∷ ds ↦ some (record {
            metadata = d.metadata;
            confirmed_part_indexes =
                map (λ (r : Delivery). r.part_index)
                  (select (λ (r : Delivery). is_confirmed r.status) (d ∷ ds));
          })
        ]
