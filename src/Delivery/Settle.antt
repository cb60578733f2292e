-- ===== src/Delivery/Settle.antt =====
-- `confirm`, `handleDispatchFailure`, `recoverExpiredClaims` and `prepareBatch` of
-- hermes-backend/src/automated-deliveries/automated-delivery.service.ts.
use hermes_n8n.Prelude.{
  ℕ, suc, Bool, true, false, ◌&&◌, Option, none, some, List, [], ◌∷◌, ◌==◌, ltb, is_some,
  if◌then◌else◌, String, holds,
}
use hermes_n8n.Prisma.{Prisma}
use hermes_n8n.Schema.{Database}
use hermes_n8n.Schema.Messaging.{Direction, Message, MessageType, Sender}
use hermes_n8n.Schema.Delivery.{
  Delivery, DeliveryKind, DeliveryStatus, Metadata, OperationKey, Reason, is_dispatching, same_key,
}
use hermes_n8n.Delivery.Claim.{find_delivery, reason_or}

-- `MetaSendError` of meta.service.ts.
pub data SendOutcome : Type 0 where
  definitive_rejection ambiguous : SendOutcome

pub record MetaSendError : Type 0 where
  pub outcome : SendOutcome
  pub retryable : Bool
  pub provider_status : Option ℕ
  pub code : Reason

-- What a dispatch may throw: the error of the Meta client, or any other.
pub data DispatchError : Type 0 where
  meta_send : MetaSendError → DispatchError
  other : DispatchError

unfoldable pub voice_media_id : Option Metadata → Option ℕ
voice_media_id none = none
voice_media_id (some m) = m.voice_media_id

-- `{ id, status: DISPATCHING, claimToken }`.
abbrev pub owns_claim : ℕ → ℕ → Delivery → Bool
owns_claim id token d = d.id == id && is_dispatching d.status && holds d.claim_token token

unfoldable pub confirm_with : ℕ → ℕ → ℕ → Delivery → Delivery
confirm_with now message_id wamid d = record d {
  status = DeliveryStatus.confirmed;
  outbound_message_id = some message_id;
  wamid = some wamid;
  confirmed_at = some now;
  claim_token = none;
  claim_expires_at = none;
  reason_code = none;
}

-- A rate limit: the row may be claimed again.
unfoldable pub return_to_prepared : Reason → Delivery → Delivery
return_to_prepared reason d = record d {
  status = DeliveryStatus.prepared;
  claim_token = none;
  claim_expires_at = none;
  reason_code = some reason;
}

unfoldable pub reject_with : ℕ → Reason → Delivery → Delivery
reject_with now reason d = record d {
  status = DeliveryStatus.rejected;
  rejected_at = some now;
  reason_code = some reason;
  claim_token = none;
  claim_expires_at = none;
}

unfoldable pub mark_ambiguous : ℕ → Reason → Delivery → Delivery
mark_ambiguous now reason d = record d {
  status = DeliveryStatus.ambiguous;
  ambiguous_at = some now;
  reason_code = some reason;
  claim_token = none;
  claim_expires_at = none;
}

-- `metaError?.retryable && metaError.providerStatus === 429`.
abbrev pub is_rate_limited : DispatchError → Bool
is_rate_limited (meta_send e) = e.retryable && holds e.provider_status 429
is_rate_limited other = false

abbrev pub is_rejection : DispatchError → Bool
is_rejection (meta_send e) = elim e.outcome [ definitive_rejection ↦ true | ambiguous ↦ false ]
is_rejection other = false

-- `safeCode` itself for a rate limit, else `metaError?.safeCode || 'UNEXPECTED_DISPATCH_FAILURE'`.
abbrev pub failure_reason : DispatchError → Reason
failure_reason (meta_send e) =
    if e.retryable && holds e.provider_status 429
    then e.code
    else reason_or (some e.code) Reason.unexpected_dispatch_failure
failure_reason other = Reason.unexpected_dispatch_failure

-- The row that records a failed dispatch.
unfoldable pub fail_with : ℕ → DispatchError → Delivery → Delivery
unfolding return_to_prepared reject_with mark_ambiguous
fail_with now error d =
    if is_rate_limited error
    then return_to_prepared (failure_reason error) d
    else if is_rejection error
    then reject_with now (failure_reason error) d
    else mark_ambiguous now (failure_reason error) d

-- `{ status: DISPATCHING, claimExpiresAt: { lt: now } }`.
abbrev pub is_expired : ℕ → Delivery → Bool
is_expired now d =
    is_dispatching d.status && elim d.claim_expires_at [ none ↦ false | some t ↦ ltb t now ]

pub record Part : Type 0 where
  pub part_index : ℕ
  pub content : String
  pub metadata : Option Metadata

pub record PrepareBatch : Type 0 where
  pub delivery_kind : DeliveryKind
  pub conversation_id : ℕ
  pub contact_id : ℕ
  pub source_message_id : ℕ
  pub sender : Sender
  pub allow_handed_off : Bool
  pub parts : List Part

abbrev pub key_of : PrepareBatch → Part → OperationKey
key_of input part = record {
  source_message_id = input.source_message_id;
  delivery_kind = input.delivery_kind;
  part_index = part.part_index;
}

-- The `create` of the upsert, with the defaults of the schema.
unfoldable pub new_delivery : ℕ → PrepareBatch → Part → Delivery
new_delivery id input part = record {
  id = id;
  operation_key = key_of input part;
  delivery_kind = input.delivery_kind;
  part_index = part.part_index;
  conversation_id = input.conversation_id;
  contact_id = input.contact_id;
  source_message_id = input.source_message_id;
  outbound_message_id = none;
  sender = input.sender;
  content = part.content;
  allow_handed_off = input.allow_handed_off;
  status = DeliveryStatus.prepared;
  attempts = 0;
  claim_token = none;
  claim_expires_at = none;
  dispatch_started_at = none;
  confirmed_at = none;
  ambiguous_at = none;
  rejected_at = none;
  suppressed_at = none;
  wamid = none;
  reason_code = none;
  metadata = part.metadata;
}

unfoldable pub outbound_message : ℕ → ℕ → ℕ → Delivery → Option Metadata → Message
unfolding voice_media_id
outbound_message id now wamid operation metadata = record {
  id = id;
  conversation_id = operation.conversation_id;
  contact_id = operation.contact_id;
  direction = Direction.outbound;
  sender = operation.sender;
  message_type = if is_some (voice_media_id metadata) then MessageType.audio else MessageType.text;
  content = operation.content;
  raw_payload = none;
  wamid = some wamid;
  inbound_turn_id = none;
  inbound_turn_position = none;
  created_at = now;
}

module _ (px : Prisma) where
  open px use {Table, find_unique, create, update, update_many}

  -- `none` is the thrown 'delivery claim ownership lost', which rolls the transaction back.
  unfoldable pub confirm : Database px → Delivery → ℕ → ℕ → ℕ → ℕ → Option (Database px)
  unfolding outbound_message confirm_with
  confirm db operation token wamid now message_id = elim (find_delivery px db operation.id) [
    | none ↦ none
    | some current ↦
        if is_dispatching current.status && holds current.claim_token token
        then some (record db {
          messages =
              create (outbound_message message_id now wamid operation current.metadata) db.messages;
          deliveries =
              update (λ (d : Delivery). d.id == operation.id) (confirm_with now message_id wamid)
                db.deliveries;
        })
        else none
  ]

  -- The Boolean is `retry`.
  unfoldable pub handle_dispatch_failure :
      Database px → Delivery → ℕ → DispatchError → ℕ → Database px × Bool × Reason
  unfolding fail_with
  handle_dispatch_failure db operation token error now = (
    record db {
      deliveries =
          (update_many (owns_claim operation.id token) (fail_with now error) db.deliveries).0;
    },
    is_rate_limited error,
    failure_reason error,
  )

  unfoldable pub recover_expired_claims : Database px → ℕ → Database px × ℕ
  unfolding mark_ambiguous
  recover_expired_claims db now =
      let (deliveries, count) =
        update_many (is_expired now) (mark_ambiguous now Reason.claim_expired) db.deliveries in
      (record db { deliveries = deliveries }, count)

  -- One upsert with an empty `update`.
  unfoldable pub upsert_part : PrepareBatch → Database px → ℕ × Part → Database px
  upsert_part input db (id, part) =
      elim (find_unique (λ (d : Delivery). same_key d.operation_key (key_of input part))
        db.deliveries) [
          | none ↦ record db { deliveries = create (new_delivery id input part) db.deliveries }
          | some d ↦ db
        ]

  unfoldable pub prepare_parts : PrepareBatch → List (ℕ × Part) → Database px → Database px
  prepare_parts input [] db = db
  prepare_parts input (p ∷ ps) db = prepare_parts input ps (upsert_part input db p)

  unfoldable pub number_parts : ℕ → List Part → List (ℕ × Part)
  number_parts id [] = []
  number_parts id (p ∷ ps) = (id, p) ∷ number_parts (suc id) ps

  -- The identifiers of new rows are those from `id` on.
  unfoldable pub prepare_batch : Database px → PrepareBatch → ℕ → Database px
  unfolding prepare_parts upsert_part number_parts new_delivery
  prepare_batch db input id = prepare_parts input (number_parts id input.parts) db
