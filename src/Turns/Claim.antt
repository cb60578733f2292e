-- ===== src/Turns/Claim.antt =====
-- `claim`, `findPending`, `recoverable`, `nextClaimAt`, `complete` and `release` of
-- hermes-backend/src/auto-replies/inbound-turn.service.ts, and `scan` of
-- inbound-turn-recovery.service.ts.
use hermes_n8n.Prelude.{
  suc, ℕ, zero, suc, ◌+◌, ◌/◌, Bool, false, ◌&&◌, ◌||◌, Option, none, some, List, [], ◌∷◌, map,
  ◌==◌, leb, ltb, if◌then◌else◌,
}
use hermes_n8n.Prisma.{Prisma, asc}
use hermes_n8n.Schema.{Database}
use hermes_n8n.Schema.Messaging.{InboundTurn, TurnStatus, is_opened, is_processing}
use hermes_n8n.Turns.Schedule.{find_turn}

abbrev pub processing_lease_ms : ℕ
processing_lease_ms = 900_000

-- `processingAt < now - PROCESSING_LEASE_MS`, which null is not.
abbrev pub is_stale : ℕ → Option ℕ → Bool
is_stale now none = false
is_stale now (some at) = ltb (at + processing_lease_ms) now

abbrev pub is_token : ℕ → Option ℕ → Bool
is_token token none = false
is_token token (some t) = t == token

-- The `where` of `claim`.
abbrev pub is_claimable : ℕ → ℕ → InboundTurn → Bool
is_claimable turn_id now t =
    t.id == turn_id
    && leb t.due_at now
    && (is_opened t.status || (is_processing t.status && is_stale now t.processing_at))

unfoldable pub start_processing : ℕ → ℕ → InboundTurn → InboundTurn
start_processing now token t = record t {
  status = TurnStatus.processing;
  processing_at = some now;
  processing_token = some token;
}

-- The `where` of `complete` and of `release`.
abbrev pub is_held : ℕ → ℕ → InboundTurn → Bool
is_held turn_id token t =
    t.id == turn_id && is_processing t.status && is_token token t.processing_token

unfoldable pub leave : TurnStatus → InboundTurn → InboundTurn
leave status t = record t { status = status; processing_at = none; processing_token = none }

-- The `where` of `recoverable`.
abbrev pub is_recoverable : ℕ → InboundTurn → Bool
is_recoverable now t =
    (is_opened t.status && leb t.due_at now)
    || (is_processing t.status && is_stale now t.processing_at)

abbrev pub is_pending : ℕ → InboundTurn → Bool
is_pending turn_id t = t.id == turn_id && (is_opened t.status || is_processing t.status)

unfoldable pub next_claim_at : InboundTurn → ℕ
next_claim_at t = elim t.processing_at [
  | none ↦ t.due_at
  | some at ↦ if is_processing t.status then at + processing_lease_ms else t.due_at
]

abbrev pub take {ℓ} : {A : Type ℓ} → ℕ → List A → List A
take zero xs = []
take (suc n) [] = []
take (suc n) (x ∷ xs) = x ∷ take n xs

-- A job of the recovery: its data, and the turn and the five seconds in its `jobId`.
pub record Job : Type 0 where
  pub conversation_id : ℕ
  pub contact_id : ℕ
  pub inbound_message_id : ℕ
  pub inbound_turn_id : ℕ
  pub window : ℕ

module _ (px : Prisma) where
  open px use {find_first, find_many, update_many}

  unfoldable pub claim : Database px → (turn_id now token : ℕ) → Database px × Option InboundTurn
  unfolding start_processing
  claim db turn_id now token =
      let (turns, count) =
        update_many (is_claimable turn_id now) (start_processing now token) db.inbound_turns in
      let db' : Database px = record db { inbound_turns = turns } in
      (db', if count == 1 then find_turn px db' turn_id else none)

  unfoldable pub find_pending : Database px → ℕ → Option InboundTurn
  find_pending db turn_id = find_first [] (is_pending turn_id) db.inbound_turns

  unfoldable pub recoverable : Database px → ℕ → List InboundTurn
  recoverable db now =
      take 100
        (find_many (asc (λ (t : InboundTurn). t.due_at) ∷ []) (is_recoverable now) db.inbound_turns)

  unfoldable pub complete : Database px → (turn_id token : ℕ) → Database px
  unfolding leave
  complete db turn_id token = record db {
    inbound_turns =
        (update_many (is_held turn_id token) (leave TurnStatus.processed) db.inbound_turns).0;
  }

  unfoldable pub release : Database px → (turn_id token : ℕ) → Database px
  unfolding leave
  release db turn_id token = record db {
    inbound_turns =
        (update_many (is_held turn_id token) (leave TurnStatus.opened) db.inbound_turns).0;
  }

  -- The jobs that `scan` adds to the queue, where no scan is under way.
  unfoldable pub scan : Database px → ℕ → List Job
  unfolding recoverable
  scan db now =
      map
        (λ (t : InboundTurn). record {
          conversation_id = t.conversation_id;
          contact_id = t.contact_id;
          inbound_message_id = t.last_message_id;
          inbound_turn_id = t.id;
          window = now / 5000;
        })
        (recoverable db now)
