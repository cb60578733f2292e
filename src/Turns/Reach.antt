-- ===== src/Turns/Reach.antt =====
-- Runs of hermes-backend/src/auto-replies/inbound-turn.service.ts: its calls as steps on the
-- database, and the invariant of the table of turns.
use hermes_n8n.Prelude.{ℕ, ◌≡◌, true, ◌==◌, count, All}
use hermes_n8n.Prisma.{Prisma}
use hermes_n8n.Schema.{Database}
use hermes_n8n.Schema.Messaging.{InboundTurn}
use hermes_n8n.Outcome.{Result, ok, err}
use hermes_n8n.Turns.Schedule.{schedule, Settings, Inbound}
use hermes_n8n.Turns.Claim.{claim, complete, release}
use hermes_n8n.Turns.Deadline.{UniqueTurns}
use hermes_n8n.Turns.Recovery.{is_timely}

-- A turn keeps its identifier, and is timely if it was.
record Keeps (a b : InboundTurn) : Type 0 where
  pub same : b.id ≡ a.id
  pub timely : is_timely a ≡ true → is_timely b ≡ true

module _ (px : Prisma) where
  open px use {rows, find_unique_rows, update_many_rows, update_rows, create_rows, find_first_some}

  abbrev pub AllTimely : Database px → Type 0
  AllTimely db = All (λ t. is_timely t ≡ true) (rows db.inbound_turns)

  -- The invariant of the table of turns.
  pub record IsOrderly (db : Database px) : Type 0 where
    pub unique : UniqueTurns px db
    pub timely : AllTimely db

  -- One call of the service. A new turn is given an identifier that is not in use.
  pub data Step (db : Database px) : Database px → Type 0 where
    schedules :
        {db' : Database px} (s : Settings) (input : Inbound) (id now : ℕ) (t : InboundTurn)
        → count (λ (t : InboundTurn). t.id == id) (rows db.inbound_turns) ≡ 0
        → schedule px db s input id now ≡ ok (db', t)
        → Step db db'
    claims : (turn_id now token : ℕ) → Step db (claim px db turn_id now token).0
    completes : (turn_id token : ℕ) → Step db (complete px db turn_id token)
    releases : (turn_id token : ℕ) → Step db (release px db turn_id token)

  pub data Reach (db : Database px) : Database px → Type 0 where
    here : Reach db db
    next : {db' db'' : Database px} → Reach db db' → Step db' db'' → Reach db db''

  abbrev OkOrderly : Result (Database px × InboundTurn) → Type 0
  OkOrderly (err e) = Unit
  OkOrderly (ok (db, t)) = IsOrderly db
