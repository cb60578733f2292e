-- ===== src/Turns/Tests.antt =====
-- Runs of the inbound turns on a database in memory, at which their theorems apply.
use hermes_n8n.Prisma.Sort.{first, sort}
use hermes_n8n.Prelude.{
  ◌<◌, ◌≡◌, refl, true, none, some, [], ◌∷◌, arith, inl, inr, Bool-cases, ◌==◌, All,
}
use hermes_n8n.Prisma.Memory.{memory}
use hermes_n8n.Schema.{Database}
use hermes_n8n.Schema.Messaging.{InboundTurn, TurnStatus}
use hermes_n8n.Outcome.{ok}
use hermes_n8n.Fixtures.{empty_db, question}
use hermes_n8n.Turns.Schedule.{
  max_wait_of, debounce_of, Settings, Inbound, schedule, find_inbound, take_turn,
}
use hermes_n8n.Turns.Claim.{
  next_claim_at, start_processing, claim, complete, release, recoverable, is_claimable,
  find_pending,
}
use hermes_n8n.Turns.Taking.{Takes}
use hermes_n8n.Turns.Deadline.{joined, UniqueTurns, schedule-Takes, schedule_idempotent}
use hermes_n8n.Turns.Lease.{claim_leased, other_token_refused, completed_for_good}
use hermes_n8n.Turns.Recovery.{recoverable-claimable}
use hermes_n8n.Turns.Timing.{claim_when_due, claim_not_before}
use hermes_n8n.Turns.Reach.{Reach}

abbrev settings : Settings
settings = record { debounce = some 3000; max_wait = none }

abbrev inbound : Inbound
inbound = record { conversation_id = 2; contact_id = 1; inbound_message_id = 3 }

abbrev waiting : InboundTurn
waiting = record {
  id = 5;
  conversation_id = 2;
  contact_id = 1;
  first_at = 2000;
  last_at = 2000;
  due_at = 5000;
  last_message_id = 3;
  status = TurnStatus.opened;
  processing_at = none;
  processing_token = none;
}

abbrev working : InboundTurn
working = record waiting {
  status = TurnStatus.processing;
  processing_at = some 6000;
  processing_token = some 70;
}

abbrev scheduled_db : Database memory
scheduled_db = record empty_db {
  messages = record question { inbound_turn_id = some 5; inbound_turn_position = some 0 } ∷ [];
  inbound_turns = waiting ∷ [];
}

abbrev waiting_db : Database memory
waiting_db = record empty_db { inbound_turns = waiting ∷ [] }

abbrev working_db : Database memory
working_db = record empty_db { inbound_turns = working ∷ [] }

schedules_question : schedule memory empty_db settings inbound 5 2000 ≡ ok (scheduled_db, waiting)
unfolding schedule first debounce_of max_wait_of
schedules_question = refl

claims_waiting : claim memory waiting_db 5 6000 70 ≡ (working_db, some working)
unfolding claim
claims_waiting = refl

nobody-UniqueTurns : UniqueTurns memory empty_db
nobody-UniqueTurns = λ id. omega arith

waiting-UniqueTurns : UniqueTurns memory waiting_db
waiting-UniqueTurns =
    λ id. elim (Bool-cases (5 == id)) [ inl y ↦ rw y (omega arith) | inr n ↦ rw n (omega arith) ]

schedule-Takes_example :
    Takes memory empty_db settings inbound 3 5 2000 waiting
    × (find_inbound memory scheduled_db 3
        ≡ some (
            joined memory
              (take_turn memory empty_db settings inbound question 5 2000).0
              question
              waiting))
schedule-Takes_example =
    schedule-Takes memory empty_db scheduled_db settings inbound 5 2000 question waiting refl refl
      schedules_question

schedule_idempotent_example :
    schedule memory scheduled_db (record { debounce = none; max_wait = none }) inbound 6 90_000
    ≡ ok (scheduled_db, waiting)
schedule_idempotent_example =
    schedule_idempotent memory empty_db scheduled_db settings
      (record { debounce = none; max_wait = none }) inbound 5 6 2000 90_000 question waiting
      nobody-UniqueTurns refl refl refl schedules_question

claim_leased_example : (claim memory working_db 5 700_000 71).1 ≡ none
claim_leased_example =
    claim_leased memory waiting_db working_db 5 6000 70 700_000 71 working waiting-UniqueTurns
      claims_waiting (omega arith)

other_token_refused_example :
    (memory.rows (complete memory working_db 5 71).inbound_turns ≡ working ∷ [])
    × (memory.rows (release memory working_db 5 71).inbound_turns ≡ working ∷ [])
other_token_refused_example =
    other_token_refused memory waiting_db working_db 5 6000 70 71 working waiting-UniqueTurns
      claims_waiting refl

completed_for_good_example :
    (find_pending memory (complete memory working_db 5 70) 5 ≡ none)
    × ((claim memory (complete memory working_db 5 70) 5 9_000_000 71).1 ≡ none)
completed_for_good_example =
    completed_for_good memory waiting_db working_db 5 6000 70 9_000_000 71 working
      waiting-UniqueTurns claims_waiting

recoverable-claimable_example :
    All (λ t. is_claimable t.id 6_000_000 t ≡ true) (recoverable memory working_db 6_000_000)
recoverable-claimable_example = recoverable-claimable memory working_db 6_000_000 (refl, tt)

-- The turn whose lease has ended is found.
recovers_working : recoverable memory working_db 6_000_000 ≡ working ∷ []
unfolding recoverable sort
recovers_working = refl

abbrev answered_db : Database memory
answered_db = complete memory (claim memory scheduled_db 5 6000 70).0 5 70

is_due : next_claim_at waiting < 6000
unfolding next_claim_at
is_due = omega arith

is_early : 4000 < next_claim_at waiting
unfolding next_claim_at
is_early = omega arith

claim_when_due_example :
    (claim memory waiting_db 5 6000 70).1 ≡ some (start_processing 6000 70 waiting)
claim_when_due_example =
    claim_when_due memory waiting_db 5 6000 70 waiting waiting-UniqueTurns refl refl refl is_due

claim_not_before_example : (claim memory waiting_db 5 4000 70).1 ≡ none
claim_not_before_example =
    claim_not_before memory waiting_db 5 4000 70 waiting waiting-UniqueTurns refl refl is_early
