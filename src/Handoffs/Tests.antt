-- ===== src/Handoffs/Tests.antt =====
-- Runs of the handoffs on a database in memory, at which their theorems apply.
use hermes_n8n.Prisma.Sort.{first}
use hermes_n8n.Prelude.{◌≡◌, refl, true, false, none, some, [], ◌∷◌, arith}
use hermes_n8n.Prisma.Memory.{memory}
use hermes_n8n.Schema.{Database}
use hermes_n8n.Schema.Messaging.{ConversationStatus}
use hermes_n8n.Schema.Crm.{Handoff, HandoffStatus, ResolutionAction, Action}
use hermes_n8n.Outcome.{ok, err, HttpError}
use hermes_n8n.Fixtures.{empty_db, talk}
use hermes_n8n.Handoffs.Create.{CreateHandoff, create_handoff}
use hermes_n8n.Handoffs.Attend.{ResolveHandoff, assign, resolve}
use hermes_n8n.Handoffs.Single.{Reach, Step, Reach-IsSingle}
use hermes_n8n.Handoffs.Invariant.{IsSingle}
use hermes_n8n.Handoffs.Agents.{assign_exclusive, resolved_for_good}

abbrev asked : CreateHandoff
asked = record { conversation_id = 2; reason = 1; reason_detail = none }

abbrev open_handoff : Handoff
open_handoff = record {
  id = 8;
  conversation_id = 2;
  reason = 1;
  reason_detail = none;
  status = HandoffStatus.pending;
  assigned_agent_id = none;
  resolution = none;
  resolution_action = none;
  commercial_source = none;
  resolved_at = none;
  created_at = 3000;
}

abbrev taken : Handoff
taken = record open_handoff { status = HandoffStatus.in_progress; assigned_agent_id = some 50 }

abbrev open_db : Database memory
open_db = record empty_db {
  conversations = record talk { status = ConversationStatus.handed_off } ∷ [];
  handoffs = open_handoff ∷ [];
}

abbrev closing : ResolveHandoff
closing = record { action = ResolutionAction.close_conversation; resolution = none }

abbrev finished : Handoff
finished = record taken {
  status = HandoffStatus.resolved;
  resolved_at = some 4000;
  resolution_action = some ResolutionAction.close_conversation;
}

opens :
    create_handoff memory empty_db asked none none 8 9 3000
    ≡ ok (open_db, record { handoff = open_handoff; created = true; stage_changed = false })
unfolding create_handoff first
opens = refl

abbrev taken_db : Database memory
taken_db = record open_db {
  handoffs = taken ∷ [];
  audit_logs = record { user_id = some 50; action = Action.handoff_taken; entity_id = 8 } ∷ [];
}

takes : assign memory open_db 8 50 50 ≡ ok (taken_db, taken)
unfolding assign
takes = refl

abbrev closed_db : Database memory
closed_db = record taken_db {
  conversations = record talk { status = ConversationStatus.closed; closed_at = some 4000 } ∷ [];
  handoffs = finished ∷ [];
  audit_logs =
      record { user_id = some 50; action = Action.handoff_taken; entity_id = 8 }
      ∷ record { user_id = some 50; action = Action.handoff_resolved; entity_id = 8 }
      ∷ [];
}

closes : resolve memory taken_db 8 closing 50 4000 ≡ ok (closed_db, finished)
unfolding resolve
closes = refl

assign_exclusive_example :
    (assign memory taken_db 8 50 51 ≡ ok (taken_db, taken))
    × (assign memory taken_db 8 60 51 ≡ err HttpError.conflict)
    × (resolve memory taken_db 8 closing 60 4000 ≡ err HttpError.conflict)
assign_exclusive_example =
    assign_exclusive memory open_db taken_db 8 50 50 51 60 4000 closing taken takes refl

resolved_for_good_example :
    (assign memory closed_db 8 60 60 ≡ err HttpError.conflict)
    × (resolve memory closed_db 8 closing 50 5000 ≡ err HttpError.conflict)
unfolding resolve
resolved_for_good_example =
    resolved_for_good memory taken_db closed_db 8 50 60 60 4000 5000 closing closing finished refl
      closes

none-IsSingle : IsSingle memory empty_db.handoffs
none-IsSingle = record { unique = λ id. omega arith; one_open = λ c. omega arith }

attends : Reach memory empty_db closed_db
attends =
    Reach.next
      (Reach.next
        (Reach.next Reach.here (
          Step.creates asked none none 8 9 3000
            (record { handoff = open_handoff; created = true; stage_changed = false }) refl opens))
        (Step.assigns 8 50 50 taken takes))
      (Step.resolves 8 closing 50 4000 finished closes)

Reach-IsSingle_example : IsSingle memory closed_db.handoffs
Reach-IsSingle_example = Reach-IsSingle memory empty_db closed_db none-IsSingle attends
