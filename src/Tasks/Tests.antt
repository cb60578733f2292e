-- ===== src/Tasks/Tests.antt =====
-- Requests of a conversation without tasks.
use hermes_n8n.Prisma.Sort.{first}
use hermes_n8n.Prelude.{ℕ, ◌≤◌, ◌≡◌, refl, none, some, ◌==◌, count, arith, [], ◌∷◌}
use hermes_n8n.Prisma.Memory.{memory}
use hermes_n8n.Schema.{Database}
use hermes_n8n.Schema.Crm.{Task}
use hermes_n8n.Fixtures.{empty_db}
use hermes_n8n.Tasks.Requests.{Request, RequestKind, request, is_joinable, new_task}
use hermes_n8n.Tasks.Again.{request_again}

abbrev call_me : Request
call_me = record {
  conversation_id = 2;
  lead_id = none;
  source_message_id = 3;
  requested_at = some 5000;
}

abbrev call_later : Request
call_later = record {
  conversation_id = 2;
  lead_id = none;
  source_message_id = 4;
  requested_at = some 9000;
}

abbrev first_task : Task
first_task = new_task RequestKind.callback call_me 40 100

abbrev asked : Database memory
asked = record empty_db { tasks = first_task ∷ [] }

-- A second message joins the task of the first.
second_joins : (request memory RequestKind.callback call_later 41 200 asked).1.id ≡ 40
unfolding request first
second_joins = refl

unique : (k : ℕ) → count (λ (t : Task). t.id == k) (first_task ∷ []) ≤ 1
unique k = ground arith

one_live : count (is_joinable RequestKind.callback 2) (first_task ∷ []) ≤ 1
unfolding is_joinable new_task
one_live = omega arith

request_again_example :
    (count
        (is_joinable RequestKind.callback 2)
        ((request memory RequestKind.callback call_later 41 200 asked).0.tasks)
      ≤ 1)
    × (request memory RequestKind.callback call_later 42 300
          (request memory RequestKind.callback call_later 41 200 asked).0
        ≡ request memory RequestKind.callback call_later 41 200 asked)
request_again_example =
    request_again memory RequestKind.callback call_later asked 41 200 42 300 unique one_live
