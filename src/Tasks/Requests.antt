-- ===== src/Tasks/Requests.antt =====
-- Tasks that conversations ask for: tasks.service.ts, requestCallback, requestQuote,
-- requestHermesReview and update. Each request is one transaction under the lock of its
-- conversation. Titles, descriptions and what else the metadata spell are left out.
use hermes_n8n.Prelude.{
  ℕ, ◌-◌, Bool, true, false, ◌&&◌, ◌==◌, holds, Option, none, some, List, [], ◌∷◌, ◌++◌,
  if◌then◌else◌, any, length, drop,
}
use hermes_n8n.Prisma.{Prisma, Order, desc}
use hermes_n8n.Outcome.{Result, ok, HttpError, or_throw, ◌>>=◌}
use hermes_n8n.Schema.{Database}
use hermes_n8n.Schema.Crm.{Task, TaskType, TaskStatus, ActionStatus, is_live_task, is_callback}

pub record Request : Type 0 where
  pub conversation_id : ℕ
  pub lead_id : Option ℕ
  pub source_message_id : ℕ
  pub requested_at : Option ℕ

-- The requests of the service.
pub data RequestKind : Type 0 where
  callback quote hermes_review : RequestKind

abbrev pub is_quote : TaskType → Bool
is_quote TaskType.quote = true
is_quote _ = false

abbrev pub is_general : TaskType → Bool
is_general TaskType.general = true
is_general _ = false

abbrev pub awaits_review : Option ActionStatus → Bool
awaits_review (some ActionStatus.pending_review) = true
awaits_review _ = false

-- The `where` of the task that a request joins.
unfoldable pub is_joinable : RequestKind → ℕ → Task → Bool
is_joinable callback conversation_id t =
    holds t.conversation_id conversation_id && (is_callback t.task_type && is_live_task t.status)
is_joinable quote conversation_id t =
    holds t.conversation_id conversation_id && (is_quote t.task_type && is_live_task t.status)
is_joinable hermes_review conversation_id t =
    holds t.conversation_id conversation_id
    && (is_general t.task_type && (is_live_task t.status && awaits_review t.action_status))

-- `a ?? b`.
abbrev pub or_else : Option ℕ → Option ℕ → Option ℕ
or_else none b = b
or_else (some a) b = some a

-- `[...ids, id].slice(-20)`.
unfoldable pub remember : List ℕ → ℕ → List ℕ
remember ids id = let all = ids ++ id ∷ [] in drop (length all - 20) all

unfoldable pub knows : ℕ → List ℕ → Bool
knows id ids = any (λ i. i == id) ids

unfoldable pub status_of : RequestKind → ActionStatus
status_of callback = ActionStatus.pending_confirmation
status_of quote = ActionStatus.pending_review
status_of hermes_review = ActionStatus.pending_review

unfoldable pub type_of : RequestKind → TaskType
type_of callback = TaskType.callback
type_of quote = TaskType.quote
type_of hermes_review = TaskType.general

-- Only a callback has a due time.
unfoldable pub due_of : RequestKind → Request → Option ℕ
due_of callback r = r.requested_at
due_of quote r = none
due_of hermes_review r = none

unfoldable pub join_task : RequestKind → Request → Task → Task
unfolding remember status_of due_of
join_task kind r t = record t {
  lead_id = or_else r.lead_id t.lead_id;
  due_at = or_else (due_of kind r) t.due_at;
  action_status = some (status_of kind);
  source_message_ids = remember t.source_message_ids r.source_message_id;
}

unfoldable pub new_task : RequestKind → Request → (id now : ℕ) → Task
unfolding remember status_of type_of due_of
new_task kind r id now = record {
  id = id;
  lead_id = r.lead_id;
  conversation_id = some r.conversation_id;
  assigned_user_id = none;
  task_type = type_of kind;
  status = TaskStatus.pending;
  due_at = due_of kind r;
  completed_at = none;
  transfer_payment_id = none;
  latest_message_id = none;
  action_status = some (status_of kind);
  source_message_ids = remember [] r.source_message_id;
  created_at = now;
}

-- The changes of `update` that are given.
pub record TaskChanges : Type 0 where
  pub lead_id : Option ℕ
  pub assigned_user_id : Option ℕ
  pub due_at : Option ℕ
  pub status : Option TaskStatus

abbrev pub is_completed : Option TaskStatus → Bool
is_completed (some TaskStatus.completed) = true
is_completed _ = false

abbrev status_or : Option TaskStatus → TaskStatus → TaskStatus
status_or none s = s
status_or (some s) t = s

unfoldable pub change_task : TaskChanges → ℕ → Task → Task
change_task changes now t = record t {
  lead_id = or_else changes.lead_id t.lead_id;
  assigned_user_id = or_else changes.assigned_user_id t.assigned_user_id;
  due_at = or_else changes.due_at t.due_at;
  status = status_or changes.status t.status;
  completed_at = if is_completed changes.status then some now else t.completed_at;
}

module _ (px : Prisma) where
  open px use {find_unique, find_first, create, update}

  abbrev pub newest : List (Order Task)
  newest = desc (λ (t : Task). t.created_at) ∷ []

  -- What the three methods have in common: the database and the task that the request has joined or
  -- created.
  unfoldable pub request : RequestKind → Request → (id now : ℕ) → Database px → Database px × Task
  unfolding is_joinable knows join_task new_task
  request kind r id now db =
      elim (find_first newest (is_joinable kind r.conversation_id) db.tasks) [
        | none ↦ let t = new_task kind r id now in (record db { tasks = create t db.tasks }, t)
        | some t ↦
            let joined : Database px = record db {
              tasks = update (λ (u : Task). u.id == t.id) (join_task kind r) db.tasks;
            } in
            if knows r.source_message_id t.source_message_ids
            then (db, t)
            else (joined, join_task kind r t)
      ]

  -- The methods of the service.
  unfoldable pub request_callback : Request → (id now : ℕ) → Database px → Database px × Task
  unfolding request
  request_callback r id now db = request callback r id now db

  unfoldable pub request_quote : Request → (id now : ℕ) → Database px → Database px × Task
  unfolding request
  request_quote r id now db = request quote r id now db

  unfoldable pub request_hermes_review : Request → (id now : ℕ) → Database px → Database px × Task
  unfolding request
  request_hermes_review r id now db = request hermes_review r id now db

  unfoldable pub update_task : Database px → ℕ → TaskChanges → ℕ → Result (Database px)
  unfolding change_task
  update_task db id changes now =
      or_throw (find_unique (λ (t : Task). t.id == id) db.tasks) HttpError.not_found >>= λ t.
      ok
        (record db { tasks = update (λ (u : Task). u.id == id) (change_task changes now) db.tasks })
