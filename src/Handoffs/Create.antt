-- ===== src/Handoffs/Create.antt =====
-- `create` of hermes-backend/src/handoff/handoff.service.ts, up to the event it publishes.
use hermes_n8n.Prelude.{
  [], not, ℕ, Bool, true, false, ◌&&◌, Option, none, some, [], ◌∷◌, ◌==◌, String, if◌then◌else◌,
}
use hermes_n8n.Prisma.{Prisma, desc}
use hermes_n8n.Schema.{Database}
use hermes_n8n.Schema.Messaging.{Conversation, ConversationStatus}
use hermes_n8n.Schema.Crm.{
  Handoff, HandoffStatus, is_open_handoff, Lead, LeadStage, Task, TaskType, TaskStatus, is_callback,
  is_live_task, Action, AuditLog,
}
use hermes_n8n.Outcome.{Result, ok, HttpError, ◌>>=◌, ◌>>◌, require, or_throw}

pub record CreateHandoff : Type 0 where
  pub conversation_id : ℕ
  pub reason : ℕ
  pub reason_detail : Option String

-- The third argument of `create`.
pub record Commercial : Type 0 where
  pub source_message_id : ℕ
  pub call_requested : Bool

-- What the transaction returns.
pub record Opened : Type 0 where
  pub handoff : Handoff
  pub created : Bool
  pub stage_changed : Bool

abbrev pub is_closed : ConversationStatus → Bool
is_closed ConversationStatus.closed = true
is_closed _ = false

abbrev pub is_new : LeadStage → Bool
is_new LeadStage.new = true
is_new _ = false

abbrev pub source_of : Option Commercial → Option ℕ
source_of none = none
source_of (some c) = some c.source_message_id

abbrev pub is_for : ℕ → Option ℕ → Bool
is_for id none = false
is_for id (some k) = k == id

unfoldable pub new_handoff : CreateHandoff → Option Commercial → ℕ → ℕ → Handoff
new_handoff dto commercial id now = record {
  id = id;
  conversation_id = dto.conversation_id;
  reason = dto.reason;
  reason_detail = dto.reason_detail;
  status = HandoffStatus.pending;
  assigned_agent_id = none;
  resolution = none;
  resolution_action = none;
  commercial_source = source_of commercial;
  resolved_at = none;
  created_at = now;
}

unfoldable pub contacted : Commercial → Lead → Lead
contacted c l = record l {
  stage = LeadStage.contacted;
  next_action = some "Atender solicitud de asesor";
  last_commercial_handoff = some c.source_message_id;
}

unfoldable pub hand_off : Conversation → Conversation
hand_off c = record c { status = ConversationStatus.handed_off; closed_at = none }

module _ (px : Prisma) where
  open px use {find_unique, find_first, create as insert, update}

  abbrev pub conversation_of : Database px → ℕ → Option Conversation
  conversation_of db id = find_unique (λ (c : Conversation). c.id == id) db.conversations

  abbrev pub is_open_of : ℕ → Handoff → Bool
  is_open_of conversation_id h = h.conversation_id == conversation_id && is_open_handoff h.status

  abbrev is_live_callback : ℕ → Task → Bool
  is_live_callback conversation_id t =
      is_for conversation_id t.conversation_id && is_callback t.task_type && is_live_task t.status

  abbrev callback_task : ℕ → ℕ → ℕ → ℕ → Task
  callback_task conversation_id lead_id task_id now = record {
    id = task_id;
    lead_id = some lead_id;
    conversation_id = some conversation_id;
    assigned_user_id = none;
    task_type = TaskType.callback;
    status = TaskStatus.pending;
    due_at = none;
    completed_at = none;
    transfer_payment_id = none;
    latest_message_id = none;
    action_status = none;
    source_message_ids = [];
    created_at = now;
  }

  -- The task of the call that the contact asked for, unless one is under way. Its metadata
  -- has neither an action status nor a list of messages.
  unfoldable pub request_callback : Database px → ℕ → ℕ → Commercial → ℕ → ℕ → Database px
  request_callback db conversation_id lead_id c task_id now =
      let with_task : Database px = record db {
        tasks = insert (callback_task conversation_id lead_id task_id now) db.tasks;
      } in
      let requested : Database px =
        elim (find_first [] (is_live_callback conversation_id) db.tasks) [
          | some t ↦ db
          | none ↦ with_task
        ] in
      if c.call_requested then requested else db

  -- The stage of the lead of a commercial handoff.
  unfoldable pub advance_lead : Database px → Lead → Commercial → Database px
  unfolding contacted
  advance_lead db lead c =
      if is_new lead.stage
      then record db { leads = update (λ (l : Lead). l.id == lead.id) (contacted c) db.leads }
      else db

  unfoldable pub commercial_steps :
      Database px
      → Conversation
      → ℕ
      → Option Commercial
      → (task_id now : ℕ) → Result (Database px × Bool)
  unfolding advance_lead request_callback
  commercial_steps db conversation conversation_id none task_id now = ok (db, false)
  commercial_steps db conversation conversation_id (some c) task_id now =
      or_throw
        (find_first (desc (λ (l : Lead). l.created_at) ∷ [])
          (λ l. l.contact_id == conversation.contact_id && is_for conversation_id l.conversation_id)
          db.leads)
        HttpError.not_found
      >>= λ lead. ok (
        request_callback (advance_lead db lead c) conversation_id lead.id c task_id now,
        is_new lead.stage,
      )

  abbrev created_log : ℕ → ℕ → AuditLog
  created_log user_id id = record {
    user_id = some user_id;
    action = Action.handoff_created;
    entity_id = id;
  }

  unfoldable pub log_created : Database px → Option ℕ → ℕ → Database px
  log_created db none id = db
  log_created db (some user_id) id = record db {
    audit_logs = insert (created_log user_id id) db.audit_logs;
  }

  unfoldable pub reuse_or_open :
      Database px
      → CreateHandoff
      → (actor : Option ℕ) → Option Commercial
      → Bool
      → (id now : ℕ) → Database px × Opened
  unfolding new_handoff hand_off log_created
  reuse_or_open db dto actor commercial stage_changed id now =
      let existing =
        find_first (desc (λ (h : Handoff). h.created_at) ∷ []) (is_open_of dto.conversation_id)
          db.handoffs in
      let taken : Database px = record db {
        conversations =
            update (λ (c : Conversation). c.id == dto.conversation_id) hand_off db.conversations;
      } in
      elim existing [
        | some h ↦ (taken, record { handoff = h; created = false; stage_changed = stage_changed })
        | none ↦
            let h = new_handoff dto commercial id now in
            let opened : Database px = record taken { handoffs = insert h taken.handoffs } in
            (
              log_created opened actor id,
              record { handoff = h; created = true; stage_changed = stage_changed },
            )
      ]

  unfoldable pub create_handoff :
      Database px
      → CreateHandoff
      → (actor : Option ℕ) → Option Commercial
      → (id task_id now : ℕ) → Result (Database px × Opened)
  unfolding commercial_steps reuse_or_open
  create_handoff db dto actor commercial id task_id now =
      or_throw (conversation_of db dto.conversation_id) HttpError.not_found >>= λ conversation.
      require (not (is_closed conversation.status)) HttpError.conflict
      >> (commercial_steps db conversation dto.conversation_id commercial task_id now
          >>= λ (steps, stage_changed).
              ok (reuse_or_open steps dto actor commercial stage_changed id now))
