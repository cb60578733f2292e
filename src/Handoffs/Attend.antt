-- ===== src/Handoffs/Attend.antt =====
-- `assign`, `resolve`, `getOpenHandoff` and `auditResolution` of
-- hermes-backend/src/handoff/handoff.service.ts.
use hermes_n8n.Prelude.{
  ℕ, Bool, true, false, not, ◌&&◌, Option, none, some, ◌==◌, String, if◌then◌else◌,
}
use hermes_n8n.Prisma.{Prisma}
use hermes_n8n.Schema.{Database}
use hermes_n8n.Schema.Messaging.{Conversation, ConversationStatus}
use hermes_n8n.Schema.Crm.{
  Handoff, HandoffStatus, ResolutionAction, is_open_handoff, Action, AuditLog,
}
use hermes_n8n.Outcome.{Result, ok, HttpError, ◌>>=◌, ◌>>◌, require, or_throw}
use hermes_n8n.Handoffs.Create.{is_for, hand_off}

pub record ResolveHandoff : Type 0 where
  pub action : ResolutionAction
  pub resolution : Option String

abbrev pub is_in_progress : HandoffStatus → Bool
is_in_progress HandoffStatus.in_progress = true
is_in_progress _ = false

-- `assignedAgentId && assignedAgentId !== agentId`.
abbrev pub is_anothers : ℕ → Option ℕ → Bool
is_anothers agent_id none = false
is_anothers agent_id (some k) = not (k == agent_id)

abbrev pub is_keep : ResolutionAction → Bool
is_keep ResolutionAction.keep_human = true
is_keep _ = false

abbrev pub status_after : ResolutionAction → ConversationStatus
status_after ResolutionAction.close_conversation = ConversationStatus.closed
status_after _ = ConversationStatus.active

abbrev pub closed_at_after : ResolutionAction → ℕ → Option ℕ
closed_at_after ResolutionAction.close_conversation now = some now
closed_at_after _ now = none

-- `handoff.assignedAgentId ?? actorUserId`.
abbrev pub agent_or : Option ℕ → ℕ → ℕ
agent_or none actor = actor
agent_or (some k) actor = k

-- `resolution: dto.resolution`, which leaves the field alone where it is undefined.
abbrev pub resolution_or : Option String → Option String → Option String
resolution_or none old = old
resolution_or (some s) old = some s

unfoldable pub take_over : ℕ → Handoff → Handoff
take_over agent_id h = record h {
  assigned_agent_id = some agent_id;
  status = HandoffStatus.in_progress;
}

unfoldable pub keep_human : Handoff → ResolveHandoff → ℕ → Handoff → Handoff
keep_human read dto actor h = record h {
  assigned_agent_id = some (agent_or read.assigned_agent_id actor);
  status = HandoffStatus.in_progress;
  resolution = resolution_or dto.resolution h.resolution;
}

-- The `metadata` of the update replaces what the creation wrote there.
unfoldable pub close_handoff : Handoff → ResolveHandoff → ℕ → ℕ → Handoff → Handoff
close_handoff read dto actor now h = record h {
  assigned_agent_id = some (agent_or read.assigned_agent_id actor);
  status = HandoffStatus.resolved;
  resolution = resolution_or dto.resolution h.resolution;
  resolved_at = some now;
  resolution_action = some dto.action;
  commercial_source = none;
}

unfoldable pub give_back : ResolutionAction → ℕ → Conversation → Conversation
give_back action now c = record c {
  status = status_after action;
  closed_at = closed_at_after action now;
}

module _ (px : Prisma) where
  open px use {find_unique, create, update}

  abbrev pub find_handoff : Database px → ℕ → Option Handoff
  find_handoff db id = find_unique (λ (h : Handoff). h.id == id) db.handoffs

  unfoldable pub get_open_handoff : Database px → ℕ → Result Handoff
  get_open_handoff db id = or_throw (find_handoff db id) HttpError.not_found >>= λ h.
      require (is_open_handoff h.status) HttpError.conflict >> ok h

  abbrev log : Database px → Action → ℕ → ℕ → Database px
  log db action user_id id =
      let entry : AuditLog = record { user_id = some user_id; action = action; entity_id = id } in
      record db { audit_logs = create entry db.audit_logs }

  unfoldable pub assign_open :
      Database px → Handoff → (id agent_id actor : ℕ) → Database px × Handoff
  unfolding take_over
  assign_open db h id agent_id actor =
      let updated : Database px = record db {
        handoffs = update (λ (a : Handoff). a.id == id) (take_over agent_id) db.handoffs;
      } in
      if is_in_progress h.status && is_for agent_id h.assigned_agent_id
      then (db, h)
      else (log updated Action.handoff_taken actor id, take_over agent_id h)

  unfoldable pub assign : Database px → (id agent_id actor : ℕ) → Result (Database px × Handoff)
  unfolding get_open_handoff assign_open
  assign db id agent_id actor = or_throw (find_handoff db id) HttpError.not_found >>= λ target.
      get_open_handoff db id >>= λ h.
      require (not (is_anothers agent_id h.assigned_agent_id)) HttpError.conflict
      >> ok (assign_open db h id agent_id actor)

  unfoldable pub audit_resolution : Database px → ℕ → ℕ → ResolutionAction → Database px
  audit_resolution db id user_id action =
      log db (if is_keep action then Action.handoff_kept_human else Action.handoff_resolved) user_id
        id

  unfoldable pub resolve_open :
      Database px → Handoff → ℕ → ResolveHandoff → (actor now : ℕ) → Database px × Handoff
  unfolding keep_human close_handoff give_back hand_off audit_resolution
  resolve_open db h id dto actor now =
      let row : Handoff → Handoff =
        if is_keep dto.action then keep_human h dto actor else close_handoff h dto actor now in
      let talk : Conversation → Conversation =
        if is_keep dto.action then hand_off else give_back dto.action now in
      let updated : Database px = record db {
        handoffs = update (λ (a : Handoff). a.id == id) row db.handoffs;
        conversations =
            update (λ (c : Conversation). c.id == h.conversation_id) talk db.conversations;
      } in
      (audit_resolution updated id actor dto.action, row h)

  unfoldable pub resolve :
      Database px → ℕ → ResolveHandoff → (actor now : ℕ) → Result (Database px × Handoff)
  unfolding get_open_handoff resolve_open
  resolve db id dto actor now = or_throw (find_handoff db id) HttpError.not_found >>= λ target.
      get_open_handoff db id >>= λ h.
      require (is_for actor h.assigned_agent_id) HttpError.conflict
      >> ok (resolve_open db h id dto actor now)
