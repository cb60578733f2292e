-- ===== src/Schema/Crm.antt =====
-- The rows of handoffs, leads, tasks, audit logs and transfer payments, from
-- hermes-backend/prisma/schema.prisma. Amounts are counted in cents. The JSON of an audit log's
-- `changes`, which no operation reads, is left out, and so are the titles of tasks.
use hermes_n8n.Prelude.{ℕ, String, Bool, true, false, Option, List}

pub data HandoffStatus : Type 0 where
  pending assigned in_progress resolved cancelled : HandoffStatus

pub data ResolutionAction : Type 0 where
  return_to_hermes close_conversation keep_human : ResolutionAction

pub record Handoff : Type 0 where
  pub id : ℕ
  pub conversation_id : ℕ
  pub reason : ℕ
  pub reason_detail : Option String
  pub status : HandoffStatus
  pub assigned_agent_id : Option ℕ
  pub resolution : Option String
  pub resolution_action : Option ResolutionAction
  pub commercial_source : Option ℕ
  pub resolved_at : Option ℕ
  pub created_at : ℕ

-- `OPEN_HANDOFF_STATUSES.includes`.
abbrev pub is_open_handoff : HandoffStatus → Bool
is_open_handoff HandoffStatus.resolved = false
is_open_handoff HandoffStatus.cancelled = false
is_open_handoff _ = true

pub data LeadStage : Type 0 where
  new contacted qualified proposal negotiation payment_pending payment_review won lost : LeadStage

pub record Lead : Type 0 where
  pub id : ℕ
  pub contact_id : ℕ
  pub conversation_id : Option ℕ
  pub stage : LeadStage
  pub score : ℕ
  pub product_of_interest : Option String
  pub service_requested : Option String
  pub proposal_value : Option ℕ
  pub contracted_amount : Option ℕ
  pub revenue_received : Option ℕ
  pub commercial_currency : Option String
  pub contract_reference : Option String
  pub next_action : Option String
  pub last_commercial_handoff : Option ℕ
  pub won_at : Option ℕ
  pub created_at : ℕ

pub data TaskType : Type 0 where
  follow_up appointment callback quote demo general payment_verification : TaskType

pub data TaskStatus : Type 0 where
  pending in_progress completed cancelled : TaskStatus

-- `actionStatus` in the metadata of a task.
pub data ActionStatus : Type 0 where
  pending_confirmation pending_review : ActionStatus

pub record Task : Type 0 where
  pub id : ℕ
  pub lead_id : Option ℕ
  pub conversation_id : Option ℕ
  pub assigned_user_id : Option ℕ
  pub task_type : TaskType
  pub status : TaskStatus
  pub due_at : Option ℕ
  pub completed_at : Option ℕ
  pub transfer_payment_id : Option ℕ
  pub latest_message_id : Option ℕ
  pub action_status : Option ActionStatus
  pub source_message_ids : List ℕ
  pub created_at : ℕ

abbrev pub is_live_task : TaskStatus → Bool
is_live_task TaskStatus.pending = true
is_live_task TaskStatus.in_progress = true
is_live_task _ = false

abbrev pub is_pending_task : TaskStatus → Bool
is_pending_task TaskStatus.pending = true
is_pending_task _ = false

abbrev pub is_callback : TaskType → Bool
is_callback TaskType.callback = true
is_callback _ = false

abbrev pub is_payment_verification : TaskType → Bool
is_payment_verification TaskType.payment_verification = true
is_payment_verification _ = false

pub data Action : Type 0 where
  handoff_created handoff_taken handoff_kept_human handoff_resolved : Action
  transfer_instructions_prepared transfer_instructions_sent transfer_proof_received : Action
  transfer_review_started transfer_approved transfer_rejected : Action
  campaign_started campaign_paused campaign_cancelled campaign_contacts_imported : Action

pub record AuditLog : Type 0 where
  pub user_id : Option ℕ
  pub action : Action
  pub entity_id : ℕ

pub record BankAccount : Type 0 where
  pub id : ℕ
  pub bank_name : String
  pub account_holder : String
  pub holder_identification : Option String
  pub account_type : String
  pub account_number_encrypted : String
  pub currency : String
  pub instructions : Option String
  pub priority : ℕ
  pub is_active : Bool
  pub created_at : ℕ

pub data TransferStatus : Type 0 where
  instructions_prepared instructions_sent proof_received under_review approved : TransferStatus
  rejected cancelled expired : TransferStatus

pub record AccountSnapshot : Type 0 where
  pub bank_name : String
  pub account_holder : String
  pub holder_identification : Option String
  pub account_type : String
  pub account_number_encrypted : String
  pub currency : String
  pub instructions : Option String

pub record TransferPayment : Type 0 where
  pub id : ℕ
  pub lead_id : ℕ
  pub conversation_id : ℕ
  pub contact_id : ℕ
  pub bank_account_id : ℕ
  pub bank_account_snapshot : AccountSnapshot
  pub amount_expected : ℕ
  pub currency : String
  pub status : TransferStatus
  pub source_message_id : ℕ
  pub instructions_message_id : Option ℕ
  pub reviewed_proof_message_id : Option ℕ
  pub proof_received_at : Option ℕ
  pub review_started_at : Option ℕ
  pub approved_at : Option ℕ
  pub rejected_at : Option ℕ
  pub approved_by_user_id : Option ℕ
  pub rejected_by_user_id : Option ℕ
  pub review_note : Option String
  pub created_at : ℕ

pub record ProofMessage : Type 0 where
  pub message_id : ℕ
  pub transfer_payment_id : ℕ
  pub received_at : ℕ

-- `OPEN_STATUSES`, `REVIEW_STATUSES` and `INSTRUCTION_STATUSES` of payments.service.ts.
abbrev pub is_open_transfer : TransferStatus → Bool
is_open_transfer TransferStatus.instructions_prepared = true
is_open_transfer TransferStatus.instructions_sent = true
is_open_transfer TransferStatus.proof_received = true
is_open_transfer TransferStatus.under_review = true
is_open_transfer _ = false

abbrev pub is_review : TransferStatus → Bool
is_review TransferStatus.proof_received = true
is_review TransferStatus.under_review = true
is_review _ = false

abbrev pub is_instruction : TransferStatus → Bool
is_instruction TransferStatus.instructions_prepared = true
is_instruction TransferStatus.instructions_sent = true
is_instruction _ = false

pub data EventType : Type 0 where
  contract_won contract_lost other_event : EventType

abbrev pub is_contract_won : EventType → Bool
is_contract_won EventType.contract_won = true
is_contract_won _ = false

pub record Conversion : Type 0 where
  pub id : ℕ
  pub event_type : EventType
  pub lead_id : Option ℕ
  pub contact_id : Option ℕ
  pub occurred_at : ℕ
  pub verified_by_user_id : Option ℕ
  pub value : Option ℕ
  pub currency : Option String
  pub commercial_reference : Option String

pub record SyncJob : Type 0 where
  pub conversion_id : ℕ
  pub validate_only : Bool
