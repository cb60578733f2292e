-- ===== src/Schema/Campaigns.antt =====
-- The rows of campaigns and their recipients, from hermes-backend/prisma/schema.prisma. The names,
-- the template and the number of recipients, which no modelled operation reads, are left out.
use hermes_n8n.Prelude.{ℕ, String, Bool, true, false, Option}

pub data CampaignStatus : Type 0 where
  draft ready running paused completed cancelled failed : CampaignStatus

pub record Campaign : Type 0 where
  pub id : ℕ
  pub status : CampaignStatus
  pub is_video_template : Bool
  pub header_video_media_id : Option String
  pub header_video_url : Option String
  pub started_at : Option ℕ
  pub completed_at : Option ℕ
  pub paused_at : Option ℕ

pub data RecipientStatus : Type 0 where
  pending queued sent delivered read replied failed skipped : RecipientStatus

pub record Recipient : Type 0 where
  pub id : ℕ
  pub campaign_id : ℕ
  pub contact_id : ℕ
  pub status : RecipientStatus
  pub wamid : Option ℕ
  pub send_attempted_at : Option ℕ
  pub meta_timestamp : Option ℕ
  pub sent_at : Option ℕ
  pub delivered_at : Option ℕ
  pub read_at : Option ℕ
  pub replied_at : Option ℕ
  pub failed_at : Option ℕ
  pub error_code : Option String
  pub error_message : Option String
  pub created_at : ℕ

abbrev pub is_running : CampaignStatus → Bool
is_running CampaignStatus.running = true
is_running _ = false

abbrev pub is_queued : RecipientStatus → Bool
is_queued RecipientStatus.queued = true
is_queued _ = false

-- `[PENDING, QUEUED].includes`.
abbrev pub is_open_recipient : RecipientStatus → Bool
is_open_recipient RecipientStatus.pending = true
is_open_recipient RecipientStatus.queued = true
is_open_recipient _ = false
