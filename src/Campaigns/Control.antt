-- ===== src/Campaigns/Control.antt =====
-- What operators do with a campaign: campaigns.service.ts, start, resume, pause, cancel,
-- assertCampaignMediaSnapshot, assertSafeHeader, requireCampaign, requireState and
-- assertCampaignsEnabled. An operation reads first and writes later: what other workers do in between
-- is a function of the database. The transaction of start is one write. The details of an audit log
-- are left out; a missing contact of a recipient counts as one that has not opted in.
use hermes_n8n.Prelude.{
  ℕ, Bool, true, false, not, ◌&&◌, ◌==◌, Option, none, some, is_some, String, List, [], ◌∷◌, map,
  length, if◌then◌else◌, select,
}
use text.Mathlib.Text.{◌==◌ as str_eq}
use hermes_n8n.Text.{is_truthy}
use hermes_n8n.Prisma.{Prisma}
use hermes_n8n.Outcome.{Result, ok, err, HttpError, or_throw, require, ◌>>=◌, ◌>>◌}
use hermes_n8n.Schema.{Database}
use hermes_n8n.Schema.Crm.{Action}
use hermes_n8n.Schema.Campaigns.{Campaign, CampaignStatus, Recipient, RecipientStatus, is_running}
use hermes_n8n.Campaigns.Send.{
  find_campaign, has_opted_in, is_open_in, write_campaign, write_recipient,
}

-- What Meta says of a video: its type, if it gives one, or an exception.
pub data MediaAnswer : Type 0 where
  mime_type : Option String → MediaAnswer
  unavailable : MediaAnswer

-- `isSafeMediaUrl` and `getCampaignMediaMetadata` of the client of Meta, and CAMPAIGNS_ENABLED.
pub record Environment : Type 0 where
  pub enabled : Bool
  pub is_safe_media_url : String → Bool
  pub media_metadata : String → MediaAnswer

unfoldable pub is_startable : CampaignStatus → Bool
is_startable CampaignStatus.draft = true
is_startable CampaignStatus.ready = true
is_startable CampaignStatus.paused = true
is_startable _ = false

unfoldable pub is_final : CampaignStatus → Bool
is_final CampaignStatus.completed = true
is_final CampaignStatus.cancelled = true
is_final _ = false

unfoldable pub is_wrong_type : MediaAnswer → Bool
is_wrong_type unavailable = true
is_wrong_type (mime_type none) = false
is_wrong_type (mime_type (some mime)) = is_truthy (some mime) && not (str_eq mime "video/mp4")

abbrev url_is_safe : Environment → Option String → Bool
url_is_safe env none = true
url_is_safe env (some url) = env.is_safe_media_url url

-- `value || undefined`.
abbrev given : Option String → Option String
given value = if is_truthy value then value else none

unfoldable pub assert_safe_header : Environment → (media url : Option String) → Result (Unit {0})
assert_safe_header env media url =
    require (not (is_some media && is_some url)) HttpError.bad_request
    >> require (url_is_safe env url) HttpError.bad_request

unfoldable pub assert_media_snapshot : Environment → Campaign → Result (Unit {0})
unfolding assert_safe_header is_wrong_type
assert_media_snapshot env campaign =
    let media = given campaign.header_video_media_id in
    let url = given campaign.header_video_url in
    let header = assert_safe_header env media url in
    let checked : Result (Unit {0}) = elim media [
      | none ↦ ok tt
      | some id ↦ require (not (is_wrong_type (env.media_metadata id))) HttpError.bad_request
    ] in
    if not campaign.is_video_template
    then ok tt
    else if not (is_some media) && not (is_some url)
    then err HttpError.bad_request
    else header >> checked

-- `startedAt: campaign.startedAt || new Date()`.
unfoldable pub mark_running : Option ℕ → ℕ → Campaign → Campaign
mark_running started now c = record c {
  status = CampaignStatus.running;
  started_at = elim started [ none ↦ some now | some at ↦ some at ];
  paused_at = none;
}

unfoldable pub mark_paused : ℕ → Campaign → Campaign
mark_paused now c = record c { status = CampaignStatus.paused; paused_at = some now }

unfoldable pub mark_cancelled : ℕ → Campaign → Campaign
mark_cancelled now c = record c { status = CampaignStatus.cancelled; completed_at = some now }

-- A recipient with the consent that was read for it.
pub record Candidate : Type 0 where
  pub recipient_id : ℕ
  pub opted_in : Bool

unfoldable pub mark_started : Bool → Recipient → Recipient
mark_started opted_in r = record r {
  status = if opted_in then RecipientStatus.queued else RecipientStatus.skipped;
}

module _ (px : Prisma) where
  open px use {find_many, create}

  unfoldable pub audit : Database px → Action → (user_id campaign_id : ℕ) → Database px
  audit db action user_id campaign_id = record db {
    audit_logs =
        create (record { user_id = some user_id; action = action; entity_id = campaign_id })
          db.audit_logs;
  }

  unfoldable pub require_campaign : Database px → ℕ → Result Campaign
  unfolding find_campaign
  require_campaign db id = or_throw (find_campaign px db id) HttpError.not_found

  unfoldable pub candidates : Database px → ℕ → List Candidate
  unfolding is_open_in has_opted_in
  candidates db id =
      map
        (λ (r : Recipient). record {
          recipient_id = r.id;
          opted_in = has_opted_in px db r.contact_id;
        })
        (find_many [] (is_open_in id) db.recipients)

  unfoldable pub write_candidates : List Candidate → Database px → Database px
  unfolding mark_started
  write_candidates [] db = db
  write_candidates (c ∷ cs) db =
      write_candidates cs (write_recipient px c.recipient_id (mark_started c.opted_in) db)

  -- The transaction of start.
  unfoldable pub write_start : Campaign → List Candidate → ℕ → Database px → Database px
  unfolding mark_running write_candidates
  write_start campaign cs now db =
      write_candidates cs (write_campaign px campaign.id (mark_running campaign.started_at now) db)

  -- The database, and the recipients for which a job is queued.
  unfoldable pub start :
      Environment
      → (others : Database px → Database px) → Database px
      → (id user_id now : ℕ) → Result (Database px × List ℕ)
  unfolding require_campaign is_startable assert_media_snapshot candidates write_start audit
  start env others db id user_id now =
      require env.enabled HttpError.forbidden >> require_campaign db id >>= λ campaign.
      require (is_startable campaign.status) HttpError.bad_request
      >> assert_media_snapshot env campaign
      >> (let cs = candidates db id in
          require (not (length cs == 0)) HttpError.bad_request
          >> ok (
            audit (write_start campaign cs now (others db)) Action.campaign_started user_id id,
            map (λ (c : Candidate). c.recipient_id) (select (λ (c : Candidate). c.opted_in) cs),
          ))

  unfoldable pub pause :
      (others : Database px → Database px)
      → Database px
      → (id user_id now : ℕ) → Result (Database px)
  unfolding require_campaign mark_paused audit
  pause others db id user_id now = require_campaign db id >>= λ campaign.
      require (is_running campaign.status) HttpError.bad_request
      >> ok (
          audit (write_campaign px id (mark_paused now) (others db)) Action.campaign_paused user_id
            id)

  unfoldable pub cancel :
      (others : Database px → Database px)
      → Database px
      → (id user_id now : ℕ) → Result (Database px)
  unfolding require_campaign is_final mark_cancelled audit
  cancel others db id user_id now = require_campaign db id >>= λ campaign.
      require (not (is_final campaign.status)) HttpError.bad_request
      >> ok (
          audit (write_campaign px id (mark_cancelled now) (others db)) Action.campaign_cancelled
            user_id id)
