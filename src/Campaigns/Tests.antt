-- ===== src/Campaigns/Tests.antt =====
-- The campaigns at a database with one campaign and one recipient.
use hermes_n8n.Prelude.{
  map, List, ℕ, ◌≤◌, ◌≡◌, refl, true, false, ◌==◌, none, some, [], ◌∷◌, count, arith, Grows,
}
use hermes_n8n.Prisma.Sort.{sort}
use hermes_n8n.Prisma.Memory.{memory}
use hermes_n8n.Outcome.{Result, ok, err, HttpError}
use hermes_n8n.Schema.{Database}
use hermes_n8n.Schema.Campaigns.{Campaign, CampaignStatus, Recipient, RecipientStatus}
use hermes_n8n.Schema.Crm.{Action}
use hermes_n8n.Fixtures.{empty_db, someone}
use hermes_n8n.Schema.Messaging.{Consent}
use hermes_n8n.Campaigns.Import.{ImportRow, Summary, import_contacts, new_recipient}
use hermes_n8n.Campaigns.Summary.{Counts, Adds}
use hermes_n8n.Campaigns.Imported.{import_contacts-Adds}
use hermes_n8n.Campaigns.Send.{
  settle, CampaignJob, accepted, claim_recipient, process_send_job, complete_if_finished,
  find_campaign, mark_completed,
}
use hermes_n8n.Campaigns.Status.{Report, MetaStatus, mark_recipient_status, mark_replied}
use hermes_n8n.Campaigns.Control.{Environment, MediaAnswer, start, pause, cancel}
use hermes_n8n.Campaigns.Once.{Step, Reach, claim_recipient_once}
use hermes_n8n.Campaigns.Progress.{Advances, mark_recipient_status-Advances}
use hermes_n8n.Campaigns.Completion.{Completed, complete_if_finished-Completed}
use hermes_n8n.Campaigns.Calls.{Ready, Attempted, process_send_job-called}
use hermes_n8n.Campaigns.Final.{cancelled_for_good}

abbrev running : Campaign
running = record {
  id = 5;
  status = CampaignStatus.running;
  is_video_template = false;
  header_video_media_id = none;
  header_video_url = none;
  started_at = some 10;
  completed_at = none;
  paused_at = none;
}

abbrev waiting : Recipient
waiting = record {
  id = 9;
  campaign_id = 5;
  contact_id = 1;
  status = RecipientStatus.queued;
  wamid = none;
  send_attempted_at = none;
  meta_timestamp = none;
  sent_at = none;
  delivered_at = none;
  read_at = none;
  replied_at = none;
  failed_at = none;
  error_code = none;
  error_message = none;
  created_at = 10;
}

abbrev db : Database memory
db = record empty_db { campaigns = running ∷ []; recipients = waiting ∷ [] }

abbrev job : CampaignJob
job = record { campaign_id = 5; recipient_id = 9 }

abbrev alone : Database memory → Database memory
alone d = d

-- The job sends, and completes the campaign.
sent : (process_send_job memory alone alone db job (accepted 77) 100).1 ≡ true
unfolding process_send_job
sent = refl

abbrev sent_db : Database memory
sent_db = (process_send_job memory alone alone db job (accepted 77) 100).0

campaign_completed : find_campaign memory sent_db 5 ≡ some (mark_completed 100 running)
unfolding find_campaign process_send_job
campaign_completed = refl

abbrev claimed_db : Database memory
claimed_db = (claim_recipient memory db 9 100).0

claimed : (claim_recipient memory db 9 100).1 ≡ 1
unfolding claim_recipient
claimed = refl

unique : (id : ℕ) → count (λ (r : Recipient). r.id == id) (waiting ∷ []) ≤ 1
unique id = ground arith

abbrev replied_db : Database memory
replied_db = mark_replied memory claimed_db 1 150

claim_recipient_once_example : (claim_recipient memory replied_db 9 200).1 ≡ 0
claim_recipient_once_example =
    claim_recipient_once memory 9 db 100 replied_db 200 (unique 9) claimed
      (Reach.next Reach.here (Step.replies 1 150))

abbrev report : Report
report = record {
  wamid = 77;
  status = MetaStatus.delivered;
  timestamp = some 1;
  error_code = none;
  error_message = none;
}

abbrev reached : Recipient
reached = record waiting { status = RecipientStatus.sent; wamid = some 77 }

abbrev reached_db : Database memory
reached_db = record db { recipients = reached ∷ [] }

unique_reached : (id : ℕ) → count (λ (r : Recipient). r.id == id) (reached ∷ []) ≤ 1
unique_reached id = ground arith

mark_recipient_status-Advances_example :
    Grows Advances
      (λ r. ⊥)
      (reached ∷ [])
      (mark_recipient_status memory reached_db report 300).recipients
mark_recipient_status-Advances_example =
    mark_recipient_status-Advances memory reached_db report 300 unique_reached

running_found : find_campaign memory db 5 ≡ some running
unfolding find_campaign
running_found = refl

abbrev answered_db : Database memory
answered_db = record db { recipients = record waiting { status = RecipientStatus.replied } ∷ [] }

answered_found : find_campaign memory answered_db 5 ≡ some running
unfolding find_campaign
answered_found = refl

complete_if_finished-Completed_example :
    Completed memory answered_db (complete_if_finished memory answered_db 5 100) 5 100 running
complete_if_finished-Completed_example =
    complete_if_finished-Completed memory answered_db 5 100 running answered_found

process_send_job-called_example :
    (r : Recipient) × Ready memory db job r
    × Attempted memory db (claim_recipient memory db r.id 100).0 r.id 100
process_send_job-called_example =
    process_send_job-called memory alone alone db job (accepted 77) 100 sent

abbrev env : Environment
env = record {
  enabled = true;
  is_safe_media_url = λ u. true;
  media_metadata = λ m. MediaAnswer.unavailable;
}

abbrev cancelled_db : Database memory
cancelled_db = record db {
  campaigns = record running { status = CampaignStatus.cancelled; completed_at = some 100 } ∷ [];
  audit_logs = record { user_id = some 2; action = Action.campaign_cancelled; entity_id = 5 } ∷ [];
}

cancels : cancel memory alone db 5 2 100 ≡ ok cancelled_db
unfolding cancel
cancels = refl

cancelled_for_good_example :
    (start memory env alone cancelled_db 5 2 200 ≡ err HttpError.bad_request)
    × (pause memory alone cancelled_db 5 2 200 ≡ err HttpError.bad_request)
    × (cancel memory alone cancelled_db 5 2 200 ≡ err HttpError.bad_request)
cancelled_for_good_example =
    cancelled_for_good memory env alone alone db 5 2 100 running cancelled_db 2 200 refl cancels
      running_found

abbrev draft_db : Database memory
draft_db = record db {
  campaigns = record running { status = CampaignStatus.draft } ∷ [];
  recipients = [];
}

-- A number, the same number with another spelling, and a number without a country.
abbrev file : List ImportRow
file =
    record {
      phone = 48 ∷ 57 ∷ 57 ∷ 49 ∷ 49 ∷ 49 ∷ 49 ∷ 49 ∷ 49 ∷ 49 ∷ [];
      consent = some (49 ∷ []);
      new_contact_id = 70;
      new_recipient_id = 80;
      now = 50;
    }
    ∷ record {
      phone = 43 ∷ 53 ∷ 57 ∷ 51 ∷ 57 ∷ 57 ∷ 49 ∷ 49 ∷ 49 ∷ 49 ∷ 49 ∷ 49 ∷ 49 ∷ [];
      consent = none;
      new_contact_id = 71;
      new_recipient_id = 81;
      now = 50;
    }
    ∷ record {
      phone = 49 ∷ 50 ∷ 51 ∷ 52 ∷ 53 ∷ 54 ∷ 55 ∷ 56 ∷ [];
      consent = none;
      new_contact_id = 72;
      new_recipient_id = 82;
      now = 50;
    }
    ∷ []

abbrev counted : Summary
counted = record {
  valid = 1;
  invalid = 1;
  duplicates = 1;
  without_consent = 0;
  eligible = 1;
  imported = 1;
}

abbrev imported_db : Database memory
imported_db = record draft_db {
  contacts =
      someone
      ∷ record { id = 70; wa_id = 593991111111; marketing_consent_status = Consent.opted_in }
      ∷ [];
  campaigns = record running { status = CampaignStatus.ready } ∷ [];
  recipients = new_recipient 80 5 70 50 ∷ [];
  audit_logs =
      record { user_id = some 2; action = Action.campaign_contacts_imported; entity_id = 5 } ∷ [];
}

imports : import_contacts memory (λ t. t) draft_db 5 file 2 ≡ ok (imported_db, counted)
unfolding import_contacts
imports = refl

import_contacts-Adds_example : Counts 3 counted × Adds 5 [] (new_recipient 80 5 70 50 ∷ [])
import_contacts-Adds_example =
    import_contacts-Adds memory (λ t. t) draft_db 5 file 2 imported_db counted imports

abbrev paused_db : Database memory
paused_db = record db { campaigns = record running { status = CampaignStatus.paused } ∷ [] }

-- A job that was under way before the pause sends after start has read and before it writes.
abbrev late_send : Database memory → Database memory
late_send d = (settle memory (claim_recipient memory d 9 150).0 waiting job (accepted 77) 160).0

abbrev statuses : Result (Database memory × List ℕ) → List RecipientStatus
statuses (err e) = []
statuses (ok (d, jobs)) = map (λ (r : Recipient). r.status) d.recipients

-- The write of start takes the status from what it has read.
late_send_reverted :
    statuses (start memory env late_send paused_db 5 2 200) ≡ RecipientStatus.queued ∷ []
unfolding start sort settle claim_recipient
late_send_reverted = refl
