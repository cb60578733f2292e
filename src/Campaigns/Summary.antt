-- ===== src/Campaigns/Summary.antt =====
-- The summary and the recipients of an import: campaigns.service.ts, importContacts.
use hermes_n8n.Prelude.{ℕ, suc, ◌+◌, ◌≡◌, refl, none, List, Grows, arith}
use hermes_n8n.Schema.Campaigns.{Recipient, RecipientStatus}
use hermes_n8n.Campaigns.Import.{
  Summary, count_invalid, count_duplicate, count_unwilling, count_imported, new_recipient,
}

-- The summary of `n` rows: each is valid, invalid or a duplicate, each valid one has no consent or is
-- eligible, and the eligible ones are imported.
pub record Counts (n : ℕ) (s : Summary) : Type 0 where
  pub rows_counted : s.valid + s.invalid + s.duplicates ≡ n
  pub valid_counted : s.valid ≡ s.without_consent + s.eligible
  pub all_imported : s.imported ≡ s.eligible

-- A recipient that waits for the start of a campaign.
pub record IsWaiting (campaign_id : ℕ) (r : Recipient) : Type 0 where
  pub of_campaign : r.campaign_id ≡ campaign_id
  pub pending : r.status ≡ RecipientStatus.pending
  pub unsent : r.wamid ≡ none
  pub unattempted : r.send_attempted_at ≡ none

-- The recipients before an import stay as they are, and new ones wait.
abbrev pub Adds : ℕ → List Recipient → List Recipient → Type 0
Adds campaign_id = Grows (λ a b. b ≡ a) (IsWaiting campaign_id)

pub new-IsWaiting :
    (id campaign_id contact_id now : ℕ)
    → IsWaiting campaign_id (new_recipient id campaign_id contact_id now)
unfolding new_recipient
new-IsWaiting id campaign_id contact_id now = record {
  of_campaign = refl;
  pending = refl;
  unsent = refl;
  unattempted = refl;
}

pub counted_invalid : (n : ℕ) (s : Summary) → Counts n s → Counts (suc n) (count_invalid s)
counted_invalid n s c = record {
  rows_counted = omega (arith, c.rows_counted);
  valid_counted = omega (arith, c.valid_counted);
  all_imported = omega (arith, c.all_imported);
}

pub counted_duplicate : (n : ℕ) (s : Summary) → Counts n s → Counts (suc n) (count_duplicate s)
counted_duplicate n s c = record {
  rows_counted = omega (arith, c.rows_counted);
  valid_counted = omega (arith, c.valid_counted);
  all_imported = omega (arith, c.all_imported);
}

pub counted_unwilling : (n : ℕ) (s : Summary) → Counts n s → Counts (suc n) (count_unwilling s)
counted_unwilling n s c = record {
  rows_counted = omega (arith, c.rows_counted);
  valid_counted = omega (arith, c.valid_counted);
  all_imported = omega (arith, c.all_imported);
}

pub counted_imported : (n : ℕ) (s : Summary) → Counts n s → Counts (suc n) (count_imported s)
counted_imported n s c = record {
  rows_counted = omega (arith, c.rows_counted);
  valid_counted = omega (arith, c.valid_counted);
  all_imported = omega (arith, c.all_imported);
}
