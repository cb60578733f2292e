-- ===== src/Payments/Policy.antt =====
-- hermes-backend/src/payments/transfer-intent.policy.ts. What its regular expressions find in the
-- message is an argument.
use hermes_n8n.Prelude.{ℕ, Bool, true, false, not, ◌||◌, ◌==◌, Option, String, if◌then◌else◌}
use hermes_n8n.Text.{is_truthy}

-- The four tests on the normalized message, in their order.
pub record Signals : Type 0 where
  pub negated : Bool
  pub mentions_account : Bool
  pub requests_details : Bool
  pub will_pay_now : Bool

pub record TransferIntentContext : Type 0 where
  pub service : Option String
  pub amount : ℕ
  pub lead_open : Bool
  pub has_approved_transfer : Bool
  pub has_active_account : Bool

pub data IntentReason : Type 0 where
  negation no_bank_details_request no_immediate_payment lead_not_open : IntentReason
  missing_commercial_context no_active_account approved : IntentReason

pub record Decision : Type 0 where
  pub approved : Bool
  pub reason : IntentReason

unfoldable pub analyze : Signals → TransferIntentContext → Decision
analyze s c =
    if s.negated
    then record { approved = false; reason = IntentReason.negation }
    else if not s.mentions_account
    then record { approved = false; reason = IntentReason.no_bank_details_request }
    else if not s.requests_details || not s.will_pay_now
    then record { approved = false; reason = IntentReason.no_immediate_payment }
    else if not c.lead_open || c.has_approved_transfer
    then record { approved = false; reason = IntentReason.lead_not_open }
    else if not (is_truthy c.service) || c.amount == 0
    then record { approved = false; reason = IntentReason.missing_commercial_context }
    else if not c.has_active_account
    then record { approved = false; reason = IntentReason.no_active_account }
    else record { approved = true; reason = IntentReason.approved }
