-- ===== src/Guard/Quota.antt =====
-- The counters and marks of conversation-guard.service.ts: incrementWithExpiry, claimNotice,
-- setCooldown and consumeAiQuota. A failed connection and a failed command are the same here; the
-- two counters of consumeAiQuota are sent in the order of the source.
use hermes_n8n.Prelude.{ℕ, ◌*◌, ◌/◌, Bool, false, not, ◌||◌, ltb, Option, none, some}
use hermes_n8n.Guard.Keys.{NoticeKind, cooldown, notice, ai_contact, ai_global}
use hermes_n8n.Guard.Redis.{Redis}
use hermes_n8n.Guard.Content.{Settings, positive_integer, fail_closed}

-- `now.toISOString().slice(0, 10)` and `.slice(0, 13)` name the day and the hour.
abbrev pub day_of : ℕ → ℕ
day_of now = now / 86400000

abbrev pub hour_of : ℕ → ℕ
hour_of now = now / 3600000

abbrev pub notice_cooldown : Settings → ℕ
notice_cooldown settings = positive_integer settings.notice_cooldown_seconds 1800

abbrev pub spam_cooldown : Settings → ℕ
spam_cooldown settings = positive_integer settings.spam_cooldown_seconds 1800

abbrev pub contact_limit : Settings → ℕ
contact_limit settings = positive_integer settings.contact_daily_limit 60

abbrev pub global_limit : Settings → ℕ
global_limit settings = positive_integer settings.global_hourly_limit 500

-- `Promise.all` throws if one of the two fails.
unfoldable pub within_quota : Settings → Option ℕ → Option ℕ → Bool
unfolding fail_closed
within_quota settings none global_count = not (fail_closed settings)
within_quota settings (some contact_count) none = not (fail_closed settings)
within_quota settings (some contact_count) (some global_count) =
    not (ltb (contact_limit settings) contact_count || ltb (global_limit settings) global_count)

module _ (rd : Redis) where
  open rd use {Store, count_up, put, put_new}

  unfoldable pub claim_notice : Settings → ℕ → ℕ → NoticeKind → Store → Store × Bool
  claim_notice settings now contact kind s =
      let r = put_new now (notice kind contact) (notice_cooldown settings) s in
      (r.0, elim r.1 [ none ↦ false | some done ↦ done ])

  -- Whether the command was answered: `false` is an exception.
  unfoldable pub set_cooldown : Settings → ℕ → ℕ → Store → Store × Bool
  set_cooldown settings now contact s = put now (cooldown contact) (spam_cooldown settings) s

  unfoldable pub consume_ai_quota : Settings → ℕ → ℕ → Store → Store × Bool
  unfolding within_quota
  consume_ai_quota settings now contact s =
      let a = count_up now (ai_contact contact (day_of now)) (26 * 3600) s in
      let b = count_up now (ai_global (hour_of now)) (2 * 3600) a.0 in
      (b.0, within_quota settings a.1 b.1)
