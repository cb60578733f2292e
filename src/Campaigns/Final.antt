-- ===== src/Campaigns/Final.antt =====
-- Campaigns that have ended: campaigns.service.ts, start, pause and cancel.
use hermes_n8n.Prelude.{ℕ, ◌≡◌, refl, subst, true, false, some, inl, inr, Bool-cases, Option-cases}
use hermes_n8n.Prisma.{Prisma}
use hermes_n8n.Schema.{Database}
use hermes_n8n.Schema.Campaigns.{CampaignStatus, Campaign, is_running}
use hermes_n8n.Campaigns.Send.{find_campaign, write_campaign}
use hermes_n8n.Outcome.{ok, err, HttpError}
use hermes_n8n.Schema.Crm.{Action}
use hermes_n8n.Campaigns.Completion.{find_campaign-write}
use hermes_n8n.Campaigns.Control.{
  Environment, start, pause, cancel, require_campaign, is_startable, is_final, mark_cancelled,
  audit,
}

final_excludes :
    (s : CampaignStatus) → is_final s ≡ true → (is_startable s ≡ false) × (is_running s ≡ false)
unfolding is_final is_startable
final_excludes CampaignStatus.completed h = (refl, refl)
final_excludes CampaignStatus.cancelled h = (refl, refl)
final_excludes CampaignStatus.draft h = absurd (cc h)
final_excludes CampaignStatus.ready h = absurd (cc h)
final_excludes CampaignStatus.running h = absurd (cc h)
final_excludes CampaignStatus.paused h = absurd (cc h)
final_excludes CampaignStatus.failed h = absurd (cc h)

cancelled_id : (now : ℕ) (c : Campaign) → (mark_cancelled now c).id ≡ c.id
unfolding mark_cancelled
cancelled_id now c = refl

cancelled-is_final : (now : ℕ) (c : Campaign) → is_final (mark_cancelled now c).status ≡ true
unfolding mark_cancelled is_final
cancelled-is_final now c = refl

module _ (px : Prisma) where
  -- A campaign that has ended can be neither started, paused nor cancelled.
  ended_refused :
      (env : Environment) (others : Database px → Database px) (db : Database px)
      (id user_id now : ℕ) (c : Campaign)
      → env.enabled ≡ true
      → find_campaign px db id ≡ some c
      → is_final c.status ≡ true
      → (start px env others db id user_id now ≡ err HttpError.bad_request)
        × (pause px others db id user_id now ≡ err HttpError.bad_request)
        × (cancel px others db id user_id now ≡ err HttpError.bad_request)
  unfolding start pause cancel require_campaign
  ended_refused env others db id user_id now c e h f =
      let (s, r) = final_excludes c.status f in (rw (e, h, s) refl, rw (h, r) refl, rw (h, f) refl)

  kept_by_audit :
      (db : Database px) (action : Action) (user_id id : ℕ) (c : Campaign)
      → find_campaign px db id ≡ some c
      → find_campaign px (audit px db action user_id id) id ≡ some c
  unfolding audit find_campaign
  kept_by_audit db action user_id id c h = h

  -- What a cancellation that returns has written.
  cancel_result :
      (others : Database px → Database px) (db : Database px) (id user_id now : ℕ)
      (db' : Database px)
      → cancel px others db id user_id now ≡ ok db'
      → audit px
          (write_campaign px id (mark_cancelled now) (others db))
          Action.campaign_cancelled
          user_id
          id
        ≡ db'
  unfolding cancel require_campaign
  cancel_result others db id user_id now db' h = elim (Option-cases (find_campaign px db id)) [
    | inl e ↦ absurd (cc (rw e at h))
    | inr (c, e) ↦ elim (Bool-cases (is_final c.status)) [
      | inl y ↦ absurd (cc (rw (e, y) at h))
      | inr n ↦ cc (rw (e, n) at h)
    ]
  ]

  -- Once a campaign has been cancelled, every start, pause and cancellation of it that begins in the
  -- database left is refused as a bad request, where campaigns are enabled and the row was still
  -- there when the cancellation wrote it.
  pub cancelled_for_good :
      (env : Environment) (others others' : Database px → Database px) (db : Database px)
      (id user_id now : ℕ) (c : Campaign) (db' : Database px) (user_id' later : ℕ)
      → env.enabled ≡ true
      → cancel px others db id user_id now ≡ ok db'
      → find_campaign px (others db) id ≡ some c
      → (start px env others' db' id user_id' later ≡ err HttpError.bad_request)
        × (pause px others' db' id user_id' later ≡ err HttpError.bad_request)
        × (cancel px others' db' id user_id' later ≡ err HttpError.bad_request)
  cancelled_for_good env others others' db id user_id now c db' user_id' later e h f =
      ended_refused env others' db' id user_id' later (mark_cancelled now c) e
        (subst (λ d. find_campaign px d id ≡ some (mark_cancelled now c))
          (cancel_result others db id user_id now db' h)
          (kept_by_audit (write_campaign px id (mark_cancelled now) (others db))
            Action.campaign_cancelled user_id id (mark_cancelled now c)
            (find_campaign-write px id (mark_cancelled now) (others db) c (cancelled_id now) f)))
        (cancelled-is_final now c)
