-- ===== src/Campaigns/Life.antt =====
-- The life of a recipient that Meta reports, apart from the ranks of campaigns.service.ts, and the
-- statuses that a report may name.
use hermes_n8n.Prelude.{true, ltb, ◌≡◌, refl, sym, subst, false, some}
use hermes_n8n.Schema.Campaigns.{RecipientStatus}
use hermes_n8n.Campaigns.Status.{MetaStatus, rank, target, is_terminal}

-- One step of a recipient in the life that Meta reports.
pub data Next : RecipientStatus → RecipientStatus → Type 0 where
  pending_sent : Next RecipientStatus.pending RecipientStatus.sent
  queued_sent : Next RecipientStatus.queued RecipientStatus.sent
  sent_delivered : Next RecipientStatus.sent RecipientStatus.delivered
  delivered_read : Next RecipientStatus.delivered RecipientStatus.read
  pending_failed : Next RecipientStatus.pending RecipientStatus.failed
  queued_failed : Next RecipientStatus.queued RecipientStatus.failed
  sent_failed : Next RecipientStatus.sent RecipientStatus.failed
  delivered_failed : Next RecipientStatus.delivered RecipientStatus.failed
  read_failed : Next RecipientStatus.read RecipientStatus.failed

-- Any number of steps.
pub data Leads : RecipientStatus → RecipientStatus → Type 0 where
  stays : (s : RecipientStatus) → Leads s s
  goes : (s t u : RecipientStatus) → Next s t → Leads t u → Leads s u

-- The statuses in which a recipient stays for good.
pub data IsFinal : RecipientStatus → Type 0 where
  after_reply : IsFinal RecipientStatus.replied
  after_failure : IsFinal RecipientStatus.failed
  never_sent : IsFinal RecipientStatus.skipped

one_step : (s t : RecipientStatus) → Next s t → Leads s t
one_step s t n = Leads.goes s t t n (Leads.stays t)

sent_read : Leads RecipientStatus.sent RecipientStatus.read
sent_read =
    Leads.goes RecipientStatus.sent RecipientStatus.delivered RecipientStatus.read
      Next.sent_delivered
      (one_step RecipientStatus.delivered RecipientStatus.read Next.delivered_read)

-- What a report names is reached from every status that it is not refused for.
to_sent :
    (s : RecipientStatus)
    → is_terminal s ≡ false
    → ltb (rank RecipientStatus.sent) (rank s) ≡ false
    → Leads s RecipientStatus.sent
unfolding rank is_terminal
to_sent RecipientStatus.pending h k =
    one_step RecipientStatus.pending RecipientStatus.sent Next.pending_sent
to_sent RecipientStatus.queued h k =
    one_step RecipientStatus.queued RecipientStatus.sent Next.queued_sent
to_sent RecipientStatus.sent h k = Leads.stays RecipientStatus.sent
to_sent RecipientStatus.delivered h k = absurd (cc)
to_sent RecipientStatus.read h k = absurd (cc)
to_sent RecipientStatus.replied h k = absurd (cc)
to_sent RecipientStatus.failed h k = absurd (cc)
to_sent RecipientStatus.skipped h k = absurd (cc)

to_delivered :
    (s : RecipientStatus)
    → is_terminal s ≡ false
    → ltb (rank RecipientStatus.delivered) (rank s) ≡ false
    → Leads s RecipientStatus.delivered
unfolding rank is_terminal
to_delivered RecipientStatus.pending h k =
    Leads.goes RecipientStatus.pending RecipientStatus.sent RecipientStatus.delivered
      Next.pending_sent
      (one_step RecipientStatus.sent RecipientStatus.delivered Next.sent_delivered)
to_delivered RecipientStatus.queued h k =
    Leads.goes RecipientStatus.queued RecipientStatus.sent RecipientStatus.delivered
      Next.queued_sent (one_step RecipientStatus.sent RecipientStatus.delivered Next.sent_delivered)
to_delivered RecipientStatus.sent h k =
    one_step RecipientStatus.sent RecipientStatus.delivered Next.sent_delivered
to_delivered RecipientStatus.delivered h k = Leads.stays RecipientStatus.delivered
to_delivered RecipientStatus.read h k = absurd (cc)
to_delivered RecipientStatus.replied h k = absurd (cc)
to_delivered RecipientStatus.failed h k = absurd (cc)
to_delivered RecipientStatus.skipped h k = absurd (cc)

to_read : (s : RecipientStatus) → is_terminal s ≡ false → Leads s RecipientStatus.read
unfolding is_terminal
to_read RecipientStatus.pending h =
    Leads.goes RecipientStatus.pending RecipientStatus.sent RecipientStatus.read Next.pending_sent
      sent_read
to_read RecipientStatus.queued h =
    Leads.goes RecipientStatus.queued RecipientStatus.sent RecipientStatus.read Next.queued_sent
      sent_read
to_read RecipientStatus.sent h = sent_read
to_read RecipientStatus.delivered h =
    one_step RecipientStatus.delivered RecipientStatus.read Next.delivered_read
to_read RecipientStatus.read h = Leads.stays RecipientStatus.read
to_read RecipientStatus.replied h = absurd (cc)
to_read RecipientStatus.failed h = absurd (cc)
to_read RecipientStatus.skipped h = absurd (cc)

to_failed : (s : RecipientStatus) → is_terminal s ≡ false → Leads s RecipientStatus.failed
unfolding is_terminal
to_failed RecipientStatus.pending h =
    one_step RecipientStatus.pending RecipientStatus.failed Next.pending_failed
to_failed RecipientStatus.queued h =
    one_step RecipientStatus.queued RecipientStatus.failed Next.queued_failed
to_failed RecipientStatus.sent h =
    one_step RecipientStatus.sent RecipientStatus.failed Next.sent_failed
to_failed RecipientStatus.delivered h =
    one_step RecipientStatus.delivered RecipientStatus.failed Next.delivered_failed
to_failed RecipientStatus.read h =
    one_step RecipientStatus.read RecipientStatus.failed Next.read_failed
to_failed RecipientStatus.replied h = absurd (cc)
to_failed RecipientStatus.failed h = absurd (cc)
to_failed RecipientStatus.skipped h = absurd (cc)

pub target-Leads :
    (m : MetaStatus) (s next : RecipientStatus)
    → target m ≡ some next
    → is_terminal s ≡ false
    → ltb (rank next) (rank s) ≡ false
    → Leads s next
unfolding target
target-Leads MetaStatus.sent s next e h k =
    let same : next ≡ RecipientStatus.sent = cc in
    subst (Leads s) (sym same) (to_sent s h (rw same at k))
target-Leads MetaStatus.delivered s next e h k =
    let same : next ≡ RecipientStatus.delivered = cc in
    subst (Leads s) (sym same) (to_delivered s h (rw same at k))
target-Leads MetaStatus.read s next e h k =
    let same : next ≡ RecipientStatus.read = cc in subst (Leads s) (sym same) (to_read s h)
target-Leads MetaStatus.failed s next e h k =
    let same : next ≡ RecipientStatus.failed = cc in subst (Leads s) (sym same) (to_failed s h)
target-Leads MetaStatus.unrecognized s next e h k = absurd (cc)

pub IsFinal-is_terminal : (s : RecipientStatus) → IsFinal s → is_terminal s ≡ true
unfolding is_terminal
IsFinal-is_terminal s IsFinal.after_reply = refl
IsFinal-is_terminal s IsFinal.after_failure = refl
IsFinal-is_terminal s IsFinal.never_sent = refl
