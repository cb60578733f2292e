-- ===== src/Handoffs/Agents.antt =====
-- Which agent attends a handoff of hermes-backend/src/handoff/handoff.service.ts, and until when.
use hermes_n8n.Prelude.{
  ℕ, ◌≡◌, refl, sym, ap, subst, ◌∙◌, Bool, true, false, ◌&&◌, Option, none, some, arith, inl, inr,
  Bool-cases, Option-cases, ◌==◌, find, find-map_first, ==_refl, ==_true,
}
use hermes_n8n.Prisma.{Prisma}
use hermes_n8n.Schema.{Database}
use hermes_n8n.Schema.Crm.{Handoff, HandoffStatus, is_open_handoff}
use hermes_n8n.Outcome.{Result, ok, err, HttpError}
use hermes_n8n.Handoffs.Create.{is_for}
use hermes_n8n.Handoffs.Attend.{
  assign, assign_open, resolve, resolve_open, get_open_handoff, find_handoff, take_over,
  close_handoff, ResolveHandoff, audit_resolution, is_anothers, is_keep, is_in_progress,
}

module _ (px : Prisma) where
  open px use {rows, find_unique_rows, update_rows}

  found_after :
      (t : px.Table Handoff) (id : ℕ) (f : Handoff → Handoff) (h : Handoff)
      → ((a : Handoff) → (f a).id ≡ a.id)
      → px.find_unique (λ (a : Handoff). a.id == id) t ≡ some h
      → (px.find_unique (λ (a : Handoff). a.id == id) (px.update (λ (a : Handoff). a.id == id) f t))
        ≡ some (f h)
  found_after t id f h same e =
      let w : Handoff → Bool = λ a. a.id == id in
      find_unique_rows w (px.update w f t)
      ∙ ap (find w) (update_rows w f t)
      ∙ find-map_first w f (λ a. ap (λ k. k == id) (same a)) (rows t) h
          (sym (find_unique_rows w t) ∙ e)

  -- The state of a handoff that an agent attends.
  pub record Attends (db : Database px) (id agent_id : ℕ) (h : Handoff) : Type 0 where
    pub found : find_handoff px db id ≡ some h
    pub status : h.status ≡ HandoffStatus.in_progress
    pub agent : h.assigned_agent_id ≡ some agent_id

  assign_open-Attends :
      (db : Database px) (h : Handoff) (id agent_id actor : ℕ)
      → find_handoff px db id ≡ some h
      → Attends
          (assign_open px db h id agent_id actor).0
          id
          agent_id
          (assign_open px db h id agent_id actor).1
  unfolding assign_open take_over
  assign_open-Attends db h id agent_id actor e =
      elim (Bool-cases (is_in_progress h.status && is_for agent_id h.assigned_agent_id)) [
        | inl t ↦
            rw (t, assign_open)
              (record {
                found = e;
                status = ground (arith, t);
                agent = mine h.assigned_agent_id (ground (arith, t));
              })
        | inr n ↦
            rw (n, assign_open)
              (record {
                found = found_after db.handoffs id (take_over agent_id) h (λ a. refl) e;
                status = refl;
                agent = refl;
              })
      ]
    where
      mine : (k : Option ℕ) → is_for agent_id k ≡ true → k ≡ some agent_id
      mine none h = absurd (ground (arith, h))
      mine (some k) h = ap some (==_true k agent_id h)

  abbrev OkAttends : ℕ → ℕ → Result (Database px × Handoff) → Type 0
  OkAttends id agent_id (err e) = Unit
  OkAttends id agent_id (ok (db, h)) = Attends db id agent_id h

  assign-OkAttends :
      (db : Database px) (id agent_id actor : ℕ)
      → OkAttends id agent_id (assign px db id agent_id actor)
  unfolding assign get_open_handoff
  assign-OkAttends db id agent_id actor = elim (Option-cases (find_handoff px db id)) [
    | inl e ↦ rw (e, assign) tt
    | inr (h, e) ↦ elim (Bool-cases (is_open_handoff h.status)) [
      | inr n ↦ rw (e, assign) (rw n tt)
      | inl y ↦ elim (Bool-cases (is_anothers agent_id h.assigned_agent_id)) [
        | inl t ↦ rw (e, assign) (rw (y, t) tt)
        | inr f ↦ rw (e, assign) (rw (y, f) (assign_open-Attends db h id agent_id actor e))
      ]
    ]
  ]

  assign-Attends :
      (db db' : Database px) (id agent_id actor : ℕ) (h : Handoff)
      → assign px db id agent_id actor ≡ ok (db', h)
      → Attends db' id agent_id h
  assign-Attends db db' id agent_id actor h r =
      subst (OkAttends id agent_id) r (assign-OkAttends db id agent_id actor)

  -- Once an agent has taken a handoff, the agent can take it again without effect, and another
  -- agent can neither take it nor resolve it: both calls end in a conflict.
  pub assign_exclusive :
      (db db' : Database px) (id agent_id actor actor' other now : ℕ) (dto : ResolveHandoff)
      (h : Handoff)
      → assign px db id agent_id actor ≡ ok (db', h)
      → (agent_id == other) ≡ false
      → (assign px db' id agent_id actor' ≡ ok (db', h))
        × (assign px db' id other actor' ≡ err HttpError.conflict)
        × (resolve px db' id dto other now ≡ err HttpError.conflict)
  unfolding assign get_open_handoff assign_open resolve
  assign_exclusive db db' id agent_id actor actor' other now dto h r n =
      let a = assign-Attends db db' id agent_id actor h r in
      (
        rw (a.found, assign) (rw (a.status, a.agent, ==_refl agent_id)),
        rw (a.found, assign) (rw (a.status, a.agent, n)),
        rw (a.found, resolve) (rw (a.status, a.agent, n)),
      )

  abbrev OkClosed : ℕ → Result (Database px × Handoff) → Type 0
  OkClosed id (err e) = Unit
  OkClosed id (ok (db, h)) = find_handoff px db id ≡ some h × h.status ≡ HandoffStatus.resolved

  resolve-OkClosed :
      (db : Database px) (id actor now : ℕ) (dto : ResolveHandoff)
      → is_keep dto.action ≡ false
      → OkClosed id (resolve px db id dto actor now)
  unfolding resolve get_open_handoff resolve_open close_handoff audit_resolution
  resolve-OkClosed db id actor now dto k = elim (Option-cases (find_handoff px db id)) [
    | inl e ↦ rw (e, resolve) tt
    | inr (h, e) ↦ elim (Bool-cases (is_open_handoff h.status)) [
      | inr n ↦ rw (e, resolve) (rw n tt)
      | inl y ↦ elim (Bool-cases (is_for actor h.assigned_agent_id)) [
        | inr f ↦ rw (e, resolve) (rw (y, f) tt)
        | inl t ↦
            rw (e, resolve)
              (rw (y, t, k)
                (found_after db.handoffs id (close_handoff h dto actor now) h (λ a. refl) e, refl))
      ]
    ]
  ]

  resolve-found :
      (db db' : Database px) (id actor now : ℕ) (dto : ResolveHandoff) (h : Handoff)
      → is_keep dto.action ≡ false
      → resolve px db id dto actor now ≡ ok (db', h)
      → find_handoff px db' id ≡ some h × h.status ≡ HandoffStatus.resolved
  unfolding close_handoff
  resolve-found db db' id actor now dto h n r =
      subst (OkClosed id) r (resolve-OkClosed db id actor now dto n)

  -- A handoff that its agent resolves, by giving the conversation back or closing it, is closed
  -- for good: nobody can take it or resolve it again.
  pub resolved_for_good :
      (db db' : Database px) (id actor agent_id actor' now now' : ℕ) (dto dto' : ResolveHandoff)
      (h : Handoff)
      → is_keep dto.action ≡ false
      → resolve px db id dto actor now ≡ ok (db', h)
      → (assign px db' id agent_id actor' ≡ err HttpError.conflict)
        × (resolve px db' id dto' actor' now' ≡ err HttpError.conflict)
  unfolding assign resolve get_open_handoff
  resolved_for_good db db' id actor agent_id actor' now now' dto dto' h n r =
      let (found, status) = resolve-found db db' id actor now dto h n r in
      (rw (found, assign) (rw status), rw (found, resolve) (rw status))
