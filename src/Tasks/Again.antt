-- ===== src/Tasks/Again.antt =====
-- A request that is made again, tasks.service.ts.
use hermes_n8n.Prelude.{
  ℕ, ◌≤◌, ◌≡◌, refl, sym, ◌∙◌, Bool, true, false, ◌==◌, ==_refl, some, [], ◌∷◌, inl, inr,
  Bool-cases, Option-cases, find, find-some, find-Member, find-map_first, count, count-append,
  count-zero, map_first, Member, All, All-member, arith,
}
use hermes_n8n.Prisma.{Prisma}
use hermes_n8n.Schema.{Database}
use hermes_n8n.Schema.Crm.{Task}
use hermes_n8n.Tasks.Requests.{
  Request, RequestKind, is_joinable, knows, join_task, new_task, newest, request,
}
use hermes_n8n.Tasks.Joining.{
  count-map_first, Member-last, only_one, join-joinable, new-joinable, joined-knows, new-knows,
  joined_id, closed,
}

module _ (px : Prisma) (kind : RequestKind) (r : Request) where
  open px use {
    rows, find_first, find_first_some, find_first_none, create, create_rows, update, update_rows,
  }

  abbrev w : Task → Bool
  w = is_joinable kind r.conversation_id

  -- A task of the request that knows its message is found, and stays as it is.
  request_known :
      (db : Database px) (t : Task) (id now : ℕ)
      → count w (rows db.tasks) ≤ 1
      → Member t (rows db.tasks)
      → w t ≡ true
      → knows r.source_message_id t.source_message_ids ≡ true
      → request px kind r id now db ≡ (db, t)
  unfolding request
  request_known db t id now one m j k = elim (Option-cases (find_first (newest px) w db.tasks)) [
    | inl e ↦ absurd (
        closed
          (All-member (λ a. w a ≡ false) (rows db.tasks) t
            (find_first_none (newest px) w db.tasks e) m)
          j)
    | inr (u, e) ↦
        let f = find_first_some (newest px) w db.tasks u e in
        let same : u ≡ t = only_one w (rows db.tasks) u t one f.1 f.0 m j in
        rw (e, request, same, k) refl
  ]

  -- The three answers of a request.
  data Answer (db : Database px) (id now : ℕ) (out : Database px × Task) : Type 0 where
    created :
        All (λ t. w t ≡ false) (rows db.tasks)
        → out
          ≡ (record db { tasks = create (new_task kind r id now) db.tasks }, new_task kind r id now)
        → Answer db id now out
    known :
        (t : Task)
        → Member t (rows db.tasks)
        → w t ≡ true
        → knows r.source_message_id t.source_message_ids ≡ true
        → out ≡ (db, t)
        → Answer db id now out
    joined :
        (t : Task)
        → Member t (rows db.tasks)
        → w t ≡ true
        → out ≡ (
          record db { tasks = update (λ (u : Task). u.id == t.id) (join_task kind r) db.tasks },
          join_task kind r t,
        )
        → Answer db id now out

  request-Answer : (db : Database px) (id now : ℕ) → Answer db id now (request px kind r id now db)
  unfolding request
  request-Answer db id now = elim (Option-cases (find_first (newest px) w db.tasks)) [
    | inl e ↦ Answer.created (find_first_none (newest px) w db.tasks e) (rw (e, request) refl)
    | inr (t, e) ↦
        let f = find_first_some (newest px) w db.tasks t e in
        elim (Bool-cases (knows r.source_message_id t.source_message_ids)) [
          | inl y ↦ Answer.known t f.1 f.0 y (rw (e, request, y) refl)
          | inr n ↦ Answer.joined t f.1 f.0 (rw (e, request, n) refl)
        ]
  ]

  created_one :
      (db : Database px) (id now : ℕ)
      → All (λ t. w t ≡ false) (rows db.tasks)
      → count w (rows (create (new_task kind r id now) db.tasks)) ≤ 1
  created_one db id now h =
      rw
        (
          create_rows (new_task kind r id now) db.tasks,
          count-append w (rows db.tasks) (new_task kind r id now ∷ []),
          count-zero w (rows db.tasks) h,
          new-joinable kind r id now,
        )
        (omega arith)

  created-Member :
      (db : Database px) (id now : ℕ)
      → Member (new_task kind r id now) (rows (create (new_task kind r id now) db.tasks))
  created-Member db id now =
      rw (create_rows (new_task kind r id now) db.tasks)
        (Member-last (rows db.tasks) (new_task kind r id now))

  joined_rows :
      (db : Database px) (t : Task)
      → count (λ (u : Task). u.id == t.id) (rows db.tasks) ≤ 1
      → Member t (rows db.tasks)
      → w t ≡ true
      → (count w (rows (update (λ (u : Task). u.id == t.id) (join_task kind r) db.tasks))
          ≡ count w (rows db.tasks))
        × Member
            (join_task kind r t)
            (rows (update (λ (u : Task). u.id == t.id) (join_task kind r) db.tasks))
  joined_rows db t unique m j =
      let v : Task → Bool = λ u. u.id == t.id in
      let found : find v (rows db.tasks) ≡ some t =
        find-Member v (rows db.tasks) t unique m (==_refl t.id) in
      rw (update_rows v (join_task kind r) db.tasks) (
        count-map_first w v (join_task kind r) (rows db.tasks) t found
            (join-joinable kind r r.conversation_id t j ∙ sym j),
        (find-some v (map_first v (join_task kind r) (rows db.tasks)) (join_task kind r t) (
            find-map_first v (join_task kind r) (λ a. rw (joined_id kind r a) refl) (rows db.tasks)
              t found)).1,
      )

  -- Where a conversation has at most one live task of a kind, and identifiers are unique, a request
  -- of that kind leaves at most one, and the same request made again, under any new identifier and at
  -- any time, changes nothing and answers the same task.
  pub request_again :
      (db : Database px) (id now id' later : ℕ)
      → ((k : ℕ) → count (λ (t : Task). t.id == k) (rows db.tasks) ≤ 1)
      → count (is_joinable kind r.conversation_id) (rows db.tasks) ≤ 1
      → (count (is_joinable kind r.conversation_id) (rows (request px kind r id now db).0.tasks)
          ≤ 1)
        × (request px kind r id' later (request px kind r id now db).0
            ≡ request px kind r id now db)
  request_again db id now id' later unique one = elim (request-Answer db id now) [
    | created none_there e ↦
        let db' : Database px = record db { tasks = create (new_task kind r id now) db.tasks } in
        let one' = created_one db id now none_there in
        rw e (
          one',
          request_known db' (new_task kind r id now) id' later one' (created-Member db id now)
              (new-joinable kind r id now) (new-knows kind r id now),
        )
    | known t m j k e ↦ rw e (one, request_known db t id' later one m j k)
    | joined t m j e ↦
        let db' : Database px = record db {
          tasks = update (λ (u : Task). u.id == t.id) (join_task kind r) db.tasks;
        } in
        let (same, m') = joined_rows db t (unique t.id) m j in
        let one' : count w (rows db'.tasks) ≤ 1 = rw same one in
        rw e (
          one',
          request_known db' (join_task kind r t) id' later one' m'
              (join-joinable kind r r.conversation_id t j) (joined-knows kind r t),
        )
  ]
