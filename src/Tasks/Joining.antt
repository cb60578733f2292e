-- ===== src/Tasks/Joining.antt =====
-- What joining a task keeps, tasks.service.ts: the messages it knows and the kind it is found by.
use hermes_n8n.Prelude.{
  ℕ, zero, suc, ◌-◌, ◌≤◌, ◌≡◌, refl, sym, ◌∙◌, Bool, true, false, ◌==◌, ==_refl, some, List, [],
  ◌∷◌, ◌++◌, any, length, drop, inl, inr, Bool-cases, find, find-Member, count, map_first, Member,
  arith,
}
use hermes_n8n.Schema.Crm.{Task}
use hermes_n8n.Tasks.Requests.{
  Request, RequestKind, callback, quote, hermes_review, is_joinable, remember, knows, status_of,
  type_of, join_task, new_task,
}

pub drop-last :
    (n : ℕ) (ids : List ℕ) (id : ℕ)
    → n ≤ length ids
    → any (λ i. i == id) (drop n (ids ++ id ∷ [])) ≡ true
drop-last zero [] id h = rw (==_refl id) refl
drop-last zero (i ∷ ids) id h = ground (arith, drop-last zero ids id (omega arith))
drop-last (suc n) [] id h = absurd (omega (arith, h))
drop-last (suc n) (i ∷ ids) id h = drop-last n ids id (omega (arith, h))

pub length-snoc : (ids : List ℕ) (id : ℕ) → length (ids ++ id ∷ []) ≡ suc (length ids)
length-snoc [] id = refl
length-snoc (i ∷ ids) id = omega (arith, length-snoc ids id)

pub knows-remember : (ids : List ℕ) (id : ℕ) → knows id (remember ids id) ≡ true
unfolding knows remember
knows-remember ids id =
    drop-last (length (ids ++ id ∷ []) - 20) ids id (omega (arith, length-snoc ids id))

pub same_some : {A : Type 0} (a b : A) → some a ≡ some b → a ≡ b
same_some a b h = cc

pub count-map_first :
    {A : Type 0} (p w : A → Bool) (f : A → A) (xs : List A) (a : A)
    → find w xs ≡ some a
    → p (f a) ≡ p a
    → count p (map_first w f xs) ≡ count p xs
count-map_first p w f [] a h same = refl
count-map_first p w f (x ∷ xs) a h same = elim (Bool-cases (w x)) [
  | inl t ↦ let e : x ≡ a = same_some x a (rw t at h) in rw (t, e, same) refl
  | inr u ↦ rw (u, count-map_first p w f xs a (rw u at h) same) refl
]

pub Member-last : {A : Type 0} (xs : List A) (a : A) → Member a (xs ++ a ∷ [])
Member-last [] a = inl refl
Member-last (x ∷ xs) a = inr (Member-last xs a)

-- Where at most one row passes the test, two that pass are the same.
pub only_one :
    {A : Type 0} (p : A → Bool) (xs : List A) (a b : A)
    → count p xs ≤ 1
    → Member a xs
    → p a ≡ true
    → Member b xs
    → p b ≡ true
    → a ≡ b
only_one p xs a b c m h n k =
    same_some a b (sym (find-Member p xs a c m h) ∙ find-Member p xs b c n k)

pub join-joinable :
    (kind : RequestKind) (r : Request) (conversation_id : ℕ) (t : Task)
    → is_joinable kind conversation_id t ≡ true
    → is_joinable kind conversation_id (join_task kind r t) ≡ true
unfolding is_joinable join_task status_of
join-joinable callback r c t h = h
join-joinable quote r c t h = h
join-joinable hermes_review r c t h = ground (arith, h)

pub new-joinable :
    (kind : RequestKind) (r : Request) (id now : ℕ)
    → is_joinable kind r.conversation_id (new_task kind r id now) ≡ true
unfolding is_joinable new_task status_of type_of
new-joinable callback r id now = rw (==_refl r.conversation_id) refl
new-joinable quote r id now = rw (==_refl r.conversation_id) refl
new-joinable hermes_review r id now = rw (==_refl r.conversation_id) refl

pub joined-knows :
    (kind : RequestKind) (r : Request) (t : Task)
    → knows r.source_message_id (join_task kind r t).source_message_ids ≡ true
unfolding join_task
joined-knows kind r t = knows-remember t.source_message_ids r.source_message_id

pub new-knows :
    (kind : RequestKind) (r : Request) (id now : ℕ)
    → knows r.source_message_id (new_task kind r id now).source_message_ids ≡ true
unfolding new_task
new-knows kind r id now = knows-remember [] r.source_message_id

pub joined_id : (kind : RequestKind) (r : Request) (t : Task) → (join_task kind r t).id ≡ t.id
unfolding join_task
joined_id kind r t = refl

pub closed : {b : Bool} → b ≡ false → b ≡ true → ⊥
closed h k = cc
