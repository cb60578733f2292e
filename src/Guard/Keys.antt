-- ===== src/Guard/Keys.antt =====
-- The Redis keys of conversation-guard.service.ts. The template of each is a constructor, so that
-- two keys are the same text exactly if their parts are the same; a contact is a number.
use hermes_n8n.Prelude.{ℕ, ◌≡◌, refl, sym, ◌∙◌, Bool, true, ◌&&◌, ◌==◌, if◌then◌else◌, arith}

-- The categories that `claimNotice` is called with.
pub data NoticeKind : Type 0 where
  moderation out_of_scope long_input rate_limit : NoticeKind

pub data Key : Type 0 where
  messages cooldown : (contact : ℕ) → Key
  notice : (kind : NoticeKind) (contact : ℕ) → Key
  ai_contact : (contact day : ℕ) → Key
  ai_global : (hour : ℕ) → Key

tag : Key → ℕ
tag (messages c) = 0
tag (cooldown c) = 1
tag (ai_contact c d) = 2
tag (ai_global h) = 3
tag (notice moderation c) = 4
tag (notice out_of_scope c) = 5
tag (notice long_input c) = 6
tag (notice rate_limit c) = 7

subject : Key → ℕ
subject (messages c) = c
subject (cooldown c) = c
subject (ai_contact c d) = c
subject (ai_global h) = h
subject (notice k c) = c

period : Key → ℕ
period (messages c) = 0
period (cooldown c) = 0
period (ai_contact c d) = d
period (ai_global h) = 0
period (notice k c) = 0

unfoldable pub same_key : Key → Key → Bool
unfolding tag subject period
same_key j k = tag j == tag k && (subject j == subject k && period j == period k)

decode : ℕ → ℕ → ℕ → Key
decode t c d =
    if t == 0
    then messages c
    else if t == 1
    then cooldown c
    else if t == 2
    then ai_contact c d
    else if t == 3
    then ai_global c
    else if t == 4
    then notice moderation c
    else if t == 5
    then notice out_of_scope c
    else if t == 6
    then notice long_input c
    else notice rate_limit c

decode_lem : (k : Key) → decode (tag k) (subject k) (period k) ≡ k
unfolding decode tag subject period
decode_lem (messages c) = refl
decode_lem (cooldown c) = refl
decode_lem (ai_contact c d) = refl
decode_lem (ai_global h) = refl
decode_lem (notice moderation c) = refl
decode_lem (notice out_of_scope c) = refl
decode_lem (notice long_input c) = refl
decode_lem (notice rate_limit c) = refl

pub same_key_true : (j k : Key) → same_key j k ≡ true → j ≡ k
unfolding same_key
same_key_true j k h =
    let t : tag j ≡ tag k = ground (arith, h) in
    let s : subject j ≡ subject k = ground (arith, h) in
    let p : period j ≡ period k = ground (arith, h) in
    sym (decode_lem j) ∙ rw (t, s, p) (decode_lem k)

pub same_key_refl : (k : Key) → same_key k k ≡ true
unfolding same_key
same_key_refl k = ground arith
