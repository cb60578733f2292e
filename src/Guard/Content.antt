-- ===== src/Guard/Content.antt =====
-- What conversation-guard.service.ts reads in a text: normalize, matches, isSupportRequest,
-- moderationNotice, supportNotice, looksLikeStructuredPayload, inspectGeneratedResponse and the
-- settings. The regular expressions are a list of names: whether one matches a text, and the
-- functions of the language on texts (`toLocaleLowerCase` with `normalize('NFD')`, the matches of the
-- expression for links), are arguments of the model.
use hermes_n8n.Prelude.{
  ℕ, Bool, true, false, not, ◌&&◌, ◌||◌, ◌==◌, ltb, leb, Option, none, some, List, [], ◌∷◌, any,
  length, select, if◌then◌else◌,
}
use hermes_n8n.Text.{Units}
use hermes_n8n.Splitter.Normal.{is_empty, trim_left, trim_right}

-- The regular expressions of moderationNotice, isSupportRequest and looksLikeStructuredPayload.
pub data Pattern : Type 0 where
  asks_sexual threatens insults_us insults_twice : Pattern
  asks_instructions asks_role : Pattern
  reports_failure names_site : Pattern
  names_team_first names_work_first : Pattern
  fenced_block reply_object : Pattern

pub record Language : Type 0 where
  pub test : Pattern → Units → Bool
  pub normalize : Units → Units
  pub links : Units → ℕ

-- `Number(config.get(key))` where it is a safe integer that is not negative.
pub record Settings : Type 0 where
  pub max_input_chars : Option ℕ
  pub messages_window_seconds : Option ℕ
  pub max_messages_per_window : Option ℕ
  pub contact_daily_limit : Option ℕ
  pub global_hourly_limit : Option ℕ
  pub max_output_chars : Option ℕ
  pub notice_cooldown_seconds : Option ℕ
  pub spam_cooldown_seconds : Option ℕ
  pub fail_closed : Option Units
  pub support_phone : Option Units

unfoldable pub positive_integer : Option ℕ → ℕ → ℕ
positive_integer none fallback = fallback
positive_integer (some n) fallback = if ltb 0 n then n else fallback

abbrev equal_units : Units → Units → Bool
equal_units [] [] = true
equal_units [] (d ∷ t) = false
equal_units (c ∷ s) [] = false
equal_units (c ∷ s) (d ∷ t) = c == d && equal_units s t

-- `'false'`.
abbrev false_text : Units
false_text = 102 ∷ 97 ∷ 108 ∷ 115 ∷ 101 ∷ []

unfoldable pub fail_closed : Settings → Bool
fail_closed settings = elim settings.fail_closed [
  | none ↦ true
  | some value ↦ not (equal_units value false_text)
]

pub data Category : Type 0 where
  spam moderation out_of_scope : Category

-- The notices, by the place that sends them; supportNotice holds the phone number and its digits.
pub data Notice : Type 0 where
  services_only our_channel brief_inquiry one_inquiry : Notice

pub data GuardDecision : Type 0 where
  allow : GuardDecision
  block : Category → Option Notice → GuardDecision
  support : (phone digits : Units) → GuardDecision

pub data BlockReason : Type 0 where
  empty structured_payload unsafe_content absurd_length : BlockReason

unfoldable pub matches : Language → Units → List Pattern → Bool
matches lang value patterns = any (λ p. lang.test p value) patterns

unfoldable pub moderation_notice : Language → Units → Option (Category × Notice)
unfolding matches
moderation_notice lang normalized =
    if matches lang normalized (asks_sexual ∷ threatens ∷ insults_us ∷ insults_twice ∷ [])
    then some (moderation, services_only)
    else if matches lang normalized (asks_instructions ∷ asks_role ∷ [])
    then some (out_of_scope, our_channel)
    else none

unfoldable pub is_support_request : Language → Units → Bool
unfolding matches
is_support_request lang normalized =
    matches lang normalized (reports_failure ∷ [])
    && matches lang normalized (names_site ∷ [])
    && matches lang normalized (names_team_first ∷ names_work_first ∷ [])

-- `'+593979046329'`.
abbrev default_phone : Units
default_phone = 43 ∷ 53 ∷ 57 ∷ 51 ∷ 57 ∷ 55 ∷ 57 ∷ 48 ∷ 52 ∷ 54 ∷ 51 ∷ 50 ∷ 57 ∷ []

unfoldable pub support_notice : Settings → GuardDecision
support_notice settings =
    let phone : Units = elim settings.support_phone [ none ↦ default_phone | some p ↦ p ] in
    support phone (select (λ c. leb 48 c && leb c 57) phone)

unfoldable pub has_excessive_links : Language → Units → Bool
has_excessive_links lang content = ltb 3 (lang.links content)

unfoldable pub looks_like_structured_payload : Language → Units → Bool
unfolding trim_left trim_right
looks_like_structured_payload lang content =
    let trimmed = trim_right (trim_left content) in
    lang.test fenced_block trimmed || lang.test reply_object trimmed

unfoldable pub inspect_generated_response : Language → Settings → Units → Option BlockReason
unfolding positive_integer trim_left trim_right looks_like_structured_payload moderation_notice
inspect_generated_response lang settings content =
    if is_empty (trim_right (trim_left content))
    then some empty
    else if ltb (positive_integer settings.max_output_chars 6000) (length content)
    then some absurd_length
    else if looks_like_structured_payload lang content
    then some structured_payload
    else elim (moderation_notice lang (lang.normalize content)) [
      | some m ↦ some unsafe_content
      | none ↦ none
    ]
