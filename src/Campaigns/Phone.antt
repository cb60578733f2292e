-- ===== src/Campaigns/Phone.antt =====
-- Telephone numbers and consents of an import: campaigns/phone-normalizer.ts, normalizeE164Phone and
-- normalizeConsent. A number whose first digit is not zero is kept as the natural number that its
-- digits spell.
use hermes_n8n.Prelude.{
  ℕ, ◌+◌, ◌-◌, ◌*◌, Bool, true, false, not, ◌&&◌, ◌||◌, ◌==◌, leb, Option, none, some, List, [],
  ◌∷◌, ◌++◌, if◌then◌else◌, any, select, length, drop,
}
use hermes_n8n.Text.{Units, is_space}
use hermes_n8n.Splitter.Normal.{is_empty, starts_with, trim_left, trim_right}

unfoldable pub is_digit : ℕ → Bool
is_digit c = leb 48 c && leb c 57

-- `[\s\-()]`.
unfoldable pub is_filler : ℕ → Bool
unfolding is_space
is_filler c = is_space c || c == 45 || c == 40 || c == 41

unfoldable pub strip_plus : Units → Units
strip_plus [] = []
strip_plus (c ∷ s) = if c == 43 then s else c ∷ s

unfoldable pub is_prefix : Units → Units → Bool
is_prefix [] s = true
is_prefix (c ∷ p) [] = false
is_prefix (c ∷ p) (d ∷ s) = c == d && is_prefix p s

unfoldable pub all_digits : Units → Bool
unfolding is_digit
all_digits s = not (is_empty s) && not (any (λ c. not (is_digit c)) s)

-- `593`, and `/^09\d{8}$/` on digits.
abbrev ecuador : Units
ecuador = 53 ∷ 57 ∷ 51 ∷ []

unfoldable pub international : Units → Units
unfolding is_prefix
international digits =
    if length digits == 10 && is_prefix (48 ∷ 57 ∷ []) digits
    then ecuador ++ drop 1 digits
    else digits

-- `/^[1-9]\d{7,14}$/` on digits.
unfoldable pub is_subscriber : Units → Bool
unfolding starts_with
is_subscriber digits =
    leb 8 (length digits) && (leb (length digits) 15 && not (starts_with 48 digits))

unfoldable pub value_of : ℕ → Units → ℕ
value_of n [] = n
value_of n (c ∷ s) = value_of (n * 10 + (c - 48)) s

unfoldable pub normalize_e164_phone : Units → Option ℕ
unfolding is_filler strip_plus all_digits international is_subscriber value_of starts_with trim_left
    trim_right is_prefix
normalize_e164_phone value =
    let raw = trim_right (trim_left value) in
    let compact = select (λ c. not (is_filler c)) raw in
    let digits = international (strip_plus compact) in
    if is_empty raw || not (all_digits (strip_plus compact))
    then none
    else if not (starts_with 43 compact) && not (is_prefix ecuador digits)
    then none
    else if is_subscriber digits
    then some (value_of 0 digits)
    else none

unfoldable pub same_units : Units → Units → Bool
same_units [] [] = true
same_units [] (d ∷ t) = false
same_units (c ∷ s) [] = false
same_units (c ∷ s) (d ∷ t) = c == d && same_units s t

-- `si`, `sí`, `yes`, `true`, `1` and `opted_in`.
abbrev consents : List Units
consents =
    (115 ∷ 105 ∷ [])
    ∷ (115 ∷ 237 ∷ [])
    ∷ (121 ∷ 101 ∷ 115 ∷ [])
    ∷ (116 ∷ 114 ∷ 117 ∷ 101 ∷ [])
    ∷ (49 ∷ [])
    ∷ (111 ∷ 112 ∷ 116 ∷ 101 ∷ 100 ∷ 95 ∷ 105 ∷ 110 ∷ [])
    ∷ []

-- Whether `normalizeConsent` answers OPTED_IN; `lower` is `toLocaleLowerCase('es')`.
unfoldable pub gives_consent : (lower : Units → Units) → Option Units → Bool
unfolding same_units trim_left trim_right
gives_consent lower none = false
gives_consent lower (some value) =
    any (λ c. same_units c (lower (trim_right (trim_left value)))) consents
