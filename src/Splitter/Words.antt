-- ===== src/Splitter/Words.antt =====
-- Sentences, words and the division of one unit: whatsapp-message-splitter.ts, sentenceUnits and
-- splitLongUnit. The loop that slices a word runs on fuel; `unfinished` says that it ran out.
use hermes_n8n.Prelude.{
  take, drop, ℕ, zero, suc, Bool, true, false, not, ◌&&◌, ◌||◌, ◌==◌, ltb, leb, List, [], ◌∷◌, ◌++◌,
  if◌then◌else◌, length, select,
}
use hermes_n8n.Text.{Units, is_space}
use hermes_n8n.Splitter.Normal.{is_empty}

infixl 5 ◌>>=◌
pub data Run {ℓ} (A : Type ℓ) : Type ℓ where
  returns : A → Run A
  throws unfinished : Run A

abbrev pub ◌>>=◌ {κ ℓ} : {A : Type κ} {B : Type ℓ} → Run A → (A → Run B) → Run B
returns a >>= next = next a
throws >>= next = throws
unfinished >>= next = unfinished

pub data Place : Type 0 where
  inside after_stop gap : Place

unfoldable pub is_stop : ℕ → Bool
is_stop c = c == 46 || c == 33 || c == 63

-- `split(/(?<=[.!?])\s+/u)`: `current` is the sentence so far.
unfoldable pub sentences : Place → Units → Units → List Units
unfolding is_space is_stop
sentences at current [] = current ∷ []
sentences gap current (c ∷ s) = elim (is_space c) [
  | true ↦ sentences gap current s
  | false ↦ sentences (if is_stop c then after_stop else inside) (current ++ c ∷ []) s
]
sentences after_stop current (c ∷ s) = elim (is_space c) [
  | true ↦ current ∷ sentences gap [] s
  | false ↦ sentences (if is_stop c then after_stop else inside) (current ++ c ∷ []) s
]
sentences inside current (c ∷ s) =
    sentences (if is_stop c then after_stop else inside) (current ++ c ∷ []) s

unfoldable pub sentence_units : Units → List Units
unfolding sentences
sentence_units text = select (λ s. not (is_empty s)) (sentences inside [] text)

-- `split(/\s+/)`; the flag says that the unit before was white space.
unfoldable pub words : Bool → Units → Units → List Units
unfolding is_space
words after current [] = current ∷ []
words after current (c ∷ s) = elim (is_space c) [
  | true ↦ let more = words true [] s in if after then words true current s else current ∷ more
  | false ↦ words false (current ++ c ∷ []) s
]

-- The loop over the slices of a word: the argument is the word from `index` on.
unfoldable pub slices : ℕ → ℕ → Units → Run (List Units)
slices fuel limit [] = returns []
slices zero limit (c ∷ w) = unfinished
slices (suc fuel) limit (c ∷ w) =
    slices fuel limit (drop limit (c ∷ w)) >>= λ more. returns (take limit (c ∷ w) ∷ more)

-- `parts` and `current` of the loops.
pub record Packing : Type 0 where
  pub parts : List Units
  pub current : Units

-- `if (current) parts.push(current)`.
abbrev pub close : Packing → List Units
close p = if is_empty (p.current) then p.parts else p.parts ++ p.current ∷ []

-- `current ? `${current} ${unit}` : unit`.
abbrev pub joined : Units → Units → Units
joined current unit = if is_empty current then unit else current ++ 32 ∷ unit

unfoldable pub extend : ℕ → Packing → Units → Packing
extend limit p unit =
    let candidate = joined (p.current) unit in
    if not (is_empty (p.current)) && ltb limit (length candidate)
    then record { parts = p.parts ++ p.current ∷ []; current = unit }
    else record { parts = p.parts; current = candidate }

unfoldable pub pack_words : ℕ → List Units → Packing → Run (List Units)
unfolding slices extend
pack_words limit [] p = returns (close p)
pack_words limit (w ∷ ws) p = elim (ltb limit (length w)) [
  | true ↦ slices (length w) limit w >>= λ more.
      pack_words limit ws (record { parts = close p ++ more; current = [] })
  | false ↦ pack_words limit ws (extend limit p w)
]

unfoldable pub split_long_unit : Units → ℕ → Run (List Units)
unfolding words pack_words
split_long_unit value limit =
    let long = pack_words limit (words false [] value) (record { parts = []; current = [] }) in
    if leb (length value) limit then returns (value ∷ []) else long
