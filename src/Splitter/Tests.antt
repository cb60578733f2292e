-- ===== src/Splitter/Tests.antt =====
-- The division at concrete replies.
use hermes_n8n.Prelude.{arith, All, ◌<◌, ◌≤◌, length, ◌≢◌, ◌≡◌, refl, List, [], ◌∷◌}
use Prim.Native.Char.{code}
use Prim.Native.String.{String}
use hermes_n8n.Text.{Units}
use hermes_n8n.Splitter.Normal.{normal_text}
use hermes_n8n.Splitter.Words.{unfinished, split_long_unit, returns, throws, sentence_units}
use hermes_n8n.Splitter.Letters.{letters, all_letters}
use hermes_n8n.Splitter.Division.{
  split_whatsapp_message-letters, split_whatsapp_message-bounds, split_whatsapp_message-ends,
  split_whatsapp_message-throws,
}
use hermes_n8n.Splitter.Pack.{split_whatsapp_message}

abbrev units : String → Units
units String.[] = []
units (String.◌∷◌ c s) = code c ∷ units s

two_sentences : sentence_units (units "Hola. Soy Ana!") ≡ units "Hola." ∷ units "Soy Ana!" ∷ []
unfolding sentence_units
two_sentences = refl

divided :
    split_whatsapp_message (units " Hola.  Soy Ana!") 8 3 10
    ≡ returns (units "Hola." ∷ units "Soy Ana!" ∷ [])
unfolding split_whatsapp_message
divided = refl

sliced :
    split_whatsapp_message (units "abcdefgh ij") 4 3 5
    ≡ returns (units "abcd" ∷ units "efgh" ∷ units "ij" ∷ [])
unfolding split_whatsapp_message
sliced = refl

too_long : split_whatsapp_message (units "abcdefgh ij") 4 2 5 ≡ throws
unfolding split_whatsapp_message
too_long = refl

split_whatsapp_message-letters_example :
    all_letters (units "abcd" ∷ units "efgh" ∷ units "ij" ∷ []) ≡ letters (units "abcdefgh ij")
split_whatsapp_message-letters_example =
    split_whatsapp_message-letters (units "abcdefgh ij") 4 3 5
      (units "abcd" ∷ units "efgh" ∷ units "ij" ∷ []) sliced

split_whatsapp_message-bounds_example :
    (length (units "Hola." ∷ units "Soy Ana!" ∷ []) ≤ 3)
    × All (λ part. length part ≤ 10) (units "Hola." ∷ units "Soy Ana!" ∷ [])
split_whatsapp_message-bounds_example =
    split_whatsapp_message-bounds (units " Hola.  Soy Ana!") 8 3 10
      (units "Hola." ∷ units "Soy Ana!" ∷ []) (omega arith) divided

split_whatsapp_message-ends_example :
    split_whatsapp_message (units "abcdefgh ij") 4 3 5 ≢ unfinished
split_whatsapp_message-ends_example = split_whatsapp_message-ends (units "abcdefgh ij") 4 3 5

split_whatsapp_message-throws_example :
    (parts : List Units) × (split_long_unit (normal_text (units "abcdefgh ij")) 5 ≡ returns parts)
    × (2 < length parts)
split_whatsapp_message-throws_example =
    split_whatsapp_message-throws (units "abcdefgh ij") 4 2 5 (omega arith) (omega arith)
      (omega arith) too_long
