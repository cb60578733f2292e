-- ===== src/Splitter/Division.antt =====
-- What splitWhatsAppMessage of whatsapp-message-splitter.ts answers.
use hermes_n8n.Prelude.{
  subst, ℕ, ◌≤◌, ◌<◌, ◌≡◌, ◌≢◌, sym, ◌∙◌, leb, List, [], ◌∷◌, Bool-cases, inl, inr, arith, length,
  All,
}
use hermes_n8n.Text.{Units}
use hermes_n8n.Splitter.Normal.{normal_text}
use hermes_n8n.Splitter.Words.{returns, throws, unfinished, split_long_unit}
use hermes_n8n.Splitter.Letters.{letters, all_letters, letters-normal_text}
use hermes_n8n.Splitter.Pack.{split_whatsapp_message}
use hermes_n8n.Splitter.Offers.{
  offered, refused, blank, limited_few, answer, returns_throws, returns_same, limited_returns,
  limited_ends, blank_letters, Fits-short,
}

-- The parts that `splitWhatsAppMessage` returns have, one after the other, exactly the units of the
-- reply that are not white space, in their order, for all limits.
pub split_whatsapp_message-letters :
    (content : Units) (threshold max_parts max_chars : ℕ) (parts : List Units)
    → split_whatsapp_message content threshold max_parts max_chars ≡ returns parts
    → all_letters parts ≡ letters content
split_whatsapp_message-letters content t m c parts h = elim (answer content t m c) [
  | blank z e ↦
      subst (λ us. all_letters us ≡ letters content) (returns_same ([] ∷ []) parts (sym e ∙ h))
        (blank_letters content z)
  | refused i e ↦ absurd (cc (e, h))
  | offered v us e o ↦
      subst (λ us. all_letters us ≡ letters content) (limited_returns m c us parts (sym e ∙ h)).0
        (o.divides.same ∙ letters-normal_text content)
]

-- The parts that `splitWhatsAppMessage` returns are at most `maxParts`, and none has more than
-- `maxPartChars` units, if `maxParts` is at least 1.
pub split_whatsapp_message-bounds :
    (content : Units) (threshold max_parts max_chars : ℕ) (parts : List Units)
    → 1 ≤ max_parts
    → split_whatsapp_message content threshold max_parts max_chars ≡ returns parts
    → (length parts ≤ max_parts) × All (λ part. length part ≤ max_chars) parts
split_whatsapp_message-bounds content t m c parts k h = elim (answer content t m c) [
  | blank z e ↦
      subst (λ us. (length us ≤ m) × All (λ u. length u ≤ c) us)
        (returns_same ([] ∷ []) parts (sym e ∙ h)) (k, (omega arith, tt))
  | refused i e ↦ absurd (cc (e, h))
  | offered v us e o ↦
      let r = limited_returns m c us parts (sym e ∙ h) in
      subst (λ us. (length us ≤ m) × All (λ u. length u ≤ c) us) r.0
        (r.1, Fits-short c us (o.divides.fit))
]

-- `splitWhatsAppMessage` ends for every reply and all limits: the loop that slices a long word never
-- runs on.
pub split_whatsapp_message-ends :
    (content : Units) (threshold max_parts max_chars : ℕ)
    → split_whatsapp_message content threshold max_parts max_chars ≢ unfinished
split_whatsapp_message-ends content t m c h = elim (answer content t m c) [
  | blank z e ↦ absurd (cc (e, h))
  | refused i e ↦ absurd (cc (e, h))
  | offered v us e o ↦ limited_ends m c us (sym e ∙ h)
]

-- If `splitWhatsAppMessage` throws under limits of at least 1, then the reply divided without
-- regard to its sentences, into parts of at most `maxPartChars` units, has more than `maxParts` parts.
pub split_whatsapp_message-throws :
    (content : Units) (threshold max_parts max_chars : ℕ)
    → 1 ≤ threshold
    → 1 ≤ max_parts
    → 1 ≤ max_chars
    → split_whatsapp_message content threshold max_parts max_chars ≡ throws
    → (parts : List Units) × (split_long_unit (normal_text content) max_chars ≡ returns parts)
      × (max_parts < length parts)
split_whatsapp_message-throws content t m c i j k h = elim (answer content t m c) [
  | blank z e ↦ absurd (cc (e, h))
  | refused w e ↦ absurd (ground (arith, w))
  | offered v us e o ↦ elim (o.last_resort) [
    | inl few ↦
        absurd (returns_throws us (sym (limited_few m c us (o.divides.fit) few) ∙ sym e ∙ h))
    | inr r ↦ (
      us,
      r,
      elim (Bool-cases (leb (length us) m)) [
        | inl few ↦ absurd (
            returns_throws us (sym (limited_few m c us (o.divides.fit) (ground arith)) ∙ sym e ∙ h))
        | inr many ↦ ground arith
      ],
    )
  ]
]
