-- ===== src/Splitter/Offers.antt =====
-- The parts that splitWhatsAppMessage of whatsapp-message-splitter.ts is to return, and the guard at
-- its end.
use hermes_n8n.Prelude.{
  ℕ, ◌≤◌, ◌<◌, ◌≡◌, ◌≢◌, refl, sym, ap, ◌∙◌, Bool, true, false, not, ◌&&◌, ◌||◌, ltb, leb, List, [],
  ◌∷◌, if◌then◌else◌, select, Bool-cases, inl, inr, ◌⊎◌, arith, length, All, any,
}
use hermes_n8n.Text.{Units}
use hermes_n8n.Splitter.Normal.{is_empty, normal_text}
use hermes_n8n.Splitter.Words.{
  inside, Run, returns, throws, unfinished, ◌>>=◌, split_long_unit, sentence_units, sentences,
}
use hermes_n8n.Splitter.Letters.{
  letters, all_letters, letters-normal_text, all_letters-sentence_units,
}
use hermes_n8n.Splitter.Limits.{Fits, Divides, split_long_unit_end, pack_units_end, one_Divides}
use hermes_n8n.Splitter.Pack.{target_of, limited, divide, split_whatsapp_message}

abbrev pub Filled : Units → Type 0
Filled u = 1 ≤ length u

pub select-Filled : (us : List Units) → All Filled (select (λ s. not (is_empty s)) us)
select-Filled [] = tt
select-Filled ([] ∷ us) = select-Filled us
select-Filled ((c ∷ u) ∷ us) = (omega arith, select-Filled us)

pub sentence_units-Filled : (s : Units) → All Filled (sentence_units s)
unfolding sentence_units
sentence_units-Filled s = select-Filled (sentences inside [] s)

pub Fits-widen : (a b : ℕ) → a ≤ b → (us : List Units) → All (Fits a) us → All (Fits b) us
Fits-widen a b h [] f = tt
Fits-widen a b h (u ∷ us) (f, fs) = ((f.0, omega (arith, f.1)), Fits-widen a b h us fs)

pub none_long : (c : ℕ) (us : List Units) → All (Fits c) us → any (λ p. ltb c (length p)) us ≡ false
none_long c [] f = refl
none_long c (u ∷ us) (f, fs) = ground (arith, none_long c us fs)

pub limited_few :
    (m c : ℕ) (us : List Units) → All (Fits c) us → length us ≤ m → limited m c us ≡ returns us
unfolding limited
limited_few m c us f h = rw (none_long c us f) (ground arith)

pub limited_many : (m c : ℕ) (us : List Units) → m < length us → limited m c us ≡ throws
unfolding limited
limited_many m c us h = ground arith

pub target-bounds :
    (text : Units) (t m c : ℕ)
    → 1 ≤ t
    → 1 ≤ c
    → (1 ≤ target_of text t m c) × (target_of text t m c ≤ c)
unfolding target_of
target-bounds text t m c h k = ground arith

pub kept :
    (b : Bool) (r : Run (List Units)) (us : List Units) (g : List Units → Run (List Units))
    → b ≡ false
    → ((if b then r else returns us) >>= g) ≡ g us
kept b r us g n = rw n refl

-- The parts that the guard at the end is asked about.
pub record Offered (text : Units) (m c : ℕ) (parts : List Units) : Type 0 where
  pub divides : Divides c (letters text) parts
  pub last_resort : (length parts ≤ m) ⊎ (split_long_unit text c ≡ returns parts)

pub divide_end :
    (text : Units) (t m c : ℕ)
    → 1 ≤ t
    → 1 ≤ c
    → 1 ≤ length text
    → (parts : List Units) × (divide text t m c ≡ limited m c parts) × Offered text m c parts
unfolding divide
divide_end text t m c h k f =
    let b = target-bounds text t m c h k in
    let (us, e, d) =
      pack_units_end (sentence_units text) (target_of text t m c) b.0
        (sentence_units-Filled text) in
    elim (Bool-cases (ltb m (length us))) [
      | inl y ↦
          let (vs, r, q) = split_long_unit_end text c k f in
          (vs, rw (e, y, r) refl, record { divides = q; last_resort = inr r })
      | inr n ↦ (
        us,
        rw e (kept (ltb m (length us)) (split_long_unit text c) us (limited m c) n),
        record {
          divides = record {
            fit = Fits-widen (target_of text t m c) c b.1 us (d.fit);
            same = d.same ∙ all_letters-sentence_units text;
          };
          last_resort = inl (ground arith);
        },
      )
    ]

pub is_empty-length : (u : Units) → is_empty u ≡ false → 1 ≤ length u
is_empty-length [] h = absurd (ground (arith, h))
is_empty-length (c ∷ u) h = omega arith

pub letters_of_empty : (u : Units) → is_empty u ≡ true → u ≡ []
letters_of_empty [] h = refl
letters_of_empty (c ∷ u) h = absurd (ground (arith, h))

abbrev pub invalid : ℕ → ℕ → ℕ → Bool
invalid t m c = ltb m 1 || ltb c 1 || ltb t 1

pub Offered-end :
    (text : Units) (t m c : ℕ)
    → invalid t m c ≡ false
    → 1 ≤ length text
    → (parts : List Units) × ((if leb (length text) t && leb (length text) c
          then returns (text ∷ [])
          else divide text t m c)
        ≡ limited m c parts)
      × Offered text m c parts
Offered-end text t m c v f = elim (Bool-cases (leb (length text) t && leb (length text) c)) [
  | inl y ↦
      let d = one_Divides c text f (ground arith) in
      (
        text ∷ [],
        rw y (sym (limited_few m c (text ∷ []) (d.fit) (ground arith))),
        record { divides = d; last_resort = inl (ground arith) },
      )
  | inr n ↦ rw n (divide_end text t m c (ground arith) (ground arith) f)
]

pub data Answer (content : Units) (t m c : ℕ) (r : Run (List Units)) : Type 0 where
  blank : normal_text content ≡ [] → r ≡ returns ([] ∷ []) → Answer content t m c r
  refused : invalid t m c ≡ true → r ≡ throws → Answer content t m c r
  offered :
      invalid t m c ≡ false
      → (parts : List Units) → r ≡ limited m c parts
      → Offered (normal_text content) m c parts
      → Answer content t m c r

pub answer :
    (content : Units) (t m c : ℕ) → Answer content t m c (split_whatsapp_message content t m c)
unfolding split_whatsapp_message
answer content t m c = elim (Bool-cases (is_empty (normal_text content))) [
  | inl y ↦
      blank (letters_of_empty (normal_text content) y)
        (rw (letters_of_empty (normal_text content) y) refl)
  | inr n ↦ elim (Bool-cases (invalid t m c)) [
    | inl y ↦ refused y (rw (n, y) refl)
    | inr v ↦
        let (parts, e, o) =
          Offered-end (normal_text content) t m c v (is_empty-length (normal_text content) n) in
        offered v parts (rw (n, v) e) o
  ]
]

pub returns_throws : (a : List Units) → returns a ≢ throws
returns_throws a h = cc

pub returns_same : (a b : List Units) → returns a ≡ returns b → a ≡ b
returns_same a b h = cc

pub limited_returns :
    (m c : ℕ) (us vs : List Units) → limited m c us ≡ returns vs → (us ≡ vs) × (length us ≤ m)
unfolding limited
limited_returns m c us vs h = elim (Bool-cases (ltb m (length us))) [
  | inl y ↦ absurd (ground (arith, h))
  | inr n ↦ elim (Bool-cases (any (λ p. ltb c (length p)) us)) [
    | inl y ↦ absurd (ground (arith, h))
    | inr k ↦ (returns_same us vs (rw (n, k) at h), ground arith)
  ]
]

pub limited_ends : (m c : ℕ) (us : List Units) → limited m c us ≢ unfinished
unfolding limited
limited_ends m c us h = ground (arith, h)

pub blank_letters :
    (content : Units) → normal_text content ≡ [] → all_letters ([] ∷ []) ≡ letters content
unfolding all_letters letters
blank_letters content z = ap letters (sym z) ∙ letters-normal_text content

pub Fits-short : (c : ℕ) (us : List Units) → All (Fits c) us → All (λ u. length u ≤ c) us
Fits-short c [] f = tt
Fits-short c (u ∷ us) (f, fs) = (f.1, Fits-short c us fs)
