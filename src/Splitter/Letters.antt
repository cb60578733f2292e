-- ===== src/Splitter/Letters.antt =====
-- What no step of whatsapp-message-splitter.ts loses: the units that are not white space.
use mathlib.Core.List.{append_assoc, append-nil}
use hermes_n8n.Prelude.{
  ◌∙◌, ℕ, ◌≡◌, refl, sym, Bool, true, false, not, ◌&&◌, ◌==◌, ==_true, List, [], ◌∷◌, ◌++◌,
  if◌then◌else◌, select, Bool-cases, inl, inr, arith,
}
use hermes_n8n.Text.{Units, is_space}
use hermes_n8n.Splitter.Normal.{
  starts_with, join_lines, collapse, trim_left, trim_right, is_empty, normal_text,
}
use hermes_n8n.Splitter.Words.{
  joined, Place, inside, after_stop, gap, is_stop, sentences, sentence_units, words,
}

unfoldable pub letters : Units → Units
letters s = select (λ c. not (is_space c)) s

unfoldable pub all_letters : List Units → Units
unfolding letters
all_letters [] = []
all_letters (u ∷ us) = letters u ++ all_letters us

pub letters-append : (s t : Units) → letters (s ++ t) ≡ letters s ++ letters t
unfolding letters
letters-append [] t = refl
letters-append (c ∷ s) t = elim (Bool-cases (is_space c)) [
  | inl y ↦ rw (y, letters-append s t)
  | inr n ↦ rw (n, letters-append s t)
]

pub all_letters-append :
    (us vs : List Units) → all_letters (us ++ vs) ≡ all_letters us ++ all_letters vs
unfolding all_letters
all_letters-append [] vs = refl
all_letters-append (u ∷ us) vs = simp (all_letters-append us vs, append_assoc)

letters_of_space : (c : ℕ) (s : Units) → is_space c ≡ true → letters (c ∷ s) ≡ letters s
unfolding letters
letters_of_space c s y = rw y

is_space_of_return : (c : ℕ) (b : Bool) → (c == 13 && b) ≡ true → is_space c ≡ true
unfolding is_space
is_space_of_return c b h = rw (==_true c 13 (ground (arith, h))) refl

letters-cons : (c : ℕ) (s t : Units) → letters s ≡ letters t → letters (c ∷ s) ≡ letters (c ∷ t)
letters-cons c s t h = rw (letters-append (c ∷ []) s, letters-append (c ∷ []) t, h) refl

letters-join_lines : (s : Units) → letters (join_lines s) ≡ letters s
unfolding join_lines
letters-join_lines [] = refl
letters-join_lines (c ∷ s) = elim (Bool-cases (c == 13 && starts_with 10 s)) [
  | inl y ↦ rw y (
      letters-join_lines s ∙ sym (letters_of_space c s (is_space_of_return c (starts_with 10 s) y)))
  | inr n ↦ rw n (letters-cons c (join_lines s) s (letters-join_lines s))
]

letters-collapse : (after : Bool) (s : Units) → letters (collapse after s) ≡ letters s
unfolding collapse
letters-collapse after [] = refl
letters-collapse after (c ∷ s) = elim (Bool-cases (is_space c)) [
  | inl y ↦ elim (Bool-cases after) [
    | inl a ↦ rw (y, collapse, a) (letters-collapse true s ∙ sym (letters_of_space c s y))
    | inr b ↦
        rw (y, collapse, b)
          (letters_of_space 32 (collapse true s) (unfold is_space in refl)
            ∙ letters-collapse true s
            ∙ sym (letters_of_space c s y))
  ]
  | inr n ↦ rw (n, collapse) (letters-cons c (collapse false s) s (letters-collapse false s))
]

letters-trim_left : (s : Units) → letters (trim_left s) ≡ letters s
unfolding trim_left
letters-trim_left [] = refl
letters-trim_left (c ∷ s) = elim (Bool-cases (is_space c)) [
  | inl y ↦ rw y (letters-trim_left s ∙ sym (letters_of_space c s y))
  | inr n ↦ rw n refl
]

letters-last :
    (c : ℕ) (t : Units) → letters (if is_empty t && is_space c then [] else c ∷ t) ≡ letters (c ∷ t)
letters-last c [] = elim (Bool-cases (is_space c)) [
  | inl y ↦ rw (y, letters_of_space c [] y) refl
  | inr n ↦ rw n refl
]
letters-last c (d ∷ t) = refl

letters-trim_right : (s : Units) → letters (trim_right s) ≡ letters s
unfolding trim_right
letters-trim_right [] = refl
letters-trim_right (c ∷ s) =
    letters-last c (trim_right s) ∙ letters-cons c (trim_right s) s (letters-trim_right s)

letters_across : (c : ℕ) (s t : Units) → is_space c ≡ true → letters (s ++ c ∷ t) ≡ letters (s ++ t)
letters_across c s t y =
    rw (letters-append s (c ∷ t), letters-append s t, letters_of_space c t y) refl

pub letters-joined :
    (current unit : Units) → letters (joined current unit) ≡ letters current ++ letters unit
unfolding letters is_space
letters-joined [] unit = refl
letters-joined (c ∷ u) unit = letters-append (c ∷ u) (32 ∷ unit)

pub letters-normal_text : (s : Units) → letters (normal_text s) ≡ letters s
unfolding normal_text
letters-normal_text s =
    rw (letters-trim_right, letters-trim_left, letters-collapse, letters-join_lines) refl

all_letters_of_one : (u : Units) → all_letters (u ∷ []) ≡ letters (u ++ [])
unfolding all_letters
all_letters_of_one u = rw (append-nil u, append-nil (letters u)) refl

pub all_letters-words :
    (after : Bool) (current s : Units)
    → all_letters (words after current s) ≡ letters (current ++ s)
unfolding all_letters words
all_letters-words after current [] = all_letters_of_one current
all_letters-words after current (c ∷ s) = elim (Bool-cases (is_space c)) [
  | inl y ↦ elim (Bool-cases after) [
    | inl a ↦
        rw (y, words, a) (all_letters-words true current s ∙ sym (letters_across c current s y))
    | inr b ↦
        rw (y, words, b, all_letters-words true [] s)
          (sym (letters-append current s) ∙ sym (letters_across c current s y))
  ]
  | inr n ↦ rw (n, words) (all_letters-words false (current ++ c ∷ []) s ∙ rw append_assoc refl)
]

pub all_letters-sentences :
    (at : Place) (current s : Units) → all_letters (sentences at current s) ≡ letters (current ++ s)
unfolding all_letters sentences
all_letters-sentences at current [] = all_letters_of_one current
all_letters-sentences gap current (c ∷ s) = elim (Bool-cases (is_space c)) [
  | inl y ↦
      rw (y, sentences) (all_letters-sentences gap current s ∙ sym (letters_across c current s y))
  | inr n ↦
      rw (n, sentences)
        (all_letters-sentences (if is_stop c then after_stop else inside) (current ++ c ∷ []) s
          ∙ rw append_assoc refl)
]
all_letters-sentences after_stop current (c ∷ s) = elim (Bool-cases (is_space c)) [
  | inl y ↦
      rw (y, sentences, all_letters-sentences gap [] s)
        (sym (letters-append current s) ∙ sym (letters_across c current s y))
  | inr n ↦
      rw (n, sentences)
        (all_letters-sentences (if is_stop c then after_stop else inside) (current ++ c ∷ []) s
          ∙ rw append_assoc refl)
]
all_letters-sentences inside current (c ∷ s) =
    all_letters-sentences (if is_stop c then after_stop else inside) (current ++ c ∷ []) s
    ∙ rw append_assoc refl

all_letters-filled :
    (us : List Units) → all_letters (select (λ s. not (is_empty s)) us) ≡ all_letters us
unfolding all_letters
all_letters-filled [] = refl
all_letters-filled ([] ∷ us) = all_letters-filled us
all_letters-filled ((c ∷ u) ∷ us) = rw (all_letters-filled us) refl

pub all_letters-sentence_units : (s : Units) → all_letters (sentence_units s) ≡ letters s
unfolding sentence_units
all_letters-sentence_units s =
    all_letters-filled (sentences inside [] s) ∙ all_letters-sentences inside [] s
