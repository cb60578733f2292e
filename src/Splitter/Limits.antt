-- ===== src/Splitter/Limits.antt =====
-- The loops of whatsapp-message-splitter.ts end, and what their parts have.
use mathlib.Core.List.{append_assoc, append-nil}
use hermes_n8n.Prelude.{
  take, drop, ℕ, zero, suc, ◌≤◌, ◌≡◌, refl, sym, ap, ◌∙◌, true, false, ltb, leb, List, [], ◌∷◌,
  ◌++◌, Bool-cases, inl, inr, arith, length, All, All-append,
}
use hermes_n8n.Text.{Units}
use hermes_n8n.Splitter.Words.{
  returns, Packing, close, joined, extend, pack_words, slices, split_long_unit, words,
}
use hermes_n8n.Splitter.Letters.{
  letters-joined, letters, all_letters, letters-append, all_letters-append, all_letters-words,
}
use hermes_n8n.Splitter.Pack.{split_units, pack, pack_units}

-- A part that is not empty and has at most `limit` units.
abbrev pub Fits : ℕ → Units → Type 0
Fits limit u = (1 ≤ length u) × (length u ≤ limit)

-- Parts that fit and have the letters of `text`, in their order.
pub record Divides (limit : ℕ) (text : Units) (parts : List Units) : Type 0 where
  pub fit : All (Fits limit) parts
  pub same : all_letters parts ≡ text

-- The state of a loop that has read `text` so far.
record Packs (limit : ℕ) (text : Units) (p : Packing) : Type 0 where
  fit : All (Fits limit) (p.parts)
  within : length (p.current) ≤ limit
  same : all_letters (p.parts) ++ letters (p.current) ≡ text

length-drop : (n : ℕ) (u : Units) → length (drop n u) ≤ length u
length-drop zero u = omega arith
length-drop (suc n) [] = omega arith
length-drop (suc n) (c ∷ u) = omega (arith, length-drop n u)

length-take : (n : ℕ) (u : Units) → length (take n u) ≤ n
length-take zero u = omega arith
length-take (suc n) [] = omega arith
length-take (suc n) (c ∷ u) = omega (arith, length-take n u)

take-drop : (n : ℕ) (u : Units) → take n u ++ drop n u ≡ u
take-drop zero u = refl
take-drop (suc n) [] = refl
take-drop (suc n) (c ∷ u) = rw (take-drop n u) refl

slices_end :
    (fuel limit : ℕ) (w : Units)
    → length w ≤ fuel
    → 1 ≤ limit
    → (ss : List Units) × (slices fuel limit w ≡ returns ss) × Divides limit (letters w) ss
unfolding slices letters all_letters
slices_end fuel limit [] h l = ([], refl, record { fit = tt; same = refl })
slices_end zero limit (c ∷ w) h l = absurd (omega arith)
slices_end (suc fuel) zero (c ∷ w) h l = absurd (omega arith)
slices_end (suc fuel) (suc n) (c ∷ w) h l =
    let (ss, e, d) = slices_end fuel (suc n) (drop n w) (omega (arith, length-drop n w)) l in
    (
      (c ∷ take n w) ∷ ss,
      rw e refl,
      record {
        fit = ((omega arith, omega (arith, length-take n w)), d.fit);
        same = rw (d.same) (
            sym (letters-append (c ∷ take n w) (drop n w))
            ∙ ap letters (take-drop (suc n) (c ∷ w)));
      },
    )

close-Divides :
    (limit : ℕ) (text : Units) (parts : List Units) (current : Units)
    → Packs limit text (record { parts = parts; current = current })
    → Divides limit text (close (record { parts = parts; current = current }))
unfolding letters all_letters
close-Divides limit text parts [] h = record {
  fit = h.fit;
  same = sym (append-nil (all_letters parts)) ∙ h.same;
}
close-Divides limit text parts (c ∷ u) h = record {
  fit = All-append (Fits limit) parts ((c ∷ u) ∷ []) (h.fit) ((omega arith, h.within), tt);
  same = rw (all_letters-append parts ((c ∷ u) ∷ []), append-nil (letters (c ∷ u))) (h.same);
}

joined_same :
    (before text current unit : Units)
    → before ++ letters current ≡ text
    → before ++ letters (joined current unit) ≡ text ++ letters unit
joined_same before text current unit h =
    rw (letters-joined current unit, ← append_assoc before (letters current) (letters unit), h) refl

extend-Packs :
    (limit : ℕ) (text : Units) (parts : List Units) (current unit : Units)
    → Packs limit text (record { parts = parts; current = current })
    → length unit ≤ limit
    → Packs limit
        (text ++ letters unit)
        (extend limit (record { parts = parts; current = current }) unit)
unfolding extend letters all_letters
extend-Packs limit text parts [] unit h l = record {
  fit = h.fit;
  within = l;
  same = ap (λ t. t ++ letters unit) (sym (append-nil (all_letters parts)) ∙ h.same);
}
extend-Packs limit text parts (c ∷ u) unit h l =
    elim (Bool-cases (ltb limit (length (joined (c ∷ u) unit)))) [
      | inl y ↦
          let d = close-Divides limit text parts (c ∷ u) h in
          rw y (record { fit = d.fit; within = l; same = ap (λ t. t ++ letters unit) (d.same) })
      | inr n ↦ rw n (record {
        fit = h.fit;
        within = ground arith;
        same = joined_same (all_letters parts) text (c ∷ u) unit (h.same);
      })
    ]

sliced_same :
    (before ss : List Units) (text new : Units)
    → all_letters before ≡ text
    → all_letters ss ≡ new
    → all_letters (before ++ ss) ++ letters [] ≡ text ++ new
unfolding letters
sliced_same before ss text new h k =
    rw (append-nil (all_letters (before ++ ss)), all_letters-append before ss, h, k) refl

pub one_Divides :
    (limit : ℕ) (u : Units) → 1 ≤ length u → length u ≤ limit → Divides limit (letters u) (u ∷ [])
unfolding all_letters
one_Divides limit u f h = record { fit = ((f, h), tt); same = append-nil (letters u) }

empty_Packs : (limit : ℕ) → Packs limit [] (record { parts = []; current = [] })
unfolding all_letters letters
empty_Packs limit = record { fit = tt; within = omega arith; same = refl }

sliced_word :
    (limit : ℕ) (w : Units) (ws ss : List Units) (p : Packing)
    → ltb limit (length w) ≡ true
    → slices (length w) limit w ≡ returns ss
    → pack_words limit (w ∷ ws) p
      ≡ pack_words limit ws (record { parts = close p ++ ss; current = [] })
unfolding pack_words
sliced_word limit w ws ss p y e = rw (y, pack_words, e) refl

short_word :
    (limit : ℕ) (w : Units) (ws : List Units) (p : Packing)
    → ltb limit (length w) ≡ false
    → pack_words limit (w ∷ ws) p ≡ pack_words limit ws (extend limit p w)
unfolding pack_words
short_word limit w ws p n = rw (n, pack_words) refl

pack_words_end :
    (limit : ℕ) (text : Units) (ws : List Units) (p : Packing)
    → 1 ≤ limit
    → Packs limit text p
    → (parts : List Units) × (pack_words limit ws p ≡ returns parts)
      × Divides limit (text ++ all_letters ws) parts
unfolding pack_words all_letters
pack_words_end limit text [] p l h =
    (close p, refl, rw (append-nil text) (close-Divides limit text (p.parts) (p.current) h))
pack_words_end limit text (w ∷ ws) p l h = elim (Bool-cases (ltb limit (length w))) [
  | inl y ↦
      let (ss, e, d) = slices_end (length w) limit w (omega arith) l in
      let c = close-Divides limit text (p.parts) (p.current) h in
      let (parts, r, q) =
        pack_words_end limit (text ++ letters w) ws (record { parts = close p ++ ss; current = [] })
          l
          (record {
            fit = All-append (Fits limit) (close p) ss (c.fit) (d.fit);
            within = omega arith;
            same = sliced_same (close p) ss text (letters w) (c.same) (d.same);
          }) in
      (
        parts,
        sliced_word limit w ws ss p y e ∙ r,
        rw (← append_assoc text (letters w) (all_letters ws)) q,
      )
  | inr n ↦
      let (parts, r, q) =
        pack_words_end limit (text ++ letters w) ws (extend limit p w) l
          (extend-Packs limit text (p.parts) (p.current) w h (ground arith)) in
      (
        parts,
        short_word limit w ws p n ∙ r,
        rw (← append_assoc text (letters w) (all_letters ws)) q,
      )
]

pub split_long_unit_end :
    (value : Units) (limit : ℕ)
    → 1 ≤ limit
    → 1 ≤ length value
    → (parts : List Units) × (split_long_unit value limit ≡ returns parts)
      × Divides limit (letters value) parts
unfolding split_long_unit
split_long_unit_end value limit l f = elim (Bool-cases (leb (length value) limit)) [
  | inl y ↦ (value ∷ [], rw y refl, one_Divides limit value f (ground arith))
  | inr n ↦
      let (parts, r, q) =
        pack_words_end limit [] (words false [] value) (record { parts = []; current = [] }) l
          (empty_Packs limit) in
      (parts, rw n r, rw (← all_letters-words false [] value) q)
]

pub split_units_end :
    (limit : ℕ) (us : List Units)
    → 1 ≤ limit
    → All (λ u. 1 ≤ length u) us
    → (parts : List Units) × (split_units limit us ≡ returns parts)
      × Divides limit (all_letters us) parts
unfolding split_units all_letters
split_units_end limit [] l h = ([], refl, record { fit = tt; same = refl })
split_units_end limit (u ∷ us) l (h, hs) =
    let (a, e, d) = split_long_unit_end u limit l h in
    let (b, f, q) = split_units_end limit us l hs in
    (
      a ++ b,
      rw (e, f) refl,
      record {
        fit = All-append (Fits limit) a b (d.fit) (q.fit);
        same = rw (all_letters-append a b, d.same, q.same) refl;
      },
    )

pack-Divides :
    (limit : ℕ) (text : Units) (us : List Units) (p : Packing)
    → All (Fits limit) us
    → Packs limit text p
    → Divides limit (text ++ all_letters us) (pack limit us p)
unfolding pack all_letters
pack-Divides limit text [] p f h =
    rw (append-nil text) (close-Divides limit text (p.parts) (p.current) h)
pack-Divides limit text (u ∷ us) p (f, fs) h =
    rw (← append_assoc text (letters u) (all_letters us)) (
      pack-Divides limit (text ++ letters u) us (extend limit p u) fs
        (extend-Packs limit text (p.parts) (p.current) u h f.1))

pub pack_units_end :
    (units : List Units) (limit : ℕ)
    → 1 ≤ limit
    → All (λ u. 1 ≤ length u) units
    → (parts : List Units) × (pack_units units limit ≡ returns parts)
      × Divides limit (all_letters units) parts
unfolding pack_units
pack_units_end units limit l h =
    let (us, e, d) = split_units_end limit units l h in
    (
      pack limit us (record { parts = []; current = [] }),
      rw e refl,
      rw (← d.same) (
          pack-Divides limit [] us (record { parts = []; current = [] }) (d.fit)
            (empty_Packs limit)),
    )
