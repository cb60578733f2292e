-- ===== src/Splitter/Normal.antt =====
-- The normal form of a reply: whatsapp-message-splitter.ts, the first line of splitWhatsAppMessage.
use hermes_n8n.Prelude.{ℕ, Bool, true, false, ◌&&◌, ◌==◌, List, [], ◌∷◌, if◌then◌else◌}
use hermes_n8n.Text.{Units, is_space}

unfoldable pub starts_with : ℕ → Units → Bool
starts_with c [] = false
starts_with c (d ∷ s) = c == d

-- `replace(/\r\n/g, '\n')`.
unfoldable pub join_lines : Units → Units
unfolding starts_with
join_lines [] = []
join_lines (c ∷ s) =
    let rest = join_lines s in if c == 13 && starts_with 10 s then rest else c ∷ rest

-- `replace(/\s+/g, ' ')`; the flag says that the unit before was white space.
unfoldable pub collapse : Bool → Units → Units
unfolding is_space
collapse after [] = []
collapse after (c ∷ s) = elim (is_space c) [
  | true ↦ let rest = collapse true s in if after then rest else 32 ∷ rest
  | false ↦ c ∷ collapse false s
]

unfoldable pub trim_left : Units → Units
unfolding is_space
trim_left [] = []
trim_left (c ∷ s) = let rest = trim_left s in if is_space c then rest else c ∷ s

abbrev pub is_empty {ℓ} : {A : Type ℓ} → List A → Bool
is_empty [] = true
is_empty (x ∷ xs) = false

unfoldable pub trim_right : Units → Units
unfolding is_space
trim_right [] = []
trim_right (c ∷ s) = let rest = trim_right s in if is_empty rest && is_space c then [] else c ∷ rest

unfoldable pub normal_text : Units → Units
unfolding join_lines collapse trim_left trim_right
normal_text content = trim_right (trim_left (collapse false (join_lines content)))
