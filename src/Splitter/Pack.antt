-- ===== src/Splitter/Pack.antt =====
-- The whole division: whatsapp-message-splitter.ts, packUnits and splitWhatsAppMessage. The limits
-- are whole numbers.
use hermes_n8n.Prelude.{
  ℕ, ◌+◌, ◌-◌, ◌/◌, min, max, ◌||◌, ltb, leb, ◌&&◌, List, [], ◌∷◌, ◌++◌, if◌then◌else◌, length, any,
}
use hermes_n8n.Text.{Units}
use hermes_n8n.Splitter.Normal.{is_empty, normal_text}
use hermes_n8n.Splitter.Words.{
  Run, returns, throws, ◌>>=◌, Packing, close, extend, sentence_units, split_long_unit,
}

-- `units.flatMap((value) => splitLongUnit(value, limit))`.
unfoldable pub split_units : ℕ → List Units → Run (List Units)
unfolding split_long_unit
split_units limit [] = returns []
split_units limit (u ∷ us) =
    split_long_unit u limit >>= λ a. split_units limit us >>= λ b. returns (a ++ b)

unfoldable pub pack : ℕ → List Units → Packing → List Units
unfolding extend
pack limit [] p = close p
pack limit (u ∷ us) p = pack limit us (extend limit p u)

unfoldable pub pack_units : List Units → ℕ → Run (List Units)
unfolding split_units pack
pack_units units limit =
    split_units limit units >>= λ us. returns (pack limit us (record { parts = []; current = [] }))

unfoldable pub target_of : Units → ℕ → ℕ → ℕ → ℕ
target_of text threshold max_parts max_chars =
    min max_chars (max threshold ((length text + max_parts - 1) / max_parts))

unfoldable pub limited : ℕ → ℕ → List Units → Run (List Units)
limited max_parts max_chars parts =
    if ltb max_parts (length parts) || any (λ p. ltb max_chars (length p)) parts
    then throws
    else returns parts

unfoldable pub divide : Units → ℕ → ℕ → ℕ → Run (List Units)
unfolding sentence_units split_long_unit pack_units target_of limited
divide text threshold max_parts max_chars =
    pack_units (sentence_units text) (target_of text threshold max_parts max_chars) >>= λ parts.
    (if ltb max_parts (length parts) then split_long_unit text max_chars else returns parts)
    >>= limited max_parts max_chars

unfoldable pub split_whatsapp_message : Units → ℕ → ℕ → ℕ → Run (List Units)
unfolding normal_text divide
split_whatsapp_message content threshold max_parts max_chars =
    let text = normal_text content in
    if is_empty text
    then returns (text ∷ [])
    else if ltb max_parts 1 || ltb max_chars 1 || ltb threshold 1
    then throws
    else if leb (length text) threshold && leb (length text) max_chars
    then returns (text ∷ [])
    else divide text threshold max_parts max_chars
