-- ===== src/Utils/Quote.antt =====
-- internal/utils/strings.go: `QuoteBuilder` and `Quote`, over the runes of a string.
pub mod Reading
pub mod Identifiers
use web_form.Prelude.{Text, [], ◌∷◌, ◌++◌, ℕ, nat_eq, if◌then◌else◌, ◌||◌, codes}

abbrev pub escape : ℕ
escape = b'\\'

-- What a round of the loop of `QuoteBuilder` writes.
unfoldable pub quote_rune : ℕ → ℕ → Text
quote_rune q c = if nat_eq c q || nat_eq c escape then escape ∷ c ∷ [] else c ∷ []

-- The loop over the runes of the value, with what is written so far.
unfoldable pub quote_loop : ℕ → Text → Text → Text
unfolding quote_rune
quote_loop q out [] = out
quote_loop q out (c ∷ value) = quote_loop q (out ++ quote_rune q c) value

-- `QuoteBuilder` appends to what its builder holds.
unfoldable pub quote_builder : Text → Text → ℕ → Text
unfolding quote_loop
quote_builder out value q = quote_loop q (out ++ q ∷ []) value ++ q ∷ []

unfoldable pub quote : Text → ℕ → Text
unfolding quote_builder
quote value q = quote_builder [] value q
