-- ===== src/Utils/Quote/Reading.antt =====
-- Readers of quoted text, written without regard to `Quote`, and what they make of its output.
use mathlib.Core.List.{flat_map}
use web_form.Prelude.{
  Text, [], ◌∷◌, ◌++◌, ℕ, nat_eq, if◌then◌else◌, ◌≡◌, ◌≢◌, sym, arith, Option, none, some,
  append_assoc, append-nil, ℕ-comparable,
}
use web_form.Utils.Quote.{escape, quote_rune, quote_loop, quote_builder, quote}

-- The body of a text in quotes where a backslash makes the next rune literal; what stands behind
-- the closing quote is returned too.
abbrev pub prepend : ℕ → Option (Text × Text) → Option (Text × Text)
prepend c none = none
prepend c (some (v, rest)) = some (c ∷ v, rest)

pub read_escaped : ℕ → Text → Option (Text × Text)
read_escaped q [] = none
read_escaped q (c ∷ []) = if nat_eq c q then some ([], []) else none
read_escaped q (c ∷ d ∷ s) =
    let skipped = prepend d (read_escaped q s) in
    let kept = prepend c (read_escaped q (d ∷ s)) in
    if nat_eq c q then some ([], d ∷ s) else if nat_eq c escape then skipped else kept

abbrev pub unquote : ℕ → Text → Option (Text × Text)
unquote q [] = none
unquote q (c ∷ s) = if nat_eq c q then read_escaped q s else none

quote_loop-flat_map : (q : ℕ) (out v : Text) → quote_loop q out v ≡ out ++ flat_map (quote_rune q) v
unfolding quote_loop flat_map
quote_loop-flat_map q out [] = sym (append-nil out)
quote_loop-flat_map q out (c ∷ v) =
    simp (quote_loop-flat_map q (out ++ quote_rune q c) v, append_assoc)

pub quote-flat_map : (v : Text) (q : ℕ) → quote v q ≡ q ∷ (flat_map (quote_rune q) v ++ q ∷ [])
unfolding quote quote_builder
quote-flat_map v q = rw quote_loop-flat_map

pub quote_builder-quote : (out v : Text) (q : ℕ) → quote_builder out v q ≡ out ++ quote v q
unfolding quote quote_builder
quote_builder-quote out v q = simp (quote_loop-flat_map, append_assoc)

read_escaped-quote_rune :
    (q c : ℕ) (s : Text)
    → q ≢ escape
    → read_escaped q (quote_rune q c ++ s) ≡ prepend c (read_escaped q s)
unfolding quote_rune read_escaped
read_escaped-quote_rune q c [] h = ground arith
read_escaped-quote_rune q c (d ∷ s) h = ground arith

read_escaped-close : (q : ℕ) (rest : Text) → read_escaped q (q ∷ rest) ≡ some ([], rest)
unfolding read_escaped
read_escaped-close q [] = ground arith
read_escaped-close q (d ∷ rest) = ground arith

read_escaped-flat_map :
    (q : ℕ) (v rest : Text)
    → q ≢ escape
    → read_escaped q (flat_map (quote_rune q) v ++ q ∷ rest) ≡ some (v, rest)
unfolding flat_map
read_escaped-flat_map q [] rest h = read_escaped-close q rest
read_escaped-flat_map q (c ∷ v) rest h =
    rw (append_assoc, read_escaped-quote_rune q c _ h, read_escaped-flat_map q v rest h)

-- A reader for which a backslash makes the next rune literal reads a quoted value back, for every
-- quote rune but the backslash, and stops exactly behind it.
pub unquote-quote :
    (q : ℕ) (v rest : Text) → q ≢ escape → unquote q (quote v q ++ rest) ≡ some (v, rest)
unquote-quote q v rest h =
    rw (quote-flat_map, append_assoc) (ground (arith, read_escaped-flat_map q v rest h))
