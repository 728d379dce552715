-- ===== src/Utils/Quote/Identifiers.antt =====
-- `Quote` against the identifiers of SQL, which have no backslash escape: a quote inside an
-- identifier is written twice.
use mathlib.Core.List.{flat_map}
use native.Mathlib.Decide.{ℕ_discrete}
use web_form.Prelude.{
  Text, [], ◌∷◌, ◌++◌, ℕ, zero, suc, nat_eq, if◌then◌else◌, ◌≡◌, ◌≢◌, refl, arith, Option, none,
  some, append_assoc, All, ◌↔◌, ◌∙◌, ap,
}
use web_form.Utils.Quote.{escape, quote_rune, quote}
use web_form.Utils.Quote.Reading.{prepend, quote-flat_map}

-- The body of an identifier, up to a quote that no quote follows.
pub read_doubled : ℕ → Text → Option (Text × Text)
read_doubled q [] = none
read_doubled q (c ∷ []) = if nat_eq c q then some ([], []) else none
read_doubled q (c ∷ d ∷ s) =
    let inner = prepend q (read_doubled q s) in
    let kept = prepend c (read_doubled q (d ∷ s)) in
    if nat_eq c q then if nat_eq d q then inner else some ([], d ∷ s) else kept

abbrev pub identifier : ℕ → Text → Option (Text × Text)
identifier q [] = none
identifier q (c ∷ s) = if nat_eq c q then read_doubled q s else none

-- No quote and no backslash.
abbrev pub IsPlain : ℕ → Text → Type 0
IsPlain q = All (λ c. (c ≢ q) × (c ≢ escape))

-- What follows does not begin with the quote.
abbrev pub Apart : ℕ → Text → Type 0
Apart q [] = Unit
Apart q (c ∷ s) = c ≢ q

abbrev slashes : ℕ → Text → Text
slashes zero s = s
slashes (suc k) s = escape ∷ slashes k s

slashes-cons : (k : ℕ) (s : Text) → slashes k (escape ∷ s) ≡ escape ∷ slashes k s
slashes-cons zero s = refl
slashes-cons (suc k) s = ap (λ t. escape ∷ t) (slashes-cons k s)

read_doubled-plain :
    (q c : ℕ) (s : Text) → c ≢ q → read_doubled q (c ∷ s) ≡ prepend c (read_doubled q s)
unfolding read_doubled
read_doubled-plain q c [] h = ground arith
read_doubled-plain q c (d ∷ s) h = ground arith

read_doubled-close :
    (q : ℕ) (rest : Text) → Apart q rest → read_doubled q (q ∷ rest) ≡ some ([], rest)
unfolding read_doubled
read_doubled-close q [] h = ground arith
read_doubled-close q (d ∷ rest) h = ground arith

module _ (q : ℕ) (apart : q ≢ escape) where
  abbrev body : Text → Text → Text
  body v rest = flat_map (quote_rune q) v ++ q ∷ rest

  body-cons : (c : ℕ) (v rest : Text) → body (c ∷ v) rest ≡ quote_rune q c ++ body v rest
  unfolding flat_map
  body-cons c v rest = append_assoc (quote_rune q c) (flat_map (quote_rune q) v) (q ∷ rest)

  read_plain :
      (c : ℕ) (s : Text)
      → c ≢ q
      → c ≢ escape
      → read_doubled q (quote_rune q c ++ s) ≡ prepend c (read_doubled q s)
  unfolding quote_rune
  read_plain c s h k = ground (arith, read_doubled-plain q c s h)

  read_escape :
      (s : Text)
      → read_doubled q (quote_rune q escape ++ s)
        ≡ prepend escape (prepend escape (read_doubled q s))
  unfolding quote_rune
  read_escape s =
      ground (arith, read_doubled-plain q escape (escape ∷ s), read_doubled-plain q escape s)

  read_quote :
      (s : Text) → read_doubled q (quote_rune q q ++ s) ≡ prepend escape (read_doubled q (q ∷ s))
  unfolding quote_rune
  read_quote s = ground (arith, read_doubled-plain q escape (q ∷ s))

  prepend-eq-some :
      (c : ℕ) (o : Option (Text × Text)) {w r : Text}
      → prepend c o ≡ some (w, r)
      → (w' : Text) × (o ≡ some (w', r)) × (w ≡ c ∷ w')
  prepend-eq-some c none h = cc
  prepend-eq-some c (some (v, s)) h = (v, ground arith, ground arith)

  read_escape-eq-some :
      (v rest : Text) {w r : Text}
      → read_doubled q (body (escape ∷ v) rest) ≡ some (w, r)
      → (w' : Text) × (read_doubled q (body v rest) ≡ some (w', r)) × (w ≡ escape ∷ escape ∷ w')
  read_escape-eq-some v rest {w} {r} h =
      let (w₁, h₁, e₁) =
        prepend-eq-some escape (prepend escape (read_doubled q (body v rest))) {w = w} {r = r}
          (cc (h, body-cons escape v rest, read_escape (body v rest))) in
      let (w₂, h₂, e₂) = prepend-eq-some escape (read_doubled q (body v rest)) h₁ in
      (w₂, h₂, e₁ ∙ ap (λ t. escape ∷ t) e₂)

  -- Reading a doubled backslash gets ahead of the value, and never falls back.
  ahead :
      (k : ℕ) (v rest w r : Text)
      → read_doubled q (body v rest) ≡ some (w, r)
      → slashes (suc k) w ≢ v
  ahead k [] rest w r h e = cc
  ahead k (c ∷ v) rest w r h e =
      let c_escape : c ≡ escape = ground arith in
      let shorter : slashes k w ≡ v = ground arith in
      let (w', h', e') = read_escape-eq-some v rest {w = w} {r = r} (rw (← c_escape) h) in
      ahead (suc k) v rest w' r h'
        (cc (shorter, e', slashes-cons k w', slashes-cons k (escape ∷ w')))

  quote_first : (v rest : Text) → read_doubled q (body (q ∷ v) rest) ≢ some (q ∷ v, rest)
  quote_first v rest h =
      let (w, _, e) =
        prepend-eq-some escape (read_doubled q (q ∷ body v rest)) {w = q ∷ v} {r = rest}
          (cc (h, body-cons q v rest, read_quote (body v rest))) in
      apart (ground arith)

  escape_first : (v rest : Text) → read_doubled q (body (escape ∷ v) rest) ≢ some (escape ∷ v, rest)
  escape_first v rest h =
      let (w, h', e) = read_escape-eq-some v rest {w = escape ∷ v} {r = rest} h in
      ahead 0 v rest w rest h' (ground arith)

  plain_first :
      (c : ℕ) (v rest : Text)
      → c ≢ q
      → c ≢ escape
      → read_doubled q (body (c ∷ v) rest) ≡ some (c ∷ v, rest)
      → read_doubled q (body v rest) ≡ some (v, rest)
  plain_first c v rest not_quote not_escape h =
      let (w, h', e) =
        prepend-eq-some c (read_doubled q (body v rest)) {w = c ∷ v} {r = rest}
          (cc (h, body-cons c v rest, read_plain c (body v rest) not_quote not_escape)) in
      let same : v ≡ w = ground arith in cc

  read_doubled-IsPlain_of_eq :
      (v rest : Text) → read_doubled q (body v rest) ≡ some (v, rest) → IsPlain q v
  read_doubled-IsPlain_of_eq [] rest h = tt
  read_doubled-IsPlain_of_eq (c ∷ v) rest h = elim (ℕ_discrete c q) [
    | yes is_quote ↦ absurd (quote_first v rest (rw is_quote at h))
    | no not_quote ↦ elim (ℕ_discrete c escape) [
      | yes is_escape ↦ absurd (escape_first v rest (rw is_escape at h))
      | no not_escape ↦ (
        (not_quote, not_escape),
        read_doubled-IsPlain_of_eq v rest (plain_first c v rest not_quote not_escape h),
      )
    ]
  ]

  plain-read_doubled :
      (v rest : Text) → Apart q rest → IsPlain q v → read_doubled q (body v rest) ≡ some (v, rest)
  unfolding flat_map
  plain-read_doubled [] rest a h = read_doubled-close q rest a
  plain-read_doubled (c ∷ v) rest a ((not_quote, not_escape), h) =
      rw (body-cons, read_plain c _ not_quote not_escape, plain-read_doubled v rest a h)

-- In SQL, Quote gives an identifier that names the value exactly when the value has no quote and no
-- backslash, whatever follows that does not begin with the quote; the quote rune is not the
-- backslash.
pub identifier-quote_iff :
    (q : ℕ) (v rest : Text)
    → q ≢ escape
    → Apart q rest
    → (identifier q (quote v q ++ rest) ≡ some (v, rest)) ↔ IsPlain q v
identifier-quote_iff q v rest h a =
    rw (quote-flat_map, append_assoc)
      (
        λ e. read_doubled-IsPlain_of_eq q h v rest (ground arith),
        λ p. ground (arith, plain-read_doubled q h v rest a p),
      )
