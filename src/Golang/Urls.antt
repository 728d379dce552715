-- ===== src/Golang/Urls.antt =====
-- Package net/url: `QueryEscape`, over the UTF-8 bytes of a string.
use mathlib.Core.List.{flat_map}
use web_form.Prelude.{
  Text, [], ◌∷◌, ◌++◌, ℕ, nat_eq, ltb, leb, if◌then◌else◌, ◌||◌, ◌&&◌, ◌≡◌, refl, arith, Bool, true,
  false, ◌+◌, ◌-◌, ◌/◌, ◌%◌, ◌≤◌, length, length-append, ap, codes, ◌⊎◌, inl, inr, All, ◌↔◌,
  Bool-cases, if_elim,
}

unfoldable pub utf8 : ℕ → Text
utf8 c =
    if ltb c 0x80
    then c ∷ []
    else if ltb c 0x800
    then (0xc0 + c / 64) ∷ (0x80 + c % 64) ∷ []
    else if ltb c 0x10000
    then (0xe0 + c / 4096) ∷ (0x80 + c / 64 % 64) ∷ (0x80 + c % 64) ∷ []
    else (0xf0 + c / 262144) ∷ (0x80 + c / 4096 % 64) ∷ (0x80 + c / 64 % 64) ∷ (0x80 + c % 64) ∷ []

abbrev pub unreserved : ℕ → Bool
unreserved c =
    leb b'a' c && leb c b'z'
    || leb b'A' c && leb c b'Z'
    || leb b'0' c && leb c b'9'
    || nat_eq c b'-'
    || nat_eq c b'_'
    || nat_eq c b'.'
    || nat_eq c b'~'

abbrev hex_digit : ℕ → ℕ
hex_digit d = if ltb d 10 then b'0' + d else b'A' + d - 10

abbrev percent : ℕ → Text
percent b = b'%' ∷ hex_digit (b / 16) ∷ hex_digit (b % 16) ∷ []

unfoldable pub escape_rune : ℕ → Text
unfolding flat_map
escape_rune c =
    if unreserved c then c ∷ [] else if nat_eq c b' ' then b'+' ∷ [] else flat_map percent (utf8 c)

unfoldable pub query_escape : Text → Text
unfolding escape_rune
query_escape [] = []
query_escape (c ∷ s) = escape_rune c ++ query_escape s

escape_test : query_escape (codes "a b&é") ≡ codes "a+b%26%C3%A9"
unfolding query_escape utf8
escape_test = refl

-- Every rune has a first byte.
utf8_cons : (c : ℕ) → (b : ℕ) × (rest : Text) × (utf8 c ≡ b ∷ rest)
unfolding utf8
utf8_cons c =
    if_elim (λ t. (b : ℕ) × (rest : Text) × (t ≡ b ∷ rest)) (ltb c 0x80) _ _ (λ _. (_, _, refl))
      λ _.
        if_elim (λ t. (b : ℕ) × (rest : Text) × (t ≡ b ∷ rest)) (ltb c 0x800) _ _
          (λ _. (_, _, refl))
          λ _.
            if_elim (λ t. (b : ℕ) × (rest : Text) × (t ≡ b ∷ rest)) (ltb c 0x10000) _ _
              (λ _. (_, _, refl)) λ _. (_, _, refl)

-- A rune that is not unreserved is escaped to a plus sign, for the space, or to three runes at least.
escape_rune_reserved :
    (c : ℕ)
    → unreserved c ≡ false
    → ((c ≡ b' ') × (escape_rune c ≡ b'+' ∷ []))
      ⊎ ((d : ℕ) × (e : ℕ) × (rest : Text) × (escape_rune c ≡ b'%' ∷ d ∷ e ∷ rest))
unfolding escape_rune
escape_rune_reserved c h = elim (Bool-cases (nat_eq c b' ')) [
  | inl space ↦ inl (ground arith, rw (h, space))
  | inr other ↦
      let (b, rest, e) = utf8_cons c in
      inr (hex_digit (b / 16), hex_digit (b % 16), flat_map percent rest, rw (h, other, e))
]

length-le-query_escape : (s : Text) → length s ≤ length (query_escape s)
unfolding query_escape
length-le-query_escape [] = omega arith
length-le-query_escape (c ∷ s) = elim (Bool-cases (unreserved c)) [
  | inl plain ↦ rw (plain, escape_rune) (omega (arith, length-le-query_escape s))
  | inr special ↦ elim (escape_rune_reserved c special) [
    | inl (_, e) ↦ rw e (omega (arith, length-le-query_escape s))
    | inr (d, x, rest, e) ↦
        rw e (omega (arith, length-le-query_escape s, length-append rest (query_escape s)))
  ]
]

query_escape_plain : (s : Text) → All (λ c. unreserved c ≡ true) s → query_escape s ≡ s
unfolding query_escape
query_escape_plain [] h = refl
query_escape_plain (c ∷ s) (h, hs) = rw (h, escape_rune, query_escape_plain s hs)

query_escape_fixed : (s : Text) → query_escape s ≡ s → All (λ c. unreserved c ≡ true) s
unfolding query_escape
query_escape_fixed [] e = tt
query_escape_fixed (c ∷ s) e = elim (Bool-cases (unreserved c)) [
  | inl plain ↦
      let e' : c ∷ query_escape s ≡ c ∷ s = rw (plain, escape_rune) at e in
      (plain, query_escape_fixed s (ground arith))
  | inr special ↦ elim (escape_rune_reserved c special) [
    | inl (space, plus) ↦
        let e' : b'+' ∷ query_escape s ≡ c ∷ s = rw plus at e in absurd (ground arith)
    | inr (d, x, rest, percents) ↦
        let e' : b'%' ∷ d ∷ x ∷ (rest ++ query_escape s) ≡ c ∷ s = rw percents at e in
        absurd (
          omega
            (arith, ap length e', length-append rest (query_escape s), length-le-query_escape s))
  ]
]

-- Escaping leaves a text alone exactly when all its runes are unreserved.
pub query_escape-eq-self_iff : (s : Text) → (query_escape s ≡ s) ↔ All (λ c. unreserved c ≡ true) s
query_escape-eq-self_iff s = (query_escape_fixed s, query_escape_plain s)
