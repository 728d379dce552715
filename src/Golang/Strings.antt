-- ===== src/Golang/Strings.antt =====
-- Package strings: `TrimSpace`, `HasPrefix`, `ToLower`, `Split` as far as the first part.
use mathlib.Core.List.{reverse, reverse-append, reverse-reverse}
use web_form.Prelude.{
  Text, [], ◌∷◌, ◌++◌, ℕ, nat_eq, leb, if◌then◌else◌, ◌||◌, ◌&&◌, ◌≡◌, refl, sym, arith, Bool,
  false, Option, none, some, map, ap, ◌∙◌, ◌+◌,
}

-- unicode.IsSpace: White_Space of Unicode.
unfoldable pub is_space : ℕ → Bool
is_space c =
    leb 9 c && leb c 13
    || nat_eq c 32
    || nat_eq c 0x85
    || nat_eq c 0xa0
    || nat_eq c 0x1680
    || leb 0x2000 c && leb c 0x200a
    || nat_eq c 0x2028
    || nat_eq c 0x2029
    || nat_eq c 0x202f
    || nat_eq c 0x205f
    || nat_eq c 0x3000

unfoldable pub trim_left : Text → Text
trim_left [] = []
trim_left (c ∷ s) = let rest = trim_left s in if is_space c then rest else c ∷ s

unfoldable pub trim_space : Text → Text
unfolding trim_left is_space
trim_space s = reverse (trim_left (reverse (trim_left s)))

-- What follows a prefix, if the text has it.
unfoldable pub cut_prefix : Text → Text → Option Text
cut_prefix [] s = some s
cut_prefix (p ∷ ps) [] = none
cut_prefix (p ∷ ps) (c ∷ s) = if nat_eq p c then cut_prefix ps s else none

-- On ASCII letters; the program compares the result with ASCII texts without `k` and `i`, the only
-- letters that are the lower case of a rune outside ASCII.
abbrev lower : ℕ → ℕ
lower c = if leb b'A' c && leb c b'Z' then c + 32 else c

unfoldable pub to_lower : Text → Text
to_lower = map lower

-- `strings.Split(s, sep)[0]` for a separator of one rune.
unfoldable pub first_part : ℕ → Text → Text
first_part sep [] = []
first_part sep (c ∷ s) = let rest = first_part sep s in if nat_eq c sep then [] else c ∷ rest

abbrev NoLead : Text → Type 0
NoLead [] = Unit
NoLead (c ∷ s) = is_space c ≡ false

trim_left-NoLead : (s : Text) → NoLead (trim_left s)
unfolding trim_left
trim_left-NoLead [] = tt
trim_left-NoLead (c ∷ s) = ground (arith, trim_left-NoLead s)

trim_left_of_NoLead : (s : Text) → NoLead s → trim_left s ≡ s
unfolding trim_left
trim_left_of_NoLead [] h = refl
trim_left_of_NoLead (c ∷ s) h = rw h

trim_left_suffix : (s : Text) → (p : Text) × (p ++ trim_left s ≡ s)
unfolding trim_left
trim_left_suffix [] = ([], refl)
trim_left_suffix (c ∷ s) =
    let (p, e) = trim_left_suffix s in
    let p' = if is_space c then c ∷ p else [] in (p', ground (arith, e))

NoLead-prefix : (s t : Text) → NoLead (s ++ t) → NoLead s
NoLead-prefix [] t h = tt
NoLead-prefix (c ∷ s) t h = h

trim_space-NoLead : (s : Text) → NoLead (trim_space s)
unfolding trim_space
trim_space-NoLead s =
    let (p, e) = trim_left_suffix (reverse (trim_left s)) in
    let whole : reverse (trim_left (reverse (trim_left s))) ++ reverse p ≡ trim_left s =
      sym (reverse-append p (trim_left (reverse (trim_left s))))
      ∙ ap reverse e
      ∙ reverse-reverse (trim_left s) in
    NoLead-prefix _ (reverse p) (rw whole (trim_left-NoLead s))

-- Trimming twice is trimming once.
pub trim_space_idempotent : (s : Text) → trim_space (trim_space s) ≡ trim_space s
unfolding trim_space
trim_space_idempotent s = rw (
  trim_left_of_NoLead _ (trim_space-NoLead s),
  reverse-reverse,
  trim_left_of_NoLead _ (trim_left-NoLead (reverse (trim_left s))),
)

pub cut_prefix-append : (p s : Text) → cut_prefix p (p ++ s) ≡ some s
unfolding cut_prefix
cut_prefix-append [] s = refl
cut_prefix-append (c ∷ p) s = ground (arith, cut_prefix-append p s)

pub cut_prefix-eq-some : (p s : Text) {t : Text} → cut_prefix p s ≡ some t → s ≡ p ++ t
unfolding cut_prefix
cut_prefix-eq-some [] s h = ground arith
cut_prefix-eq-some (c ∷ p) [] h = cc
cut_prefix-eq-some (c ∷ p) (d ∷ s) {t} h = ground (arith, cut_prefix-eq-some p s {t = t})

trim_test : trim_space (32 ∷ 9 ∷ b'a' ∷ 32 ∷ b'b' ∷ 0x3000 ∷ 10 ∷ []) ≡ b'a' ∷ 32 ∷ b'b' ∷ []
unfolding trim_space
trim_test = refl
