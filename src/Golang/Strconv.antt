-- ===== src/Golang/Strconv.antt =====
-- Package strconv: `ParseInt(s, 10, 64)`, `ParseBool` and `Itoa` of a number that is not negative.
use web_form.Prelude.{
  Text, [], ◌∷◌, ℕ, zero, suc, nat_eq, ltb, leb, Text-comparable, if◌then◌else◌, ◌&&◌, ◌≡◌, refl,
  arith, Bool, true, false, ok, err, new, Result, Error, codes, ◌+◌, ◌-◌, ◌*◌, ◌/◌, ◌%◌, ◌^◌, ◌<◌,
  ◌≤◌, elem, List, Bool-cases, inl, inr,
}
use web_form.Prelude.Int.{ℤ, pos, negsuc, pos_part, neg_part}

abbrev pub err_syntax : Error
err_syntax = new (codes "invalid syntax")

abbrev pub err_range : Error
err_range = new (codes "value out of range")

abbrev pub is_digit : ℕ → Bool
is_digit c = leb b'0' c && leb c b'9'

-- The loop of `ParseUint`: the value so far stays below 2^64.
unfoldable pub scan_uint : ℕ → Text → Result ℕ
scan_uint n [] = ok n
scan_uint n (c ∷ s) =
    let next = n * 10 + (c - b'0') in
    let rest = scan_uint next s in
    if is_digit c then if ltb next (2 ^ 64) then rest else err err_range else err err_syntax

unfoldable pub parse_uint : Text → Result ℕ
unfolding scan_uint
parse_uint [] = err err_syntax
parse_uint (c ∷ s) = scan_uint 0 (c ∷ s)

abbrev negate : ℕ → ℤ
negate zero = pos 0
negate (suc n) = negsuc n

abbrev signed : Bool → Result ℕ → Result ℤ
signed negative (err e) = err e
signed false (ok n) = if ltb n (2 ^ 63) then ok (pos n) else err err_range
signed true (ok n) = if leb n (2 ^ 63) then ok (negate n) else err err_range

unfoldable pub parse_int : Text → Result ℤ
unfolding parse_uint
parse_int [] = err err_syntax
parse_int (c ∷ s) =
    if nat_eq c b'+'
    then signed false (parse_uint s)
    else if nat_eq c b'-'
    then signed true (parse_uint s)
    else signed false (parse_uint (c ∷ s))

abbrev true_words : List Text
true_words = codes "1" ∷ codes "t" ∷ codes "T" ∷ codes "true" ∷ codes "TRUE" ∷ codes "True" ∷ []

abbrev false_words : List Text
false_words = codes "0" ∷ codes "f" ∷ codes "F" ∷ codes "false" ∷ codes "FALSE" ∷ codes "False" ∷ []

unfoldable pub parse_bool : Text → Result Bool
parse_bool s =
    if elem s true_words then ok true else if elem s false_words then ok false else err err_syntax

-- The digits of `n` in front of `out`; the fuel bounds their number.
unfoldable pub format_digits : ℕ → ℕ → Text → Text
format_digits zero n out = out
format_digits (suc f) n out =
    let longer = (b'0' + n % 10) ∷ out in
    let rest = format_digits f (n / 10) longer in if nat_eq (n / 10) 0 then longer else rest

unfoldable pub itoa : ℕ → Text
unfolding format_digits
itoa n = format_digits (suc n) n []

-- The number that digits spell.
abbrev pub value_from : ℕ → Text → ℕ
value_from n [] = n
value_from n (c ∷ s) = value_from (n * 10 + (c - b'0')) s

value_from-format_digits :
    (f n : ℕ) (out : Text) → n < f → value_from 0 (format_digits f n out) ≡ value_from n out
unfolding format_digits
value_from-format_digits zero n out h = elim h [ ]
value_from-format_digits (suc f) n out h = elim (Bool-cases (nat_eq (n / 10) 0)) [
  | inl last ↦ rw last (ground arith)
  | inr more ↦
      rw more
        (ground (arith, value_from-format_digits f (n / 10) ((b'0' + n % 10) ∷ out) (ground arith)))
]

-- The fuel suffices: the digits spell the number.
pub value-itoa : (n : ℕ) → value_from 0 (itoa n) ≡ n
unfolding itoa
value-itoa n = value_from-format_digits (suc n) n [] (omega arith)

signed_bounds :
    (negative : Bool) (r : Result ℕ) {z : ℤ}
    → signed negative r ≡ ok z
    → (pos_part z < 2 ^ 63) × (neg_part z ≤ 2 ^ 63)
signed_bounds negative (err e) h = cc
signed_bounds false (ok n) h = ground arith
signed_bounds true (ok zero) h = ground arith
signed_bounds true (ok (suc n)) h = ground arith

-- A parsed integer fits 64 bits.
pub parse_int_bounds :
    (s : Text) {z : ℤ} → parse_int s ≡ ok z → (pos_part z < 2 ^ 63) × (neg_part z ≤ 2 ^ 63)
unfolding parse_int
parse_int_bounds [] h = cc
parse_int_bounds (c ∷ s) {z} h = ground (
  arith,
  signed_bounds false (parse_uint s) {z = z},
  signed_bounds true (parse_uint s) {z = z},
  signed_bounds false (parse_uint (c ∷ s)) {z = z},
)

itoa_test : itoa 1024 ≡ codes "1024"
unfolding itoa
itoa_test = refl
