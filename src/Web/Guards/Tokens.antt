-- ===== src/Web/Guards/Tokens.antt =====
-- The XSRF token, from its random bytes through the page and the cookie and back.
use web_form.Prelude.{
  ◌⊎◌, inl, inr, none, Text, Text-comparable, [], ◌∷◌, if◌then◌else◌, true, false, List, some, ◌≡◌,
  refl, ap, arith, All, is_empty, nonempty, Bool-cases, inl, inr, text_eq_refl, ℕ, ◌+◌, ◌-◌, ◌*◌,
  ◌/◌, ◌%◌, ◌<◌, ◌≤◌, ◌⊎◌, ltb, length,
}
use web_form.Prelude.Dict.{lookup}
use web_form.Web.Requests.{HttpRequest, Request}
use web_form.Web.Sessions.{field_html}
use web_form.Web.Guards.{
  Cookie, form_xsrf, check_xsrf, hex_digit, hex, xsrf_token, form_values, embed_xsrf,
}

-- The digits of `hex.EncodeToString`.
abbrev pub IsHexDigit : ℕ → Type 0
IsHexDigit c = ((b'0' ≤ c) × (c < b'0' + 10)) ⊎ ((b'a' ≤ c) × (c < b'a' + 6))

abbrev digit_value : ℕ → ℕ
digit_value c = if ltb c b'a' then c - b'0' else (c - b'a') + 10

-- A reader of pairs of digits.
abbrev pub unhex : Text → List ℕ
unhex [] = []
unhex (c ∷ []) = []
unhex (c ∷ d ∷ t) = (16 * digit_value c + digit_value d) ∷ unhex t

hex_digit-IsHexDigit : (d : ℕ) → d < 16 → IsHexDigit (hex_digit d)
hex_digit-IsHexDigit d h = ground arith

digit_value-hex_digit : (d : ℕ) → d < 16 → digit_value (hex_digit d) ≡ d
digit_value-hex_digit d h = ground arith

high : (b : ℕ) → b < 256 → b / 16 < 16
high b h = omega arith

low : (b : ℕ) → b % 16 < 16
low b = omega arith

hex_lem :
    (bytes : List ℕ)
    → All (λ b. b < 256) bytes
    → (length (hex bytes) ≡ 2 * length bytes)
      × All IsHexDigit (hex bytes)
      × (unhex (hex bytes) ≡ bytes)
unfolding hex
hex_lem [] h = (refl, tt, refl)
hex_lem (b ∷ bytes) (small, h) =
    let (count, digits, back) = hex_lem bytes h in
    (
      omega arith,
      (hex_digit-IsHexDigit _ (high b small), (hex_digit-IsHexDigit _ (low b), digits)),
      rw
          (
            digit_value-hex_digit (b / 16) (high b small),
            digit_value-hex_digit (b % 16) (low b),
            back,
          )
          (ap (λ x. x ∷ bytes) (omega arith)),
    )

-- The token has two lower-case hexadecimal digits for every random byte, and nothing else, and the
-- bytes can be read back of it, so different bytes give different tokens; the cookie has the same
-- token.
pub xsrf_token_lem :
    (bytes : List ℕ) (now : ℕ)
    → All (λ b. b < 256) bytes
    → (length (xsrf_token bytes now).0 ≡ 2 * length bytes)
      × All IsHexDigit (xsrf_token bytes now).0
      × (unhex (xsrf_token bytes now).0 ≡ bytes)
      × ((xsrf_token bytes now).1.value ≡ (xsrf_token bytes now).0)
unfolding xsrf_token
xsrf_token_lem bytes now h =
    let (count, digits, back) = hex_lem bytes h in (count, digits, back, refl)

hex-nonempty : (bytes : List ℕ) → nonempty bytes ≡ true → is_empty (hex bytes) ≡ false
unfolding hex
hex-nonempty [] h = cc
hex-nonempty (b ∷ bytes) h = refl

module _ (random : List ℕ) (now : ℕ) (r : Request) where
  -- Nothing random: a cookie is set only for a request without a token.
  embed_xsrf-fresh :
      {c : Cookie}
      → (embed_xsrf random now r).2 ≡ c ∷ []
      → (is_empty r.xsrf ≡ true) × (c.value ≡ hex random)
  unfolding embed_xsrf xsrf_token
  embed_xsrf-fresh {c} h = elim (Bool-cases (is_empty r.xsrf)) [
    | inl none' ↦ (none', ground (arith, h, none'))
    | inr given ↦ absurd (ground (arith, h, given))
  ]

  -- When a page sets a cookie with a token, a request that sends the cookie and the hidden field of
  -- the page back passes the XSRF check; the page has the token of the cookie in that field, and
  -- embedding it once more gives the same field and sets no further cookie. Some bytes were random,
  -- and the body is not multipart or the query has no such field.
  pub check_xsrf-embed_xsrf :
      (c : Cookie) (q : HttpRequest)
      → nonempty random ≡ true
      → (embed_xsrf random now r).2 ≡ c ∷ []
      → q.xsrf_cookie ≡ some c.value
      → lookup form_xsrf q.post_form ≡ some (c.value ∷ [])
      → (q.multipart ≡ false) ⊎ (lookup form_xsrf q.query ≡ none)
      → (check_xsrf q ≡ true)
        × ((embed_xsrf random now r).0 ≡ field_html (form_xsrf, c.value))
        × ((other : List ℕ) (later : ℕ)
            → embed_xsrf other later (embed_xsrf random now r).1
              ≡ ((embed_xsrf random now r).0, (embed_xsrf random now r).1, []))
  unfolding embed_xsrf xsrf_token check_xsrf form_values field_html
  check_xsrf-embed_xsrf c q some_bytes set cookie body first =
      let (none', v) = embed_xsrf-fresh set in
      let full = hex-nonempty random some_bytes in
      (
        elim first [
          | inl plain ↦
              rw (cookie, check_xsrf) (ground (arith, body, plain, v, full, text_eq_refl c.value))
          | inr alone ↦
              rw (cookie, check_xsrf) (ground (arith, body, alone, v, full, text_eq_refl c.value))
        ],
        rw (none', v) refl,
        λ other later. rw (none', full) refl,
      )
