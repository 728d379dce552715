-- ===== src/Golang/Times.antt =====
-- Package time: `ParseInLocation` for the layouts 2006-01-02 and 2006-01-02T15:04.
use web_form.Prelude.{
  Text, [], ◌∷◌, ℕ, nat_eq, leb, if◌then◌else◌, ◌||◌, ◌&&◌, ◌≡◌, refl, arith, Bool, true, false, ok,
  err, new, Result, Error, codes, ◌+◌, ◌-◌, ◌*◌, ◌%◌, ◌≤◌, ◌>>=◌, Result-cases, inl, inr,
}
use web_form.Golang.Strconv.{is_digit}

-- A civil time with the name of its location.
pub record Time : Type 0 where
  pub year : ℕ
  pub month : ℕ
  pub day : ℕ
  pub hour : ℕ
  pub minute : ℕ
  pub location : Text

abbrev pub err_layout : Error
err_layout = new (codes "cannot parse")

abbrev pub err_out_of_range : Error
err_out_of_range = new (codes "out of range")

abbrev pub digit : ℕ → ℕ
digit c = c - b'0'

-- A number of two digits, or of one where `fixed` is false, and what follows it.
unfoldable pub getnum : Bool → Text → Result (ℕ × Text)
getnum fixed [] = err err_layout
getnum fixed (c ∷ []) =
    if is_digit c then if fixed then err err_layout else ok (digit c, []) else err err_layout
getnum fixed (c ∷ d ∷ s) =
    if is_digit c
    then if is_digit d
      then ok (digit c * 10 + digit d, s)
      else if fixed
      then err err_layout
      else ok (digit c, d ∷ s)
    else err err_layout

unfoldable pub get_year : Text → Result (ℕ × Text)
get_year (a ∷ b ∷ c ∷ d ∷ s) =
    if is_digit a && is_digit b && is_digit c && is_digit d
    then ok (digit a * 1000 + digit b * 100 + digit c * 10 + digit d, s)
    else err err_layout
get_year _ = err err_layout

-- The literal between two numbers.
unfoldable pub skip : ℕ → Text → Result Text
skip p [] = err err_layout
skip p (c ∷ s) = if nat_eq c p then ok s else err err_layout

abbrev pub at_end : Text → Result (Unit {0})
at_end [] = ok tt
at_end (c ∷ s) = err err_layout

abbrev pub is_leap : ℕ → Bool
is_leap y = nat_eq (y % 4) 0 && (if nat_eq (y % 100) 0 then nat_eq (y % 400) 0 else true)

abbrev pub days_in : ℕ → ℕ → ℕ
days_in month year =
    if nat_eq month 2
    then if is_leap year then 29 else 28
    else if nat_eq month 4 || nat_eq month 6 || nat_eq month 9 || nat_eq month 11
    then 30
    else 31

abbrev within : ℕ → ℕ → ℕ → Result (Unit {0})
within lo hi n = if leb lo n && leb n hi then ok tt else err err_out_of_range

-- Year, month and day, and what follows.
unfoldable pub date_part : Text → Result (ℕ × ℕ × ℕ × Text)
unfolding getnum get_year skip
date_part s = do
  (year, s₁) ← get_year s
  s₂ ← skip b'-' s₁
  (month, s₃) ← getnum true s₂
  _ ← within 1 12 month
  s₄ ← skip b'-' s₃
  (day, s₅) ← getnum true s₄
  ok (year, month, day, s₅)

unfoldable pub parse_date : Text → Text → Result Time
parse_date s location = do
  (year, month, day, rest) ← date_part s
  _ ← at_end rest
  _ ← within 1 (days_in month year) day
  ok (record { year = year; month = month; day = day; hour = 0; minute = 0; location = location })

unfoldable pub parse_date_time : Text → Text → Result Time
parse_date_time s location = do
  (year, month, day, s₁) ← date_part s
  s₂ ← skip b'T' s₁
  (hour, s₃) ← getnum false s₂
  _ ← within 0 23 hour
  s₄ ← skip b':' s₃
  (minute, s₅) ← getnum true s₄
  _ ← within 0 59 minute
  _ ← at_end s₅
  _ ← within 1 (days_in month year) day
  ok (record {
    year = year;
    month = month;
    day = day;
    hour = hour;
    minute = minute;
    location = location;
  })

-- The day exists, the time is one of the day, and the location is the one given.
pub record IsTime (location : Text) (t : Time) : Type 0 where
  pub month_low : 1 ≤ t.month
  pub month_high : t.month ≤ 12
  pub day_low : 1 ≤ t.day
  pub day_high : t.day ≤ days_in t.month t.year
  pub hour_high : t.hour ≤ 23
  pub minute_high : t.minute ≤ 59
  pub located : t.location ≡ location

date_part_month :
    (s : Text) {y m d : ℕ} {rest : Text} → date_part s ≡ ok (y, m, d, rest) → (1 ≤ m) × (m ≤ 12)
unfolding date_part
date_part_month s h = ground arith

pub parse_date-IsTime :
    (s location : Text) {t : Time}
    → parse_date s location ≡ ok t
    → IsTime location t × (t.hour ≡ 0) × (t.minute ≡ 0)
unfolding parse_date
parse_date-IsTime s location {t} h = elim (Result-cases (date_part s)) [
  | inl ((y, m, d, rest), e) ↦ let months = date_part_month s e in ground arith
  | inr (x, e) ↦ ground arith
]

pub parse_date_time-IsTime :
    (s location : Text) {t : Time} → parse_date_time s location ≡ ok t → IsTime location t
unfolding parse_date_time
parse_date_time-IsTime s location {t} h = elim (Result-cases (date_part s)) [
  | inl ((y, m, d, rest), e) ↦ let months = date_part_month s e in ground arith
  | inr (x, e) ↦ ground arith
]

leap_day :
    parse_date (codes "2024-02-29") []
    ≡ ok (record { year = 2024; month = 2; day = 29; hour = 0; minute = 0; location = [] })
unfolding parse_date date_part
leap_day = refl

no_leap_day : parse_date (codes "2023-02-29") [] ≡ err err_out_of_range
unfolding parse_date date_part
no_leap_day = refl

short_hour :
    parse_date_time (codes "2024-02-01T7:05") []
    ≡ ok (record { year = 2024; month = 2; day = 1; hour = 7; minute = 5; location = [] })
unfolding parse_date_time date_part
short_hour = refl
