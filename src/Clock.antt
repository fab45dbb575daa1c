-- ===== src/Clock.antt =====
-- What the program uses of Go's `time`: instants and durations in nanoseconds, `Time.Sub`,
-- `Duration.Truncate`, and `time.Parse` under the layout "2006-01-02T15:04:05Z".
pub mod Format
use kubernetes_programming.Prelude.{
  Bytes, Bool, true, false, [], ◌∷◌, ℕ, suc, ◌+◌, ◌-◌, ◌*◌, ◌/◌, ◌%◌, ◌^◌, ◌==◌, ltb, leb, ◌&&◌,
  ◌||◌, not, if◌then◌else◌,
}
use kubernetes_programming.Prelude.Int.{ℤ, pos, negsuc, sub_ℕ, ltb_ℤ}

-- An instant: nanoseconds since the start of the year 0 (UTC), the first that the layout can name.
abbrev pub Instant : Type 0
Instant = ℕ

-- An int64 number of nanoseconds.
abbrev pub Duration : Type 0
Duration = ℤ

abbrev pub second : ℕ
second = 1_000_000_000

abbrev pub max_duration : ℕ
max_duration = 2 ^ 63 - 1

abbrev pub clamp_duration : ℤ → Duration
clamp_duration (pos n) = if leb n max_duration then pos n else pos max_duration
clamp_duration (negsuc n) = if leb n max_duration then negsuc n else negsuc max_duration

-- t.Sub(u): the difference, saturated at the ends of int64.
unfoldable pub sub : Instant → Instant → Duration
sub t u = clamp_duration (sub_ℕ t u)

-- d.Truncate(m) for m > 0: rounds towards zero.
unfoldable pub truncate : Duration → ℕ → Duration
truncate (pos n) m = pos (n - n % m)
truncate (negsuc n) m = sub_ℕ 0 (suc n - suc n % m)

-- d > 0 and d != 0.
abbrev pub is_positive : Duration → Bool
is_positive d = ltb_ℤ (pos 0) d

abbrev pub is_zero : Duration → Bool
is_zero (pos n) = n == 0
is_zero (negsuc n) = false

pub data ParseError : Type 0 where
  bad_format month_range day_range hour_range minute_range second_range extra_text : ParseError

pub data Parsed {ℓ} (A : Type ℓ) : Type ℓ where
  parsed : A → Parsed A
  fails : ParseError → Parsed A

infixl 5 ◌>>=◌ ◌>>◌
abbrev ◌>>=◌ {ℓ κ} : {A : Type ℓ} {B : Type κ} → Parsed A → (A → Parsed B) → Parsed B
parsed a >>= f = f a
fails e >>= f = fails e

abbrev ◌>>◌ {ℓ} : {B : Type ℓ} → Parsed (Unit {0}) → Parsed B → Parsed B
m >> k = m >>= λ _. k

abbrev ensure : Bool → ParseError → Parsed (Unit {0})
ensure true e = parsed tt
ensure false e = fails e

abbrev is_digit : ℕ → Bool
is_digit c = leb b'0' c && leb c b'9'

-- One literal byte of the layout.
unfoldable pub literal : ℕ → Bytes → Parsed Bytes
literal c [] = fails bad_format
literal c (d ∷ s) = if d == c then parsed s else fails bad_format

-- Exactly two digits (`getnum` with fixed = true).
unfoldable pub two_digits : Bytes → Parsed (ℕ × Bytes)
two_digits (a ∷ b ∷ s) =
    if is_digit a && is_digit b then parsed ((a - b'0') * 10 + (b - b'0'), s) else fails bad_format
two_digits _ = fails bad_format

-- One or two digits: the hour "15" is read by `getnum` with fixed = false.
unfoldable pub one_or_two_digits : Bytes → Parsed (ℕ × Bytes)
one_or_two_digits [] = fails bad_format
one_or_two_digits (a ∷ []) = if is_digit a then parsed (a - b'0', []) else fails bad_format
one_or_two_digits (a ∷ b ∷ s) =
    if is_digit a
    then (if is_digit b then parsed ((a - b'0') * 10 + (b - b'0'), s) else parsed (a - b'0', b ∷ s))
    else fails bad_format

unfoldable pub four_digits : Bytes → Parsed (ℕ × Bytes)
four_digits s = do (hi, s) ← two_digits s; (lo, s) ← two_digits s; parsed (hi * 100 + lo, s)

-- The digits behind a decimal point, scaled to nanoseconds: `weight` is that of the next digit, and
-- digits behind the ninth count for nothing.
fraction_digits : ℕ → Bytes → ℕ × Bytes
fraction_digits weight [] = (0, [])
fraction_digits weight (c ∷ s) =
    let rest = fraction_digits (weight / 10) s in
    if is_digit c then ((c - b'0') * weight + rest.0, rest.1) else (0, c ∷ s)

abbrev starts_digit : Bytes → Bool
starts_digit [] = false
starts_digit (c ∷ s) = is_digit c

-- A fractional second in the text is read though the layout has none.
unfoldable pub fraction : Bytes → ℕ × Bytes
unfolding fraction_digits
fraction [] = (0, [])
fraction (c ∷ s) =
    if (c == b'.' || c == b',') && starts_digit s then fraction_digits 100_000_000 s else (0, c ∷ s)

unfoldable pub is_leap : ℕ → Bool
is_leap y = (y % 4 == 0) && (not (y % 100 == 0) || (y % 400 == 0))

-- The days before each month of a common year, and those of the month.
abbrev pub common_days_before : ℕ → ℕ
common_days_before m =
    if m == 1
    then 0
    else if m == 2
    then 31
    else if m == 3
    then 59
    else if m == 4
    then 90
    else if m == 5
    then 120
    else if m == 6
    then 151
    else if m == 7
    then 181
    else if m == 8
    then 212
    else if m == 9
    then 243
    else if m == 10
    then 273
    else if m == 11
    then 304
    else 334

unfoldable pub days_in : ℕ → ℕ → ℕ
unfolding is_leap
days_in m y =
    if m == 2
    then (if is_leap y then 29 else 28)
    else if m == 4 || m == 6 || m == 9 || m == 11
    then 30
    else 31

unfoldable pub days_before_year : ℕ → ℕ
days_before_year y = 365 * y + (y + 3) / 4 - (y + 99) / 100 + (y + 399) / 400

pub record DateTime : Type 0 where
  pub year : ℕ
  pub month : ℕ
  pub day : ℕ
  pub hour : ℕ
  pub minute : ℕ
  pub second : ℕ
  pub nanosecond : ℕ

unfoldable pub day_number : DateTime → ℕ
unfolding days_before_year is_leap
day_number t =
    days_before_year t.year
    + common_days_before t.month
    + (if ltb 2 t.month && is_leap t.year then 1 else 0)
    + (t.day - 1)

-- time.Date(year, month, day, hour, min, sec, nsec, UTC), for fields in range.
unfoldable pub date : DateTime → Instant
unfolding day_number
date t =
    (((day_number t * 24 + t.hour) * 60 + t.minute) * 60 + t.second) * 1_000_000_000 + t.nanosecond

abbrev ends : Bytes → Bool
ends [] = true
ends (_ ∷ _) = false

unfoldable pub parse_fields : Bytes → Parsed DateTime
parse_fields s = do
  (y, s) ← four_digits s
  s ← literal b'-' s
  (mo, s) ← two_digits s
  ensure (leb 1 mo && leb mo 12) month_range
  s ← literal b'-' s
  (d, s) ← two_digits s
  s ← literal b'T' s
  (h, s) ← one_or_two_digits s
  ensure (ltb h 24) hour_range
  s ← literal b':' s
  (mi, s) ← two_digits s
  ensure (ltb mi 60) minute_range
  s ← literal b':' s
  (sec, s) ← two_digits s
  ensure (ltb sec 60) second_range
  let frac = fraction s
  s ← literal b'Z' frac.1
  ensure (ends s) extra_text
  ensure (leb 1 d && leb d (days_in mo y)) day_range
  parsed (record {
    year = y;
    month = mo;
    day = d;
    hour = h;
    minute = mi;
    second = sec;
    nanosecond = frac.0;
  })

-- time.Parse("2006-01-02T15:04:05Z", s).
unfoldable pub parse : Bytes → Parsed Instant
parse s = do t ← parse_fields s; parsed (date t)

-- `parse` with all that it calls open, for tests.
unfoldable pub run_parse : Bytes → Parsed Instant
unfolding parse parse_fields literal two_digits one_or_two_digits four_digits fraction days_in date
run_parse s = parse s
