-- ===== src/Clock/Format.antt =====
-- A date printed under the layout "2006-01-02T15:04:05Z" is read back.
use kubernetes_programming.Prelude.{
  Bytes, codes, [], ◌∷◌, ℕ, ◌+◌, ◌*◌, ◌/◌, ◌%◌, ◌≤◌, ◌<◌, ◌≡◌, refl, arith,
}
use kubernetes_programming.Clock.{
  DateTime, parsed, parse, parse_fields, date, run_parse, literal, fraction, two_digits,
  four_digits, one_or_two_digits, days_in, second,
}

abbrev pub print_two : ℕ → Bytes
print_two n = (b'0' + n / 10) ∷ (b'0' + n % 10) ∷ []

-- t.Format("2006-01-02T15:04:05Z").
unfoldable pub format : DateTime → Bytes
format t =
    (b'0' + t.year / 1000)
    ∷ (b'0' + t.year / 100 % 10)
    ∷ (b'0' + t.year / 10 % 10)
    ∷ (b'0' + t.year % 10)
    ∷ b'-'
    ∷ (b'0' + t.month / 10)
    ∷ (b'0' + t.month % 10)
    ∷ b'-'
    ∷ (b'0' + t.day / 10)
    ∷ (b'0' + t.day % 10)
    ∷ b'T'
    ∷ (b'0' + t.hour / 10)
    ∷ (b'0' + t.hour % 10)
    ∷ b':'
    ∷ (b'0' + t.minute / 10)
    ∷ (b'0' + t.minute % 10)
    ∷ b':'
    ∷ (b'0' + t.second / 10)
    ∷ (b'0' + t.second % 10)
    ∷ b'Z'
    ∷ []

pub record IsDate (t : DateTime) : Type 0 where
  pub year_four : t.year < 10_000
  pub month_low : 1 ≤ t.month
  pub month_high : t.month ≤ 12
  pub day_low : 1 ≤ t.day
  pub day_high : t.day ≤ days_in t.month t.year
  pub hour_high : t.hour < 24
  pub minute_high : t.minute < 60
  pub second_high : t.second < 60
  pub whole : t.nanosecond ≡ 0

days_in-le : (m y : ℕ) → days_in m y ≤ 31
unfolding days_in
days_in-le m y = ground arith

two_digits-print :
    (n : ℕ) (s : Bytes)
    → n < 100
    → two_digits ((b'0' + n / 10) ∷ (b'0' + n % 10) ∷ s) ≡ parsed (n, s)
unfolding two_digits
two_digits-print n s h = ground arith

hour-print :
    (n : ℕ) (s : Bytes)
    → n < 100
    → one_or_two_digits ((b'0' + n / 10) ∷ (b'0' + n % 10) ∷ s) ≡ parsed (n, s)
unfolding one_or_two_digits
hour-print n s h = ground arith

year-print :
    (y : ℕ) (s : Bytes)
    → y < 10_000
    → four_digits
        ((b'0' + y / 1000) ∷ (b'0' + y / 100 % 10) ∷ (b'0' + y / 10 % 10) ∷ (b'0' + y % 10) ∷ s)
      ≡ parsed (y, s)
unfolding four_digits
year-print y s h = ground (
  arith,
  two_digits-print (y / 100) ((b'0' + y / 10 % 10) ∷ (b'0' + y % 10) ∷ s),
  two_digits-print (y % 100) s,
)

literal_self : (c : ℕ) (s : Bytes) → literal c (c ∷ s) ≡ parsed s
unfolding literal
literal_self c s = ground arith

fraction_none : fraction (b'Z' ∷ []) ≡ (0, b'Z' ∷ [])
unfolding fraction
fraction_none = refl

pub parse_fields-format : (t : DateTime) → IsDate t → parse_fields (format t) ≡ parsed t
unfolding parse_fields format
parse_fields-format t v =
    rw
      (
        year-print t.year _ v.year_four,
        literal_self,
        two_digits-print t.month _ (omega arith),
        literal_self,
        two_digits-print t.day _ (omega (arith, days_in-le t.month t.year)),
        literal_self,
        hour-print t.hour _ (omega arith),
        literal_self,
        two_digits-print t.minute _ (omega arith),
        literal_self,
        two_digits-print t.second _ (omega arith),
        fraction_none,
        literal_self,
      )
      (ground arith)

pub parse-format : (t : DateTime) → IsDate t → parse (format t) ≡ parsed (date t)
unfolding parse
parse-format t v = rw (parse_fields-format t v)

epoch : parse (codes "1970-01-01T00:00:00Z") ≡ parsed (719528 * 86400 * second)
unfolding run_parse
epoch = refl

sample : parse (codes "2019-07-03T02:00:00Z") ≡ parsed ((62167219200 + 1562119200) * second)
unfolding run_parse
sample = refl

short_hour : parse (codes "2026-02-08T9:30:00.25Z") ≡ parse (codes "2026-02-08T09:30:00,250Z")
unfolding run_parse
short_hour = refl
