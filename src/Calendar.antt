-- ===== src/Calendar.antt =====
-- Python's `datetime` as far as the scripts use it: moments in UTC, and `strptime` and `strftime`
-- for the format '%Y-%m-%dT%H:%M:%SZ'. Only ASCII digits are read.
pub mod Laws
use cf_masque_opnsense.Prelude.{
  ℕ, zero, suc, ◌+◌, ◌-◌, ◌*◌, ◌/◌, ◌%◌, Bool, true, false, not, ◌&&◌, ◌||◌, Option, none, some,
  List, [], ◌∷◌, leb, ltb, ◌==◌, if◌then◌else◌,
}
use cf_masque_opnsense.Text.{Text}
use cf_masque_opnsense.Text.Number.{is_digit}

pub record Stamp : Type 0 where
  pub year : ℕ
  pub month : ℕ
  pub day : ℕ
  pub hour : ℕ
  pub minute : ℕ
  pub second : ℕ

unfoldable pub is_leap : ℕ → Bool
is_leap y = (y % 4 == 0) && (not (y % 100 == 0) || (y % 400 == 0))

unfoldable pub days_in_month : ℕ → ℕ → ℕ
unfolding is_leap
days_in_month y m =
    if m == 2
    then (if is_leap y then 29 else 28)
    else if (m == 4) || (m == 6) || (m == 9) || (m == 11)
    then 30
    else 31

-- What the constructor of `datetime` asks for.
unfoldable pub is_valid : Stamp → Bool
unfolding days_in_month
is_valid s =
    leb 1 s.year
    && leb 1 s.month
    && leb s.month 12
    && leb 1 s.day
    && leb s.day (days_in_month s.year s.month)
    && ltb s.hour 24
    && ltb s.minute 60
    && ltb s.second 60

-- The days of a year before a month.
unfoldable pub days_before_month : ℕ → ℕ → ℕ
unfolding days_in_month
days_before_month y zero = 0
days_before_month y (suc zero) = 0
days_before_month y (suc (suc m)) = days_before_month y (suc m) + days_in_month y (suc m)

-- date.toordinal()
unfoldable pub ordinal : Stamp → ℕ
unfolding days_before_month
ordinal s =
    let y = s.year - 1 in
    y * 365 + y / 4 - y / 100 + y / 400 + days_before_month s.year s.month + s.day

-- A moment in seconds, counted like the days of `toordinal`.
unfoldable pub instant : Stamp → ℕ
instant s = ordinal s * 86400 + s.hour * 3600 + s.minute * 60 + s.second

-- A separator of the format: letters match in both cases.
unfoldable pub is_sep : ℕ → ℕ → Bool
is_sep sep c = (c == sep) || (leb b'A' sep && leb sep b'Z' && (c == sep + 32))

abbrev pub digit : ℕ → ℕ
digit c = c - b'0'

-- A number of one or two digits and the separator after it.
unfoldable pub read_two : ℕ → Text → Option (ℕ × Text)
unfolding is_sep is_digit
read_two sep [] = none
read_two sep (a ∷ []) = none
read_two sep (a ∷ (b ∷ [])) = if is_digit a && is_sep sep b then some (digit a, []) else none
read_two sep (a ∷ (b ∷ (c ∷ t))) =
    if is_digit a && is_sep sep b
    then some (digit a, c ∷ t)
    else if is_digit a && is_digit b && is_sep sep c
    then some (digit a * 10 + digit b, t)
    else none

-- %d also matches a blank and one digit.
unfoldable pub read_day : Text → Option (ℕ × Text)
unfolding read_two
read_day (a ∷ (b ∷ (c ∷ t))) =
    if a == b' '
    then (if is_digit b && is_sep b'T' c then some (digit b, t) else none)
    else read_two b'T' (a ∷ (b ∷ (c ∷ t)))
read_day t = read_two b'T' t

-- %Y: four digits, and the separator after them.
unfoldable pub read_year : Text → Option (ℕ × Text)
unfolding is_digit
read_year (a ∷ (b ∷ (c ∷ (d ∷ (e ∷ t))))) =
    if is_digit a && is_digit b && is_digit c && is_digit d && (e == b'-')
    then some (digit a * 1000 + digit b * 100 + digit c * 10 + digit d, t)
    else none
read_year t = none

abbrev pub then_read : Option (ℕ × Text) → (ℕ → Text → Option Stamp) → Option Stamp
then_read none more = none
then_read (some (n, t)) more = more n t

abbrev pub checked : Stamp → Text → Option Stamp
checked s [] = if is_valid s then some s else none
checked s (c ∷ t) = none

-- datetime.strptime(t, '%Y-%m-%dT%H:%M:%SZ'); `none` is the ValueError.
unfoldable pub strptime : Text → Option Stamp
strptime t = then_read (read_year t) (λ y t1. then_read (read_two b'-' t1) (λ mo t2.
    then_read (read_day t2) (λ d t3. then_read (read_two b':' t3) (λ h t4.
      then_read (read_two b':' t4) (λ mi t5. then_read (read_two b'Z' t5) (λ se t6.
        checked (record { year = y; month = mo; day = d; hour = h; minute = mi; second = se })
          t6))))))

abbrev pub two : ℕ → Text → Text
two n t = (b'0' + n / 10) ∷ ((b'0' + n % 10) ∷ t)

abbrev pub four : ℕ → Text → Text
four n t = (b'0' + n / 1000) ∷ ((b'0' + n / 100 % 10) ∷ two (n % 100) t)

-- strftime('%Y-%m-%dT%H:%M:%S') and a text after it, for a year of four digits.
abbrev pub date_text : Stamp → Text → Text
date_text s rest = four s.year (
    b'-'
    ∷ two s.month
        (b'-' ∷ two s.day (b'T' ∷ two s.hour (b':' ∷ two s.minute (b':' ∷ two s.second rest)))))

-- strftime('%Y-%m-%dT%H:%M:%SZ')
unfoldable pub strftime : Stamp → Text
strftime s = date_text s (b'Z' ∷ [])
