-- ===== src/Calendar/Laws.antt =====
-- `strptime` undoes `strftime`.
use cf_masque_opnsense.Prelude.{ℕ, ◌<◌, ◌≡◌, refl, true, false, some, ◌∷◌, arith}
use cf_masque_opnsense.Text.{Text}
use cf_masque_opnsense.Text.Number.{is_digit}
use cf_masque_opnsense.Calendar.{
  Stamp, days_in_month, is_valid, ordinal, is_sep, read_two, read_day, read_year, two, four,
  strptime, strftime,
}

-- The separators of the format after a field of two digits.
IsSeparator : ℕ → Type 0
IsSeparator sep = (is_digit sep ≡ false) × (sep < 91)

dash-IsSeparator : IsSeparator b'-'
unfolding is_digit IsSeparator
dash-IsSeparator = (refl, omega arith)

colon-IsSeparator : IsSeparator b':'
unfolding is_digit IsSeparator
colon-IsSeparator = (refl, omega arith)

z-IsSeparator : IsSeparator b'Z'
unfolding is_digit IsSeparator
z-IsSeparator = (refl, omega arith)

read_two-two :
    (sep n : ℕ) (t : Text)
    → IsSeparator sep
    → n < 100
    → read_two sep (two n (sep ∷ t)) ≡ some (n, t)
unfolding read_two is_digit is_sep IsSeparator
read_two-two sep n t k h = ground arith

read_day-two : (n : ℕ) (t : Text) → n < 100 → read_day (two n (b'T' ∷ t)) ≡ some (n, t)
unfolding read_day read_two is_digit is_sep
read_day-two n t h = ground arith

read_year-four : (n : ℕ) (t : Text) → n < 10_000 → read_year (four n (b'-' ∷ t)) ≡ some (n, t)
unfolding read_year is_digit
read_year-four n t h = ground arith

-- The first day of the era of Unix.
epoch :
    ordinal (record { year = 1970; month = 1; day = 1; hour = 0; minute = 0; second = 0 }) ≡ 719_163
unfolding ordinal
epoch = refl

valid_bounds :
    (s : Stamp)
    → is_valid s ≡ true
    → (s.month < 100) × (s.day < 100) × (s.hour < 100) × (s.minute < 100) × (s.second < 100)
unfolding is_valid days_in_month
valid_bounds s v = ground arith

-- Reading what `strftime` wrote gives the same moment, for a valid one whose year has at most four
-- digits.
pub strptime-strftime :
    (s : Stamp) → is_valid s ≡ true → s.year < 10_000 → strptime (strftime s) ≡ some s
unfolding strptime strftime
strptime-strftime s v y =
    let (mo, d, h, mi, se) = valid_bounds s v in
    rw (
      read_year-four s.year _ y,
      read_two-two b'-' s.month _ dash-IsSeparator mo,
      read_day-two s.day _ d,
      read_two-two b':' s.hour _ colon-IsSeparator h,
      read_two-two b':' s.minute _ colon-IsSeparator mi,
      read_two-two b'Z' s.second _ z-IsSeparator se,
      v,
    )
