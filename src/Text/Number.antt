-- ===== src/Text/Number.antt =====
-- `int(t)` and `str(n)`: decimal numbers read from and written to text.
use cf_masque_opnsense.Prelude.{
  ℕ, zero, suc, ◌+◌, ◌-◌, ◌*◌, ◌/◌, ◌%◌, ◌≡◌, refl, Bool, ◌&&◌, Option, none, some, [], ◌∷◌, leb,
  ltb, ◌==◌, if◌then◌else◌, ℤ, pos, negsuc, neg,
}
use cf_masque_opnsense.Text.{Text, codes, strip}

unfoldable pub is_digit : ℕ → Bool
is_digit c = leb b'0' c && leb c b'9'

-- The digits after a first digit: one `_` may stand between two digits. `count` is the number of
-- digits read; more than 4300 are refused.
unfoldable pub digits_after : ℕ → ℕ → Text → Option ℕ
unfolding is_digit
digits_after n count [] = if ltb 4300 count then none else some n
digits_after n count (c ∷ []) =
    if is_digit c then digits_after (n * 10 + (c - b'0')) (count + 1) [] else none
digits_after n count (c ∷ (d ∷ more)) =
    if is_digit c
    then (let rest = digits_after (n * 10 + (c - b'0')) (count + 1) (d ∷ more) in rest)
    else if c == b'_' && is_digit d
    then (let rest = digits_after (n * 10 + (d - b'0')) (count + 1) more in rest)
    else none

unfoldable pub unsigned : Text → Option ℕ
unfolding is_digit
unsigned [] = none
unsigned (c ∷ cs) = if is_digit c then digits_after (c - b'0') 1 cs else none

abbrev pub signed : (ℕ → ℤ) → Option ℕ → Option ℤ
signed sign none = none
signed sign (some n) = some (sign n)

unfoldable pub with_sign : Text → Option ℤ
unfolding unsigned
with_sign [] = none
with_sign (c ∷ cs) =
    if c == b'-'
    then signed neg (unsigned cs)
    else if c == b'+'
    then signed pos (unsigned cs)
    else signed pos (unsigned (c ∷ cs))

-- int(t); `none` is the ValueError.
unfoldable pub int : Text → Option ℤ
unfolding with_sign strip
int t = with_sign (strip t)

-- The decimal digits of n before `rest`; fuel n + 1 is enough.
unfoldable pub decimal_before : ℕ → ℕ → Text → Text
decimal_before zero n rest = rest
decimal_before (suc fuel) n rest =
    let more = decimal_before fuel (n / 10) ((b'0' + n % 10) ∷ rest) in
    if ltb n 10 then (b'0' + n) ∷ rest else more

-- str(n)
unfoldable pub decimal : ℕ → Text
unfolding decimal_before
decimal n = decimal_before (suc n) n []

unfoldable pub int_text : ℤ → Text
unfolding decimal
int_text (pos n) = decimal n
int_text (negsuc n) = b'-' ∷ decimal (suc n)

int_tests :
    (int (codes " 42 ") ≡ some (pos 42))
    × (int (codes "-7") ≡ some (negsuc 6))
    × (int (codes "1_0") ≡ some (pos 10))
    × (int (codes "4x") ≡ none)
    × (int (codes "1__0") ≡ none)
    × (decimal 1280 ≡ codes "1280")
unfolding int digits_after decimal
int_tests = (refl, refl, refl, refl, refl, refl)
