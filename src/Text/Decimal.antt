-- ===== src/Text/Decimal.antt =====
-- `int` reads back what `str` wrote.
use cf_masque_opnsense.Prelude.{
  ℕ, zero, suc, ◌+◌, ◌-◌, ◌*◌, ◌/◌, ◌%◌, ◌^◌, ◌<◌, ◌≤◌, ◌≡◌, refl, ◌∙◌, true, false, ◌&&◌, some, [],
  ◌∷◌, arith, ltb, leb, if◌then◌else◌, All, Bool-cases, inl, inr, pos,
}
use native.Mathlib.Nat.{pow-suc}
use cf_masque_opnsense.Text.{Text, strip, strip_by, strip_left, strip_right, is_space}
use cf_masque_opnsense.Text.Number.{
  digits_after, unsigned, with_sign, signed, int, decimal_before, decimal,
}

abbrev pub IsDigit : ℕ → Type 0
IsDigit c = (b'0' ≤ c) × (c ≤ b'9')

-- How many digits `decimal_before` writes.
places : ℕ → ℕ → ℕ
places zero n = 0
places (suc fuel) n = let more = suc (places fuel (n / 10)) in if ltb n 10 then 1 else more

digit_test : (d : ℕ) → d < 10 → (leb b'0' (b'0' + d) && leb (b'0' + d) b'9') ≡ true
digit_test d h = ground arith

digit_minus : (d : ℕ) → b'0' + d - b'0' ≡ d
digit_minus d = omega arith

digits_after-digit :
    (a k d : ℕ) (rest : Text)
    → d < 10
    → digits_after a k ((b'0' + d) ∷ rest) ≡ digits_after (a * 10 + d) (k + 1) rest
unfolding digits_after
digits_after-digit a k d [] h = rw (digit_test d h, digit_minus d)
digits_after-digit a k d (r ∷ rest) h = rw (digit_test d h, digit_minus d)

unsigned-digit :
    (n : ℕ) (rest : Text) → n < 10 → unsigned ((b'0' + n) ∷ rest) ≡ digits_after n 1 rest
unfolding unsigned
unsigned-digit n rest h = rw (digit_test n h, digit_minus n)

digits_after-eq :
    (a b k m : ℕ) (rest : Text) → a ≡ b → k ≡ m → digits_after a k rest ≡ digits_after b m rest
digits_after-eq a b k m rest e f = cc

unsigned-decimal_before :
    (fuel n : ℕ) (rest : Text)
    → n < fuel
    → unsigned (decimal_before fuel n rest) ≡ digits_after n (places fuel n) rest
unfolding decimal_before places
unsigned-decimal_before zero n rest h = elim h [ ]
unsigned-decimal_before (suc fuel) n rest h = elim (Bool-cases (ltb n 10)) [
  | inl e ↦ rw e (unsigned-digit n rest (ground arith))
  | inr e ↦ rw e (
      unsigned-decimal_before fuel (n / 10) ((b'0' + n % 10) ∷ rest) (ground arith)
      ∙ digits_after-digit (n / 10) (places fuel (n / 10)) (n % 10) rest (omega arith)
      ∙ digits_after-eq _ n _ (suc (places fuel (n / 10))) rest (omega arith) (omega arith))
]

places-le : (k fuel n : ℕ) → n < 10 ^ k → 0 < k → places fuel n ≤ k
unfolding places
places-le zero fuel n h p = elim p [ ]
places-le (suc k) zero n h p = omega arith
places-le (suc zero) (suc fuel) n h p = ground arith
places-le (suc (suc k)) (suc fuel) n h p =
    ground (arith, places-le (suc k) fuel (n / 10) (smaller n k h) (omega arith))
  where
    smaller : (n k : ℕ) → n < 10 ^ suc (suc k) → n / 10 < 10 ^ suc k
    smaller n k h = let e = pow-suc 10 (suc k) in omega (arith, e)

digits-decimal_before :
    (fuel n : ℕ) (rest : Text) → All IsDigit rest → All IsDigit (decimal_before fuel n rest)
unfolding decimal_before
digits-decimal_before zero n rest h = h
digits-decimal_before (suc fuel) n rest h = elim (Bool-cases (ltb n 10)) [
  | inl e ↦ rw e (ground arith)
  | inr e ↦
      rw e (
        digits-decimal_before fuel (n / 10) ((b'0' + n % 10) ∷ rest)
          ((omega arith, omega arith), h))
]

digit_not_space : (c : ℕ) → IsDigit c → is_space c ≡ false
unfolding is_space
digit_not_space c h = ground arith

strip_left-digits : (t : Text) → All IsDigit t → strip_left is_space t ≡ t
unfolding strip_left
strip_left-digits [] h = refl
strip_left-digits (c ∷ t) h = rw (digit_not_space c h.0)

strip_right-digits : (t : Text) → All IsDigit t → strip_right is_space t ≡ t
unfolding strip_right
strip_right-digits [] h = refl
strip_right-digits (c ∷ t) h = rw (strip_right-digits t h.1, digit_not_space c h.0) (ground arith)

pub strip-digits : (t : Text) → All IsDigit t → strip t ≡ t
unfolding strip strip_by
strip-digits t h = rw (strip_left-digits t h, strip_right-digits t h)

with_sign-digits : (t : Text) → All IsDigit t → with_sign t ≡ signed pos (unsigned t)
unfolding with_sign unsigned
with_sign-digits [] h = refl
with_sign-digits (c ∷ t) h = ground arith

pub decimal-IsDigits : (n : ℕ) → All IsDigit (decimal n)
decimal-IsDigits n = unfold decimal in digits-decimal_before (suc n) n [] tt

unsigned-decimal : (k n : ℕ) → k ≤ 4300 → 0 < k → n < 10 ^ k → unsigned (decimal n) ≡ some n
unfolding decimal
unsigned-decimal k n l p h =
    unsigned-decimal_before (suc n) n [] (omega arith)
    ∙ few (places (suc n) n) (omega (arith, places-le k (suc n) n h p))
  where
    few : (m : ℕ) → m ≤ 4300 → digits_after n m [] ≡ some n
    few m b = unfold digits_after in ground arith

-- Reading a written number, also with white space stripped first, gives the number, if it has at
-- most 4300 digits.
pub int-strip-decimal :
    (k n : ℕ) → k ≤ 4300 → 0 < k → n < 10 ^ k → int (strip (decimal n)) ≡ some (pos n)
unfolding int
int-strip-decimal k n l p h = rw (
  strip-digits (decimal n) (decimal-IsDigits n),
  strip-digits (decimal n) (decimal-IsDigits n),
  with_sign-digits (decimal n) (decimal-IsDigits n),
  unsigned-decimal k n l p h,
)
