-- ===== src/Bytes/Hex.antt =====
-- `fromhex` undoes `hex`.
use cf_masque_opnsense.Prelude.{
  ℕ, ◌+◌, ◌*◌, ◌/◌, ◌%◌, ◌<◌, ◌≡◌, refl, false, some, [], ◌∷◌, arith, All,
}
use cf_masque_opnsense.Bytes.{Bytes, IsByte, hex, from_hex, hex_digit, digit_value, is_ascii_space}

hex_digit-value : (d : ℕ) → d < 16 → digit_value (hex_digit d) ≡ some d
unfolding digit_value hex_digit
hex_digit-value d h = ground arith

hex_digit-space : (d : ℕ) → is_ascii_space (hex_digit d) ≡ false
unfolding is_ascii_space hex_digit
hex_digit-space d = ground arith

recombine : (b : ℕ) → b / 16 * 16 + b % 16 ≡ b
recombine b = omega arith

pub from_hex-hex : (b : Bytes) → All IsByte b → from_hex (hex b) ≡ some b
unfolding from_hex hex
from_hex-hex [] h = refl
from_hex-hex (b ∷ bs) h = rw (
  hex_digit-space (b / 16),
  hex_digit-value (b / 16) (omega arith),
  hex_digit-value (b % 16) (omega arith),
  from_hex-hex bs h.1,
  recombine b,
)
