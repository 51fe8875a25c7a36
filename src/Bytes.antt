-- ===== src/Bytes.antt =====
-- Byte strings as lists of numbers, with `bytes.hex`, `bytes.fromhex`, `str.encode('utf-8')`,
-- `bytes.decode('utf-8')` and `bytes.strip`.
pub mod Hex
pub mod Utf8
use cf_masque_opnsense.Prelude.{
  ℕ, zero, suc, ◌+◌, ◌-◌, ◌*◌, ◌/◌, ◌%◌, ◌<◌, Bool, true, false, ◌&&◌, ◌||◌, Option, none, some,
  List, [], ◌∷◌, ◌++◌, leb, ltb, ◌==◌, if◌then◌else◌, All,
}
use cf_masque_opnsense.Text.{Text, strip_by}

abbrev pub Bytes : Type 0
Bytes = List ℕ

abbrev pub IsByte : ℕ → Type 0
IsByte b = b < 256

unfoldable pub hex_digit : ℕ → ℕ
hex_digit d = if ltb d 10 then b'0' + d else b'a' + (d - 10)

-- bytes.hex()
unfoldable pub hex : Bytes → Text
unfolding hex_digit
hex [] = []
hex (b ∷ bs) = hex_digit (b / 16) ∷ (hex_digit (b % 16) ∷ hex bs)

unfoldable pub digit_value : ℕ → Option ℕ
digit_value c =
    if leb b'0' c && leb c b'9'
    then some (c - b'0')
    else if leb b'a' c && leb c b'f'
    then some (c - b'a' + 10)
    else if leb b'A' c && leb c b'F'
    then some (c - b'A' + 10)
    else none

-- The white space of ASCII.
unfoldable pub is_ascii_space : ℕ → Bool
is_ascii_space c = (leb 9 c && leb c 13) || c == 32

abbrev pub cons_byte : Option ℕ → Option ℕ → Option Bytes → Option Bytes
cons_byte (some h) (some l) (some bs) = some ((h * 16 + l) ∷ bs)
cons_byte _ _ _ = none

-- bytes.fromhex(t): white space may stand between two bytes; `none` is the ValueError.
unfoldable pub from_hex : Text → Option Bytes
unfolding digit_value is_ascii_space
from_hex [] = some []
from_hex (c ∷ []) = if is_ascii_space c then some [] else none
from_hex (c ∷ (d ∷ t)) =
    let skipped = from_hex (d ∷ t) in
    let pair = cons_byte (digit_value c) (digit_value d) (from_hex t) in
    if is_ascii_space c then skipped else pair

-- bytes.strip()
unfoldable pub strip_bytes : Bytes → Bytes
unfolding strip_by is_ascii_space
strip_bytes b = strip_by is_ascii_space b

-- The bytes of one code point; `none` for a surrogate or a number past the last code point.
unfoldable pub encode_char : ℕ → Option Bytes
encode_char c =
    if ltb c 0x80
    then some (c ∷ [])
    else if ltb c 0x800
    then some ((0xc0 + c / 64) ∷ (0x80 + c % 64) ∷ [])
    else if leb 0xd800 c && leb c 0xdfff
    then none
    else if ltb c 0x10000
    then some ((0xe0 + c / 4096) ∷ (0x80 + (c / 64) % 64) ∷ (0x80 + c % 64) ∷ [])
    else if ltb c 0x110000
    then some (
        (0xf0 + c / 262144)
        ∷ (0x80 + (c / 4096) % 64)
        ∷ (0x80 + (c / 64) % 64)
        ∷ (0x80 + c % 64)
        ∷ [])
    else none

abbrev pub append_opt : Option Bytes → Option Bytes → Option Bytes
append_opt (some a) (some b) = some (a ++ b)
append_opt _ _ = none

-- t.encode('utf-8'); `none` is the UnicodeEncodeError.
unfoldable pub utf8_encode : Text → Option Bytes
unfolding encode_char
utf8_encode [] = some []
utf8_encode (c ∷ t) = append_opt (encode_char c) (utf8_encode t)

abbrev pub cons_opt : ℕ → Option Text → Option Text
cons_opt c none = none
cons_opt c (some t) = some (c ∷ t)

abbrev is_tail : ℕ → Bool
is_tail b = leb 0x80 b && ltb b 0xc0

-- A number that is long enough for its form, no surrogate, and no more than the last code point.
abbrev is_scalar : ℕ → ℕ → Bool
is_scalar low n = leb low n && (ltb n 0xd800 || ltb 0xdfff n) && ltb n 0x110000

-- The decoder with `need` bytes missing of a code point that must be at least `low`; `acc` holds
-- the bits read so far.
unfoldable pub decode_from : ℕ → ℕ → ℕ → Bytes → Option Text
decode_from zero acc low [] = some []
decode_from (suc need) acc low [] = none
decode_from zero acc low (a ∷ t) =
    let one = cons_opt a (decode_from zero 0 0 t) in
    let two = decode_from 1 (a - 0xc0) 0x80 t in
    let three = decode_from 2 (a - 0xe0) 0x800 t in
    let four = decode_from 3 (a - 0xf0) 0x10000 t in
    if ltb a 0x80
    then one
    else if leb 0xc0 a && ltb a 0xe0
    then two
    else if leb 0xe0 a && ltb a 0xf0
    then three
    else if leb 0xf0 a && ltb a 0xf8
    then four
    else none
decode_from (suc zero) acc low (a ∷ t) =
    let n = acc * 64 + (a - 0x80) in
    let rest = cons_opt n (decode_from zero 0 0 t) in
    if is_tail a && is_scalar low n then rest else none
decode_from (suc (suc need)) acc low (a ∷ t) =
    let rest = decode_from (suc need) (acc * 64 + (a - 0x80)) low t in
    if is_tail a then rest else none

-- b.decode('utf-8'): overlong forms, surrogates and numbers past the last code point are refused.
unfoldable pub utf8_decode : Bytes → Option Text
unfolding decode_from
utf8_decode b = decode_from 0 0 0 b
