-- ===== src/Base64.antt =====
-- base64.b64encode and base64.b64decode, which discards what is no character of the alphabet.
pub mod Laws
use cf_masque_opnsense.Prelude.{
  ℕ, zero, suc, ◌+◌, ◌-◌, ◌*◌, ◌/◌, ◌%◌, Bool, true, false, ◌&&◌, Option, none, some, List, [], ◌∷◌,
  leb, ltb, ◌==◌, if◌then◌else◌,
}
use cf_masque_opnsense.Text.{Text}
use cf_masque_opnsense.Bytes.{Bytes}

unfoldable pub char_of : ℕ → ℕ
char_of d =
    if ltb d 26
    then b'A' + d
    else if ltb d 52
    then b'a' + (d - 26)
    else if ltb d 62
    then b'0' + (d - 52)
    else if d == 62
    then b'+'
    else b'/'

unfoldable pub value_of : ℕ → Option ℕ
value_of c =
    if leb b'A' c && leb c b'Z'
    then some (c - b'A')
    else if leb b'a' c && leb c b'z'
    then some (c - b'a' + 26)
    else if leb b'0' c && leb c b'9'
    then some (c - b'0' + 52)
    else if c == b'+'
    then some 62
    else if c == b'/'
    then some 63
    else none

-- base64.b64encode(b).decode()
unfoldable pub b64encode : Bytes → Text
unfolding char_of
b64encode [] = []
b64encode (a ∷ []) = char_of (a / 4) ∷ char_of (a % 4 * 16) ∷ b'=' ∷ b'=' ∷ []
b64encode (a ∷ (b ∷ [])) =
    char_of (a / 4) ∷ char_of (a % 4 * 16 + b / 16) ∷ char_of (b % 16 * 4) ∷ b'=' ∷ []
b64encode (a ∷ (b ∷ (c ∷ t))) =
    char_of (a / 4)
    ∷ char_of (a % 4 * 16 + b / 16)
    ∷ char_of (b % 16 * 4 + c / 64)
    ∷ char_of (c % 64)
    ∷ b64encode t

-- Where the decoder stands: characters read of a group of four, with the bits that are left.
pub data Quad : Type 0 where
  q0 : Quad
  q1 q2 q3 : ℕ → Quad

abbrev pub emit : ℕ → Option Bytes → Option Bytes
emit b none = none
emit b (some bs) = some (b ∷ bs)

abbrev at_end : Quad → Option Bytes
at_end q0 = some []
at_end _ = none

-- Whether padding character number `pads + 1` ends the text.
abbrev pub pad_ends : Quad → ℕ → Bool
pad_ends (q2 left) pads = leb 4 (2 + suc pads)
pad_ends (q3 left) pads = true
pad_ends _ pads = false

-- The padding counted so far, after one more padding character that does not end the text.
abbrev pub count_pad : Quad → ℕ → ℕ
count_pad (q2 left) pads = suc pads
count_pad _ pads = pads

-- A character of value v: the next place in the group, and the byte that is complete, if any.
abbrev pub accept : Quad → ℕ → (Quad → Option Bytes) → Option Bytes
accept q0 v more = more (q1 v)
accept (q1 left) v more = emit (left * 4 + v / 16) (more (q2 (v % 16)))
accept (q2 left) v more = emit (left * 16 + v / 4) (more (q3 (v % 4)))
accept (q3 left) v more = emit (left * 64 + v) (more q0)

abbrev pub accept_or_skip : Option ℕ → Quad → (Quad → Option Bytes) → Option Bytes → Option Bytes
accept_or_skip none q more skipped = skipped
accept_or_skip (some v) q more skipped = accept q v more

-- The decoder, `pads` padding characters after the last character of the alphabet.
unfoldable pub decode_quads : Quad → ℕ → Text → Option Bytes
unfolding value_of
decode_quads q pads [] = at_end q
decode_quads q pads (c ∷ t) =
    let padded = decode_quads q (count_pad q pads) t in
    let skipped = decode_quads q pads t in
    let next = accept_or_skip (value_of c) q (λ q'. decode_quads q' 0 t) skipped in
    if c == b'=' then (if pad_ends q pads then some [] else padded) else next

unfoldable pub is_ascii : Text → Bool
is_ascii [] = true
is_ascii (c ∷ t) = ltb c 128 && is_ascii t

-- base64.b64decode(t); `none` is the exception.
unfoldable pub b64decode : Text → Option Bytes
unfolding decode_quads is_ascii
b64decode t = if is_ascii t then decode_quads q0 0 t else none
