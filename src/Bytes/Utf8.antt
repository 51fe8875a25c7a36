-- ===== src/Bytes/Utf8.antt =====
-- `decode` undoes `encode`.
use cf_masque_opnsense.Prelude.{
  All-append, false, ℕ, ◌+◌, ◌*◌, ◌/◌, ◌%◌, ◌<◌, ◌≤◌, ◌≡◌, refl, some, none, Option, [], ◌∷◌, ◌++◌,
  arith, All, inl, inr, true, false, ltb, leb, ◌&&◌, Bool-cases, ◌⊎◌, suc, ◌-◌, ◌∙◌,
}
use cf_masque_opnsense.Text.{Text}
use cf_masque_opnsense.Bytes.{
  Bytes, IsByte, encode_char, utf8_encode, utf8_decode, decode_from, append_opt, cons_opt,
  is_scalar,
}

decode-one :
    (c : ℕ) (t : Bytes) → c < 0x80 → decode_from 0 0 0 (c ∷ t) ≡ cons_opt c (decode_from 0 0 0 t)
unfolding decode_from
decode-one c t h = ground arith

decode-two :
    (c : ℕ) (t : Bytes)
    → 0x80 ≤ c
    → c < 0x800
    → decode_from 0 0 0 ((0xc0 + c / 64) ∷ (0x80 + c % 64) ∷ t) ≡ cons_opt c (decode_from 0 0 0 t)
unfolding decode_from
decode-two c t h k = ground arith

decode-three :
    (c : ℕ) (t : Bytes)
    → 0x800 ≤ c
    → c < 0x10000
    → (c < 0xd800) ⊎ (0xdfff < c)
    → decode_from 0 0 0 ((0xe0 + c / 4096) ∷ (0x80 + (c / 64) % 64) ∷ (0x80 + c % 64) ∷ t)
      ≡ cons_opt c (decode_from 0 0 0 t)
unfolding decode_from
decode-three c t h k s = ground arith

add_sub : (a k : ℕ) → k + a - k ≡ a
add_sub a k = omega arith

is_tail-of : (y : ℕ) → y < 64 → (leb 0x80 (0x80 + y) && ltb (0x80 + y) 0xc0) ≡ true
is_tail-of y h = ground arith

is_scalar-of : (n : ℕ) → 0x10000 ≤ n → n < 0x110000 → is_scalar 0x10000 n ≡ true
is_scalar-of n h k = ground arith

decode-last :
    (acc w n : ℕ) (t : Bytes)
    → w < 64
    → 0x10000 ≤ n
    → n < 0x110000
    → acc * 64 + w ≡ n
    → decode_from 1 acc 0x10000 ((0x80 + w) ∷ t) ≡ cons_opt n (decode_from 0 0 0 t)
unfolding decode_from
decode-last acc w n t h k l e = rw (is_tail-of w h, add_sub w 0x80, e, is_scalar-of n k l)

decode-next :
    (need acc low w : ℕ) (t : Bytes)
    → w < 64
    → decode_from (suc (suc need)) acc low ((0x80 + w) ∷ t)
      ≡ decode_from (suc need) (acc * 64 + w) low t
unfolding decode_from
decode-next need acc low w t h = rw (is_tail-of w h, add_sub w 0x80)

decode-lead :
    (x : ℕ) (t : Bytes) → x < 8 → decode_from 0 0 0 ((0xf0 + x) ∷ t) ≡ decode_from 3 x 0x10000 t
unfolding decode_from
decode-lead x t h = rw (not_ascii, not_two, not_three, is_four, add_sub x 0xf0)
  where
    not_ascii : ltb (0xf0 + x) 0x80 ≡ false
    not_ascii = ground arith

    not_two : (leb 0xc0 (0xf0 + x) && ltb (0xf0 + x) 0xe0) ≡ false
    not_two = ground arith

    not_three : (leb 0xe0 (0xf0 + x) && ltb (0xf0 + x) 0xf0) ≡ false
    not_three = ground arith

    is_four : (leb 0xf0 (0xf0 + x) && ltb (0xf0 + x) 0xf8) ≡ true
    is_four = ground arith

decode-four :
    (c : ℕ) (t : Bytes)
    → 0x10000 ≤ c
    → c < 0x110000
    → decode_from 0 0 0 (
        (0xf0 + c / 262144)
        ∷ (0x80 + (c / 4096) % 64)
        ∷ (0x80 + (c / 64) % 64)
        ∷ (0x80 + c % 64)
        ∷ t)
      ≡ cons_opt c (decode_from 0 0 0 t)
decode-four c t h k =
    decode-lead (c / 262144) _ (omega arith)
    ∙ decode-next 1 _ _ ((c / 4096) % 64) _ (omega arith)
    ∙ decode-next 0 _ _ ((c / 64) % 64) _ (omega arith)
    ∙ decode-last _ (c % 64) c t (omega arith) h k (omega arith)

decode-encode_char :
    (c : ℕ) (bs t : Bytes)
    → encode_char c ≡ some bs
    → decode_from 0 0 0 (bs ++ t) ≡ cons_opt c (decode_from 0 0 0 t)
unfolding encode_char
decode-encode_char c bs t h =
    ground (arith, decode-one c t, decode-two c t, decode-three c t, decode-four c t)

no_surrogate :
    (c : ℕ)
    → (c < 0xd800) ⊎ ((0xdfff < c) × (c < 0x110000))
    → (leb 0xd800 c && leb c 0xdfff) ≡ false
no_surrogate c h = ground arith

in_range : (c : ℕ) → (c < 0xd800) ⊎ ((0xdfff < c) × (c < 0x110000)) → ltb c 0x110000 ≡ true
in_range c h = ground arith

encode_char_total :
    (c : ℕ)
    → (c < 0xd800) ⊎ ((0xdfff < c) × (c < 0x110000))
    → (b : Bytes) × (encode_char c ≡ some b) × All IsByte b
unfolding encode_char
encode_char_total c h = elim (Bool-cases (ltb c 0x80)) [
  | inl e ↦ (c ∷ [], rw e, ground arith)
  | inr e ↦ elim (Bool-cases (ltb c 0x800)) [
    | inl f ↦ ((0xc0 + c / 64) ∷ (0x80 + c % 64) ∷ [], rw (e, f), ground arith)
    | inr f ↦ elim (Bool-cases (ltb c 0x10000)) [
      | inl g ↦ (
        (0xe0 + c / 4096) ∷ (0x80 + (c / 64) % 64) ∷ (0x80 + c % 64) ∷ [],
        rw (e, f, no_surrogate c h, g),
        ground arith,
      )
      | inr g ↦ (
        (0xf0 + c / 262144)
            ∷ (0x80 + (c / 4096) % 64)
            ∷ (0x80 + (c / 64) % 64)
            ∷ (0x80 + c % 64)
            ∷ [],
        rw (e, f, no_surrogate c h, g, in_range c h),
        ground (arith, in_range c h),
      )
    ]
  ]
]

append_opt-cases :
    (x y : Option Bytes) (b : Bytes)
    → append_opt x y ≡ some b
    → (a : Bytes) × (c : Bytes) × (x ≡ some a) × (y ≡ some c) × (a ++ c ≡ b)
append_opt-cases (some a) (some c) b h = (a, c, refl, refl, ground arith)
append_opt-cases (some a) none b h = cc
append_opt-cases none y b h = cc

decode-encode : (t : Text) (b : Bytes) → utf8_encode t ≡ some b → decode_from 0 0 0 b ≡ some t
unfolding utf8_encode decode_from
decode-encode [] b h = ground arith
decode-encode (c ∷ t) b h =
    let (x, y, ex, ey, e) = append_opt-cases (encode_char c) (utf8_encode t) b h in
    rw (← e) (decode-encode_char c x y ex ∙ rw (decode-encode t y ey))

-- Decoding the encoding of a text gives the text.
pub utf8_decode-encode : (t : Text) (b : Bytes) → utf8_encode t ≡ some b → utf8_decode b ≡ some t
unfolding utf8_decode
utf8_decode-encode = decode-encode

-- Every text without surrogates has an encoding.
pub utf8_encode_total :
    (t : Text)
    → All (λ c. (c < 0xd800) ⊎ ((0xdfff < c) × (c < 0x110000))) t
    → (b : Bytes) × (utf8_encode t ≡ some b) × All IsByte b
unfolding utf8_encode
utf8_encode_total [] h = ([], refl, tt)
utf8_encode_total (c ∷ t) h =
    let (bs, e, hb) = encode_char_total c h.0 in
    let (rest, er, hr) = utf8_encode_total t h.1 in
    (bs ++ rest, rw (e, er), All-append IsByte bs rest hb hr)
