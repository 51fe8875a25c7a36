-- ===== src/Base64/Laws.antt =====
-- `b64decode` undoes `b64encode`.
use cf_masque_opnsense.Prelude.{
  ℕ, ◌+◌, ◌*◌, ◌/◌, ◌%◌, ◌<◌, ◌≡◌, refl, ap, ◌∙◌, ap₂, true, false, none, some, [], ◌∷◌, arith, All,
  ltb, ◌==◌,
}
use cf_masque_opnsense.Text.{Text, codes}
use cf_masque_opnsense.Bytes.{Bytes, IsByte}
use cf_masque_opnsense.Base64.{
  char_of, value_of, b64encode, q0, q1, q2, q3, emit, decode_quads, is_ascii, b64decode,
}

value-char : (d : ℕ) → d < 64 → value_of (char_of d) ≡ some d
unfolding value_of char_of
value-char d h = ground arith

char_not_pad : (d : ℕ) → d < 64 → (char_of d == b'=') ≡ false
unfolding char_of
char_not_pad d h = ground arith

char_ascii : (d : ℕ) → d < 64 → ltb (char_of d) 128 ≡ true
unfolding char_of
char_ascii d h = ground arith

step_q0 :
    (d p : ℕ) (t : Text) → d < 64 → decode_quads q0 p (char_of d ∷ t) ≡ decode_quads (q1 d) 0 t
unfolding decode_quads
step_q0 d p t h = rw (char_not_pad d h, value-char d h)

step_q1 :
    (l d p : ℕ) (t : Text)
    → d < 64
    → decode_quads (q1 l) p (char_of d ∷ t) ≡ emit (l * 4 + d / 16) (decode_quads (q2 (d % 16)) 0 t)
unfolding decode_quads
step_q1 l d p t h = rw (char_not_pad d h, value-char d h)

step_q2 :
    (l d p : ℕ) (t : Text)
    → d < 64
    → decode_quads (q2 l) p (char_of d ∷ t) ≡ emit (l * 16 + d / 4) (decode_quads (q3 (d % 4)) 0 t)
unfolding decode_quads
step_q2 l d p t h = rw (char_not_pad d h, value-char d h)

step_q3 :
    (l d p : ℕ) (t : Text)
    → d < 64
    → decode_quads (q3 l) p (char_of d ∷ t) ≡ emit (l * 64 + d) (decode_quads q0 0 t)
unfolding decode_quads
step_q3 l d p t h = rw (char_not_pad d h, value-char d h)

pads_q2 : (l : ℕ) → decode_quads (q2 l) 0 (b'=' ∷ b'=' ∷ []) ≡ some []
unfolding decode_quads
pads_q2 l = refl

pads_q3 : (l : ℕ) → decode_quads (q3 l) 0 (b'=' ∷ []) ≡ some []
unfolding decode_quads
pads_q3 l = refl

-- The steps of one group, put together.
group :
    (a b c : ℕ) (t : Text)
    → a < 256
    → b < 256
    → c < 256
    → decode_quads q0 0 (
        char_of (a / 4)
        ∷ char_of (a % 4 * 16 + b / 16)
        ∷ char_of (b % 16 * 4 + c / 64)
        ∷ char_of (c % 64)
        ∷ t)
      ≡ emit a (emit b (emit c (decode_quads q0 0 t)))
group a b c t ha hb hc =
    rw
      (
        step_q0 (a / 4) 0 _ (omega arith),
        step_q1 (a / 4) (a % 4 * 16 + b / 16) 0 _ (omega arith),
        step_q2 _ (b % 16 * 4 + c / 64) 0 _ (omega arith),
        step_q3 _ (c % 64) 0 t (omega arith),
      )
      (emits (omega arith) (omega arith) (omega arith))
  where
    emits :
        {x y z : ℕ}
        → x ≡ a
        → y ≡ b
        → z ≡ c
        → emit x (emit y (emit z (decode_quads q0 0 t)))
          ≡ emit a (emit b (emit c (decode_quads q0 0 t)))
    emits e f g = rw (e, f, g)

decode-encode : (b : Bytes) → All IsByte b → decode_quads q0 0 (b64encode b) ≡ some b
unfolding b64encode
decode-encode [] h = unfold decode_quads in refl
decode-encode (a ∷ []) h =
    rw (step_q0 (a / 4) 0 _ (omega arith), step_q1 (a / 4) (a % 4 * 16) 0 _ (omega arith), pads_q2)
      (ap (λ x. some (x ∷ [])) (omega arith))
decode-encode (a ∷ (b ∷ [])) h =
    rw
      (
        step_q0 (a / 4) 0 _ (omega arith),
        step_q1 (a / 4) (a % 4 * 16 + b / 16) 0 _ (omega arith),
        step_q2 _ (b % 16 * 4) 0 _ (omega arith),
        pads_q3,
      )
      (ap₂ (λ x y. some (x ∷ (y ∷ []))) (omega arith) (omega arith))
decode-encode (a ∷ (b ∷ (c ∷ t))) h =
    group a b c (b64encode t) h.0 h.1.0 h.1.1.0 ∙ rw (decode-encode t h.1.1.1)

is_ascii-b64encode : (b : Bytes) → All IsByte b → is_ascii (b64encode b) ≡ true
unfolding b64encode is_ascii
is_ascii-b64encode [] h = refl
is_ascii-b64encode (a ∷ []) h =
    rw (char_ascii (a / 4) (omega arith), char_ascii (a % 4 * 16) (omega arith))
is_ascii-b64encode (a ∷ (b ∷ [])) h = rw (
  char_ascii (a / 4) (omega arith),
  char_ascii (a % 4 * 16 + b / 16) (omega arith),
  char_ascii (b % 16 * 4) (omega arith),
)
is_ascii-b64encode (a ∷ (b ∷ (c ∷ t))) h =
    rw
      (
        char_ascii (a / 4) (omega arith),
        char_ascii (a % 4 * 16 + b / 16) (omega arith),
        char_ascii (b % 16 * 4 + c / 64) (omega arith),
        char_ascii (c % 64) (omega arith),
      )
      (is_ascii-b64encode t h.1.1.1)

-- Decoding the encoding of bytes gives the bytes.
pub b64decode-b64encode : (b : Bytes) → All IsByte b → b64decode (b64encode b) ≡ some b
unfolding b64decode
b64decode-b64encode b h = rw (is_ascii-b64encode b h) (decode-encode b h)

b64_tests :
    (b64encode (codes "hello") ≡ codes "aGVsbG8=")
    × (b64decode (codes "aGVs\nbG8=") ≡ some (codes "hello"))
    × (b64decode (codes "aGVsbG8") ≡ none)
unfolding b64encode b64decode
b64_tests = (refl, refl, refl)
