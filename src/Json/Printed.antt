-- ===== src/Json/Printed.antt =====
-- The characters that `json.dumps` writes.
use cf_masque_opnsense.Prelude.{
  ℕ, zero, suc, ◌+◌, ◌-◌, ◌/◌, ◌%◌, ◌≤◌, ◌<◌, ◌≡◌, ℤ, pos, negsuc, Bool, true, false, [], ◌∷◌, ◌++◌,
  All, All-append, arith, leb, ltb, ◌==◌, ◌&&◌, if◌then◌else◌, refl, Bool-cases, inl, inr,
}
use cf_masque_opnsense.Text.{Text, codes}
use cf_masque_opnsense.Text.Number.{int_text, decimal}
use cf_masque_opnsense.Text.Decimal.{IsDigit, decimal-IsDigits}
use cf_masque_opnsense.Bytes.{hex_digit}
use cf_masque_opnsense.Json.{
  Json, Items, Members, null, bool, int, str, arr, obj, nil, cons, end, member,
}
use cf_masque_opnsense.Json.Shown.{hex_digits}
use cf_masque_opnsense.Json.Dumps.{
  unit_escape, escaped, escaped_all, quoted, bool_text, dumps, items_text, members_text,
}

abbrev pub IsPrintable : ℕ → Type 0
IsPrintable c = (32 ≤ c) × (c ≤ 126)

pub record IsLine (t : Text) : Type 0 where
  pub chars : All IsPrintable t

visible : (c : ℕ) → (leb 32 c && leb c 126) ≡ true → IsPrintable c
visible c h = (ground arith, ground arith)

hex_digit-IsPrintable : (d : ℕ) → d < 16 → IsPrintable (hex_digit d)
unfolding hex_digit
hex_digit-IsPrintable d h = (ground arith, ground arith)

hex_digits-IsPrintable : (width n : ℕ) → All IsPrintable (hex_digits width n)
unfolding hex_digits
hex_digits-IsPrintable zero n = tt
hex_digits-IsPrintable (suc width) n =
    All-append IsPrintable (hex_digits width (n / 16)) _ (hex_digits-IsPrintable width (n / 16))
      (hex_digit-IsPrintable (n % 16) (omega arith), tt)

-- A literal is looked at character by character.
abbrev all_visible : Text → Bool
all_visible [] = true
all_visible (c ∷ t) = leb 32 c && leb c 126 && all_visible t

pub printable : (t : Text) → all_visible t ≡ true → All IsPrintable t
printable [] h = tt
printable (c ∷ t) h = ((ground arith, ground arith), printable t (ground arith))

append : (a b : Text) → All IsPrintable a → All IsPrintable b → All IsPrintable (a ++ b)
append a b h k = All-append IsPrintable a b h k

unit_escape-IsPrintable : (n : ℕ) → All IsPrintable (unit_escape n)
unfolding unit_escape
unit_escape-IsPrintable n =
    append (codes "\\u") (hex_digits 4 n) (printable (codes "\\u") refl)
      (hex_digits-IsPrintable 4 n)

-- One escape of the table, before the others.
escape_or :
    (b : Bool) (t y : Text)
    → All IsPrintable t
    → All IsPrintable y
    → All IsPrintable (if b then t else y)
escape_or true t y h k = h
escape_or false t y h k = k

literal_or :
    (b : Bool) (t y : Text)
    → all_visible t ≡ true
    → All IsPrintable y
    → All IsPrintable (if b then t else y)
literal_or b t y h k = escape_or b t y (printable t h) k

if_visible :
    (c : ℕ) (y : Text)
    → All IsPrintable y
    → All IsPrintable (if leb 32 c && leb c 126 then c ∷ [] else y)
if_visible c y k = elim (Bool-cases (leb 32 c && leb c 126)) [
  | inl e ↦ rw e (visible c e, tt)
  | inr e ↦ rw e k
]

escaped-IsPrintable : (c : ℕ) → All IsPrintable (escaped c)
unfolding escaped
escaped-IsPrintable c = literal_or (c == b'"') (codes "\\\"") _ refl (
    literal_or (c == b'\\') (codes "\\\\") _ refl (
      if_visible c _ (
        literal_or (c == 10) (codes "\\n") _ refl (
          literal_or (c == 13) (codes "\\r") _ refl (
            literal_or (c == 9) (codes "\\t") _ refl (
              literal_or (c == 12) (codes "\\f") _ refl (
                literal_or (c == 8) (codes "\\b") _ refl (
                  escape_or (ltb c 0x10000) (unit_escape c) _ (unit_escape-IsPrintable c) (
                    append (unit_escape _) (unit_escape _)
                      (unit_escape-IsPrintable (0xd800 + (c - 0x10000) / 1024 % 1024))
                      (unit_escape-IsPrintable (0xdc00 + (c - 0x10000) % 1024)))))))))))

digits-IsPrintable : (t : Text) → All IsDigit t → All IsPrintable t
digits-IsPrintable [] h = tt
digits-IsPrintable (c ∷ t) h = ((omega arith, omega arith), digits-IsPrintable t h.1)

int_text-IsPrintable : (n : ℤ) → All IsPrintable (int_text n)
unfolding int_text
int_text-IsPrintable (pos n) = digits-IsPrintable (decimal n) (decimal-IsDigits n)
int_text-IsPrintable (negsuc n) =
    (visible b'-' refl, digits-IsPrintable (decimal (suc n)) (decimal-IsDigits (suc n)))

escaped_all-IsPrintable : (t : Text) → All IsPrintable (escaped_all t)
unfolding escaped_all
escaped_all-IsPrintable [] = printable (codes "\"") refl
escaped_all-IsPrintable (c ∷ t) =
    append (escaped c) _ (escaped-IsPrintable c) (escaped_all-IsPrintable t)

quoted-IsPrintable : (t : Text) → All IsPrintable (quoted t)
quoted-IsPrintable t = (visible b'"' refl, escaped_all-IsPrintable t)

bool_text-IsPrintable : (b : Bool) → All IsPrintable (bool_text b)
bool_text-IsPrintable true = printable (codes "true") refl
bool_text-IsPrintable false = printable (codes "false") refl

mutual
  unfolding dumps

  dumps-IsPrintable : (v : Json) → All IsPrintable (dumps v)
  dumps-IsPrintable null = printable (codes "null") refl
  dumps-IsPrintable (bool b) = bool_text-IsPrintable b
  dumps-IsPrintable (int n) = int_text-IsPrintable n
  dumps-IsPrintable (str t) = quoted-IsPrintable t
  dumps-IsPrintable (arr vs) = (visible b'[' refl, items-IsPrintable vs)
  dumps-IsPrintable (obj ms) = (visible b'{' refl, members-IsPrintable ms)

  items-IsPrintable : (vs : Items) → All IsPrintable (items_text vs)
  items-IsPrintable nil = printable (codes "]") refl
  items-IsPrintable (cons v nil) =
      append (dumps v) _ (dumps-IsPrintable v) (printable (codes "]") refl)
  items-IsPrintable (cons v (cons v' vs)) =
      append (dumps v) _ (dumps-IsPrintable v)
        (append (codes ", ") _ (printable (codes ", ") refl) (items-IsPrintable (cons v' vs)))

  members-IsPrintable : (ms : Members) → All IsPrintable (members_text ms)
  members-IsPrintable end = printable (codes "}") refl
  members-IsPrintable (member k v end) = append (quoted k) _ (quoted-IsPrintable k) (
      append (codes ": ") _ (printable (codes ": ") refl)
        (append (dumps v) _ (dumps-IsPrintable v) (printable (codes "}") refl)))
  members-IsPrintable (member k v (member k' v' ms)) = append (quoted k) _ (quoted-IsPrintable k) (
      append (codes ": ") _ (printable (codes ": ") refl) (
        append (dumps v) _ (dumps-IsPrintable v) (
          append (codes ", ") _ (printable (codes ", ") refl)
            (members-IsPrintable (member k' v' ms)))))

pub dumps-IsLine : (v : Json) → IsLine (dumps v)
dumps-IsLine v = record { chars = dumps-IsPrintable v }
