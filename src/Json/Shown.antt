-- ===== src/Json/Shown.antt =====
-- `str` of the values of JSON. `is_printable` is `str.isprintable` of one character outside ASCII.
use cf_masque_opnsense.Prelude.{
  ℕ, zero, suc, ◌/◌, ◌%◌, Bool, true, false, not, ◌&&◌, ◌||◌, [], ◌∷◌, ◌++◌, leb, ltb, ◌==◌,
  if◌then◌else◌,
}
use cf_masque_opnsense.Text.{Text, codes, contains}
use cf_masque_opnsense.Text.Number.{int_text}
use cf_masque_opnsense.Bytes.{hex_digit}
use cf_masque_opnsense.Json.{
  Json, Items, Members, null, bool, int, str, arr, obj, nil, cons, end, member,
}

-- The last digits of a number in base 16.
unfoldable pub hex_digits : ℕ → ℕ → Text
unfolding hex_digit
hex_digits zero n = []
hex_digits (suc width) n = hex_digits width (n / 16) ++ (hex_digit (n % 16) ∷ [])

abbrev quote_of : Text → ℕ
quote_of t = if contains b'\'' t && not (contains b'"' t) then b'"' else b'\''

module _ (is_printable : ℕ → Bool) where
  unfoldable pub shown_char : ℕ → ℕ → Text
  unfolding hex_digits
  shown_char quote c =
      if (c == quote) || (c == b'\\')
      then b'\\' ∷ c ∷ []
      else if c == 9
      then codes "\\t"
      else if c == 10
      then codes "\\n"
      else if c == 13
      then codes "\\r"
      else if (leb 32 c && ltb c 127) || (leb 128 c && is_printable c)
      then c ∷ []
      else if ltb c 0x100
      then codes "\\x" ++ hex_digits 2 c
      else if ltb c 0x10000
      then codes "\\u" ++ hex_digits 4 c
      else codes "\\U" ++ hex_digits 8 c

  unfoldable pub shown_chars : ℕ → Text → Text
  unfolding shown_char
  shown_chars quote [] = quote ∷ []
  shown_chars quote (c ∷ t) = shown_char quote c ++ shown_chars quote t

  -- repr(t)
  unfoldable pub repr_text : Text → Text
  unfolding shown_chars contains
  repr_text t = quote_of t ∷ shown_chars (quote_of t) t

  unfoldable mutual
    unfolding repr_text int_text

    -- repr(v)
    pub repr : Json → Text
    repr null = codes "None"
    repr (bool true) = codes "True"
    repr (bool false) = codes "False"
    repr (int n) = int_text n
    repr (str t) = repr_text t
    repr (arr nil) = codes "[]"
    repr (arr (cons v vs)) = codes "[" ++ (repr v ++ repr_items vs)
    repr (obj end) = codes "{}"
    repr (obj (member k v ms)) =
        codes "{" ++ (repr_text k ++ (codes ": " ++ (repr v ++ repr_members ms)))

    repr_items : Items → Text
    repr_items nil = codes "]"
    repr_items (cons v vs) = codes ", " ++ (repr v ++ repr_items vs)

    repr_members : Members → Text
    repr_members end = codes "}"
    repr_members (member k v ms) =
        codes ", " ++ (repr_text k ++ (codes ": " ++ (repr v ++ repr_members ms)))

  -- str(v), and v in an f-string
  unfoldable pub shown : Json → Text
  unfolding repr
  shown (str t) = t
  shown v = repr v
