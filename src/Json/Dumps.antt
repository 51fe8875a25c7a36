-- ===== src/Json/Dumps.antt =====
-- `json.dumps` with its defaults: the text that the scripts print. A character that is no printable
-- ASCII is escaped, as a pair of surrogates beyond the basic plane.
use cf_masque_opnsense.Prelude.{
  ℕ, ◌+◌, ◌-◌, ◌/◌, ◌%◌, Bool, true, false, [], ◌∷◌, ◌++◌, leb, ltb, ◌==◌, ◌&&◌, if◌then◌else◌,
}
use cf_masque_opnsense.Text.{Text, codes}
use cf_masque_opnsense.Text.Number.{int_text}
use cf_masque_opnsense.Json.{
  Json, Items, Members, null, bool, int, str, arr, obj, nil, cons, end, member,
}
use cf_masque_opnsense.Json.Shown.{hex_digits}

-- '\\u{0:04x}'
unfoldable pub unit_escape : ℕ → Text
unfolding hex_digits
unit_escape n = b'\\' ∷ b'u' ∷ hex_digits 4 n

unfoldable pub escaped : ℕ → Text
unfolding unit_escape
escaped c =
    if c == b'"'
    then codes "\\\""
    else if c == b'\\'
    then codes "\\\\"
    else if leb 32 c && leb c 126
    then c ∷ []
    else if c == 10
    then codes "\\n"
    else if c == 13
    then codes "\\r"
    else if c == 9
    then codes "\\t"
    else if c == 12
    then codes "\\f"
    else if c == 8
    then codes "\\b"
    else if ltb c 0x10000
    then unit_escape c
    else unit_escape (0xd800 + (c - 0x10000) / 1024 % 1024)
      ++ unit_escape (0xdc00 + (c - 0x10000) % 1024)

unfoldable pub escaped_all : Text → Text
unfolding escaped
escaped_all [] = b'"' ∷ []
escaped_all (c ∷ t) = escaped c ++ escaped_all t

abbrev pub quoted : Text → Text
quoted t = b'"' ∷ escaped_all t

abbrev pub bool_text : Bool → Text
bool_text true = codes "true"
bool_text false = codes "false"

unfoldable mutual
  unfolding int_text

  pub dumps : Json → Text
  dumps null = codes "null"
  dumps (bool b) = bool_text b
  dumps (int n) = int_text n
  dumps (str t) = quoted t
  dumps (arr vs) = b'[' ∷ items_text vs
  dumps (obj ms) = b'{' ∷ members_text ms

  pub items_text : Items → Text
  items_text nil = b']' ∷ []
  items_text (cons v nil) = dumps v ++ (b']' ∷ [])
  items_text (cons v (cons v' vs)) = dumps v ++ (codes ", " ++ items_text (cons v' vs))

  pub members_text : Members → Text
  members_text end = b'}' ∷ []
  members_text (member k v end) = quoted k ++ (codes ": " ++ (dumps v ++ (b'}' ∷ [])))
  members_text (member k v (member k' v' ms)) =
      quoted k ++ (codes ": " ++ (dumps v ++ (codes ", " ++ members_text (member k' v' ms))))
