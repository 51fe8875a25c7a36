-- ===== src/Update.antt =====
-- warp.py: `_update_config_xml`, which writes fields of a connection back into config.xml.
pub mod Fields
pub mod Others
pub mod Written
pub mod Document
pub mod Reading
pub mod Reloaded
use cf_masque_opnsense.Prelude.{
  ℕ, zero, suc, Bool, true, false, ◌&&◌, ◌||◌, Option, none, some, List, [], ◌∷◌, ◌++◌, leb, ◌==◌,
  if◌then◌else◌, is_nil,
}
use cf_masque_opnsense.Text.{Text, codes, text_eq}
use cf_masque_opnsense.Dict.{Dict, lookup}
use cf_masque_opnsense.Outcome.{
  Result, ok, raise, runtime_error, invalid_value, os_error, value_error, ◌>>=◌,
}
use cf_masque_opnsense.Config.{uuid_of}
use cf_masque_opnsense.Config.Xml.{Element, Elements, element, nil, cons, tag, find_in}
use cf_masque_opnsense.Files.{Files, Content, plain, object, xml, read, write, replace}
use cf_masque_opnsense.Process.{config_file}

-- [0-9a-f]
unfoldable pub is_lower_hex : ℕ → Bool
is_lower_hex c = (leb b'0' c && leb c b'9') || (leb b'a' c && leb c b'f')

abbrev pub hexes : ℕ → List Bool → List Bool
hexes zero p = p
hexes (suc n) p = true ∷ hexes n p

-- The pattern of _UUID_RE: true for a hexadecimal digit, false for a dash.
abbrev pub uuid_pattern : List Bool
uuid_pattern = hexes 8 (false ∷ hexes 4 (false ∷ hexes 4 (false ∷ hexes 4 (false ∷ hexes 12 []))))

-- `$` matches at the end and before a line break at the end.
unfoldable pub matches : List Bool → Text → Bool
unfolding is_lower_hex
matches [] [] = true
matches [] (c ∷ []) = c == b'\n'
matches [] (c ∷ (d ∷ t)) = false
matches (p ∷ ps) [] = false
matches (true ∷ ps) (c ∷ t) = is_lower_hex c && matches ps t
matches (false ∷ ps) (c ∷ t) = c == b'-' && matches ps t

abbrev pub with_text : Text → Element → Element
with_text val (element t a x cs) = element t a val cs

-- el = conn.find(key) or ET.SubElement(conn, key); el.text = val
unfoldable pub set_child : Text → Text → Elements → Elements
set_child key val nil = cons (element key [] val nil) nil
set_child key val (cons e es) =
    let rest = set_child key val es in
    if text_eq (tag e) key then cons (with_text val e) es else cons e rest

-- for key, val in updates.items()
unfoldable pub set_children : Dict Text → Elements → Elements
set_children [] es = es
set_children ((key, val) ∷ more) es = set_children more (set_child key val es)

unfoldable pub update_element : Dict Text → Element → Element
update_element updates (element t a x cs) = element t a x (set_children updates cs)

unfoldable pub is_connection : Text → Element → Bool
is_connection uuid e = text_eq (tag e) (codes "connection") && text_eq (uuid_of e) uuid

abbrev pub prepend : Element → Option Elements → Option Elements
prepend e none = none
prepend e (some es) = some (cons e es)

-- zt.find("connection[@uuid='…']") and the update of what it finds
unfoldable pub update_first : Text → Dict Text → Elements → Option Elements
update_first uuid updates nil = none
update_first uuid updates (cons e es) =
    let rest = prepend e (update_first uuid updates es) in
    if is_connection uuid e then some (cons (update_element updates e) es) else rest

abbrev pub not_found : Text → Option Elements → Result Elements
not_found uuid none =
    raise (runtime_error (codes "Connection " ++ (uuid ++ codes " not found in config.xml")))
not_found uuid (some es) = ok es

abbrev pub rebuild : Text → Dict Text → Text → Result Elements → Result Element
rebuild t a x (raise e) = raise e
rebuild t a x (ok es) = ok (element t a x es)

-- The update of a `connections` node.
unfoldable pub update_connections : Text → Dict Text → Element → Result Element
update_connections uuid updates (element t a x cs) =
    rebuild t a x (not_found uuid (update_first uuid updates cs))

abbrev pub prepend_r : Element → Result Elements → Result Elements
prepend_r e (raise x) = raise x
prepend_r e (ok es) = ok (cons e es)

abbrev pub replace_head : Elements → Result Element → Result Elements
replace_head es (raise x) = raise x
replace_head es (ok e) = ok (cons e es)

-- The update of the first `connections` child among the children of a CloudflareZT node.
unfoldable pub update_section : Text → Dict Text → Elements → Result Elements
update_section uuid updates nil =
    raise (runtime_error (codes "CloudflareZT/connections not found in config.xml"))
update_section uuid updates (cons e es) =
    let rest = prepend_r e (update_section uuid updates es) in
    if text_eq (tag e) (codes "connections")
    then replace_head es (update_connections uuid updates e)
    else rest

abbrev pub has_section : Elements → Bool
has_section es = elim (find_in (codes "connections") es) [ none ↦ false | some e ↦ true ]

abbrev pub children_of : Element → Elements
children_of (element t a x cs) = cs

abbrev pub with_children : Element → Result Elements → Result Element
with_children (element t a x cs) r = rebuild t a x r

-- A CloudflareZT node that has a `connections` child.
unfoldable pub is_section_parent : Element → Bool
is_section_parent e = text_eq (tag e) (codes "CloudflareZT") && has_section (children_of e)

-- The update went on, or nothing was found there.
abbrev pub or_later :
    Element
    → Elements
    → Option (Result Element)
    → Option (Result Elements)
    → Option (Result Elements)
or_later e es (some r) later = some (replace_head es r)
or_later e es none none = none
or_later e es none (some r) = some (prepend_r e r)

abbrev pub map_rebuild :
    Text → Dict Text → Text → Option (Result Elements) → Option (Result Element)
map_rebuild t a x none = none
map_rebuild t a x (some r) = some (rebuild t a x r)

-- root.find('.//CloudflareZT/connections'): the first such node in document order is updated.
unfoldable mutual
  pub update_below : Text → Dict Text → Element → Option (Result Element)
  update_below uuid updates (element t a x cs) = map_rebuild t a x (update_below_in uuid updates cs)

  pub update_below_in : Text → Dict Text → Elements → Option (Result Elements)
  update_below_in uuid updates nil = none
  update_below_in uuid updates (cons e es) =
      or_later e es
        (if is_section_parent e
          then some (with_children e (update_section uuid updates (children_of e)))
          else update_below uuid updates e)
        (update_below_in uuid updates es)

abbrev pub updated_root : Option (Result Element) → Result Element
updated_root none = raise (runtime_error (codes "CloudflareZT/connections not found in config.xml"))
updated_root (some r) = r

-- ET.parse(CONFIG_FILE)
abbrev pub parsed : Option Content → Result Element
parsed none = raise os_error
parsed (some (xml root)) = ok root
parsed (some c) = raise value_error

abbrev pub config_tmp : Text
config_tmp = codes "/conf/config.xml.cloudflarezt.tmp"

-- _update_config_xml
unfoldable pub update_config_xml : Text → Dict Text → Files → Result Files
update_config_xml uuid updates fs =
    if matches uuid_pattern uuid
    then (do
      root ← parsed (read config_file fs)
      root' ← updated_root (update_below uuid updates root)
      ok (replace config_tmp config_file (write config_tmp (xml root') fs)))
    else raise (invalid_value (codes "Invalid connection UUID"))
