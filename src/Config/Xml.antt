-- ===== src/Config/Xml.antt =====
-- The part of `xml.etree.ElementTree` that the scripts use. A node has its tag, its attributes,
-- the text before its first child (empty for `None`: the readers treat both alike) and its
-- children. The file /conf/config.xml is represented by the tree that it parses to.
use cf_masque_opnsense.Prelude.{Option, none, some, List, [], ◌∷◌, if◌then◌else◌}
use cf_masque_opnsense.Text.{Text, text_eq}
use cf_masque_opnsense.Dict.{Dict}

mutual
  pub data Element : Type 0 where
    element : Text → Dict Text → Text → Elements → Element

  pub data Elements : Type 0 where
    nil : Elements
    cons : Element → Elements → Elements

unfoldable pub tag : Element → Text
tag (element t a x cs) = t

unfoldable pub attributes : Element → Dict Text
attributes (element t a x cs) = a

unfoldable pub text_of : Element → Text
text_of (element t a x cs) = x

unfoldable pub children : Element → Elements
children (element t a x cs) = cs

unfoldable pub find_in : Text → Elements → Option Element
find_in t nil = none
find_in t (cons e es) = if text_eq (tag e) t then some e else find_in t es

-- node.find(tag)
unfoldable pub find : Element → Text → Option Element
unfolding find_in children
find e t = find_in t (children e)

unfoldable pub find_all_in : Text → Elements → List Element
find_all_in t nil = []
find_all_in t (cons e es) =
    let rest = find_all_in t es in if text_eq (tag e) t then e ∷ rest else rest

-- node.findall(tag)
unfoldable pub find_all : Element → Text → List Element
unfolding find_all_in children
find_all e t = find_all_in t (children e)

abbrev pub or_else {ℓ} : {A : Type ℓ} → Option A → Option A → Option A
or_else none y = y
or_else (some x) y = some x

-- node.find('.//tag'): the first node with the tag strictly below, in document order.
unfoldable mutual
  pub find_below : Text → Element → Option Element
  find_below t (element u a x cs) = find_below_in t cs

  pub find_below_in : Text → Elements → Option Element
  find_below_in t nil = none
  find_below_in t (cons e es) =
      or_else (if text_eq (tag e) t then some e else find_below t e) (find_below_in t es)
