-- ===== src/Update/Others.antt =====
-- Which connection an update changes.
use cf_masque_opnsense.Prelude.{
  ◌≡◌, refl, true, false, Option, none, some, arith, if◌then◌else◌, Bool-cases, inl, inr,
}
use cf_masque_opnsense.Text.{Text, text_eq}
use cf_masque_opnsense.Text.Equality.{text_eq_iff}
use cf_masque_opnsense.Dict.{Dict}
use cf_masque_opnsense.Config.{uuid_of}
use cf_masque_opnsense.Config.Xml.{Element, Elements, element, nil, cons, tag, attributes}
use cf_masque_opnsense.Update.{update_element, is_connection, update_first, prepend}

-- The connection with a uuid: the first one.
abbrev pub connection_of : Text → Elements → Option Element
connection_of uuid nil = none
connection_of uuid (cons e es) =
    let rest = connection_of uuid es in if is_connection uuid e then some e else rest

abbrev pub updated : Dict Text → Option Element → Option Element
updated updates none = none
updated updates (some e) = some (update_element updates e)

is_connection-update_element :
    (v : Text) (updates : Dict Text) (e : Element)
    → is_connection v (update_element updates e) ≡ is_connection v e
unfolding is_connection update_element uuid_of tag attributes
is_connection-update_element v updates (element t a x cs) = refl

one_uuid : (u v : Text) (e : Element) → is_connection u e ≡ true → is_connection v e ≡ text_eq u v
unfolding is_connection
one_uuid u v e h =
    ground (arith, text_eq_iff (uuid_of e) u, text_eq_iff (uuid_of e) v, text_eq_iff u v)

-- What holds of the connections after a step of the search.
Settled : Text → Dict Text → Text → Elements → Option Elements → Type 0
Settled u updates v es none = Unit
Settled u updates v es (some es') =
    connection_of v es'
    ≡ (if text_eq u v then updated updates (connection_of v es) else connection_of v es)

prepend-Settled :
    (u : Text) (updates : Dict Text) (v : Text) (e : Element) (es : Elements) (o : Option Elements)
    → is_connection u e ≡ false
    → Settled u updates v es o
    → Settled u updates v (cons e es) (prepend e o)
unfolding Settled
prepend-Settled u updates v e es none h s = tt
prepend-Settled u updates v e es (some es') h s = ground (arith, text_eq_iff u v)

update_first-Settled :
    (u : Text) (updates : Dict Text) (v : Text) (es : Elements)
    → Settled u updates v es (update_first u updates es)
unfolding update_first Settled
update_first-Settled u updates v nil = tt
update_first-Settled u updates v (cons e es) = elim (Bool-cases (is_connection u e)) [
  | inl h ↦ rw (h, is_connection-update_element v updates e, one_uuid u v e h) (ground arith)
  | inr h ↦ rw h (
      prepend-Settled u updates v e es (update_first u updates es) h
        (update_first-Settled u updates v es))
]

-- An update that finds its connection changes the connection of that uuid as `update_element` says,
-- and the connection of any other uuid stays as it was.
pub connection_of-update_first :
    (u : Text) (updates : Dict Text) (v : Text) (es es' : Elements)
    → update_first u updates es ≡ some es'
    → connection_of v es'
      ≡ (if text_eq u v then updated updates (connection_of v es) else connection_of v es)
unfolding Settled
connection_of-update_first u updates v es es' e =
    let s = update_first-Settled u updates v es in rw e at s
