-- ===== src/Update/Fields.antt =====
-- What the configuration reader finds in a connection after an update.
use cf_masque_opnsense.Prelude.{◌≡◌, refl, ap, ◌∙◌, [], ◌∷◌, arith, if◌then◌else◌, is_nil}
use cf_masque_opnsense.Text.{Text, text_eq, strip}
use cf_masque_opnsense.Text.Equality.{text_eq_iff}
use cf_masque_opnsense.Dict.{Dict}
use cf_masque_opnsense.Config.{text, text_or}
use cf_masque_opnsense.Config.Xml.{
  Element, Elements, element, nil, cons, tag, text_of, find, find_in,
}
use cf_masque_opnsense.Update.{set_child, set_children, update_element}

-- The text that a reader gets for a stored value, with the reader's default for an empty one.
abbrev pub shown : Text → Text → Text
shown default val = if is_nil val then default else strip val

-- The text for a key: that of its last update, or the old one.
abbrev pub shown_after : Text → Text → Dict Text → Text → Text
shown_after key default [] old = old
shown_after key default ((k, val) ∷ more) old =
    shown_after key default more (if text_eq k key then shown default val else old)

text_or-set_child :
    (k key val default : Text) (es : Elements)
    → text_or (find_in key (set_child k val es)) default
      ≡ (if text_eq k key then shown default val else text_or (find_in key es) default)
unfolding set_child find_in tag text_of
text_or-set_child k key val default nil = ground arith
text_or-set_child k key val default (cons (element t a x cs) es) = ground (
  arith,
  text_eq_iff t k,
  text_eq_iff t key,
  text_eq_iff k key,
  text_or-set_child k key val default es,
)

pub text_or-set_children :
    (key default : Text) (updates : Dict Text) (es : Elements)
    → text_or (find_in key (set_children updates es)) default
      ≡ shown_after key default updates (text_or (find_in key es) default)
unfolding set_children
text_or-set_children key default [] es = refl
text_or-set_children key default ((k, val) ∷ more) es =
    text_or-set_children key default more (set_child k val es)
    ∙ ap (shown_after key default more) (text_or-set_child k key val default es)

-- After an update every field reads as its last new value, stripped and with the reader's default
-- for an empty one, and every field that was not updated reads as before.
pub text-update_element :
    (updates : Dict Text) (e : Element) (key default : Text)
    → text (update_element updates e) key default
      ≡ shown_after key default updates (text e key default)
unfolding text find update_element
text-update_element updates (element t a x cs) key default =
    text_or-set_children key default updates cs
