-- ===== src/Json.antt =====
-- The values that `json.loads` gives, with what the scripts do to them: truthiness, `.get`, `[0]`
-- and `str`. A number is an integer: one with a fraction or an exponent is left out.
pub mod Shown
pub mod Dumps
pub mod Printed
use cf_masque_opnsense.Prelude.{
  ℕ, zero, suc, ℤ, pos, Bool, true, false, not, Option, none, some, List, [], ◌∷◌, if◌then◌else◌,
  is_nil, is_zero_ℤ,
}
use cf_masque_opnsense.Text.{Text, codes, text_eq}
use cf_masque_opnsense.Outcome.{
  Result, ok, raise, attribute_error, key_error, index_error, type_error,
}

mutual
  pub data Json : Type 0 where
    null : Json
    bool : Bool → Json
    int : ℤ → Json
    str : Text → Json
    arr : Items → Json
    obj : Members → Json

  pub data Items : Type 0 where
    nil : Items
    cons : Json → Items → Items

  -- The keys of an object differ: of two members with one key, `json.loads` keeps the later.
  pub data Members : Type 0 where
    end : Members
    member : Text → Json → Members → Members

-- A dict literal.
abbrev pub members : List (Text × Json) → Members
members [] = end
members ((k, v) ∷ more) = member k v (members more)

-- bool(v)
unfoldable pub is_true : Json → Bool
is_true null = false
is_true (bool b) = b
is_true (int n) = not (is_zero_ℤ n)
is_true (str t) = not (is_nil t)
is_true (arr nil) = false
is_true (arr (cons v vs)) = true
is_true (obj end) = false
is_true (obj (member k v ms)) = true

unfoldable pub find_member : Text → Members → Option Json
find_member k end = none
find_member k (member j v ms) = if text_eq j k then some v else find_member k ms

abbrev pub or_default : Json → Option Json → Json
or_default d none = d
or_default d (some v) = v

-- v.get(k, d)
unfoldable pub get : Json → Text → Json → Result Json
unfolding find_member
get (obj ms) k d = ok (or_default d (find_member k ms))
get _ k d = raise attribute_error

-- v[0]
unfoldable pub first : Json → Result Json
first (arr nil) = raise index_error
first (arr (cons v vs)) = ok v
first (str []) = raise index_error
first (str (c ∷ t)) = ok (str (c ∷ []))
first (obj ms) = raise key_error
first _ = raise type_error

-- The text of a `str`, for a method that only a `str` has.
unfoldable pub text_of : Json → Result Text
text_of (str t) = ok t
text_of _ = raise attribute_error
