-- ===== src/Text.antt =====
-- Python's `str` as a list of code points, with the methods that the scripts call: `strip`,
-- `lstrip`, `split`, `rsplit`, `join`, `replace`, truthiness, `==` and `in`.
pub mod Equality
pub mod Strip
pub mod Split
pub mod Number
pub mod Decimal
use Prim.Native.Char.{code}
use Prim.Native.String.{String}
use cf_masque_opnsense.Prelude.{
  ℕ, ◌≡◌, refl, Bool, true, false, ◌&&◌, ◌||◌, List, [], ◌∷◌, ◌++◌, leb, ◌==◌, if◌then◌else◌,
  is_nil,
}

abbrev pub Text : Type 0
Text = List ℕ

-- A literal of the source.
abbrev pub codes : String → Text
codes String.[] = []
codes (String.◌∷◌ c s) = code c ∷ codes s

-- a == b
unfoldable pub text_eq : Text → Text → Bool
text_eq [] [] = true
text_eq [] (y ∷ ys) = false
text_eq (x ∷ xs) [] = false
text_eq (x ∷ xs) (y ∷ ys) = x == y && text_eq xs ys

-- t in (a, b, …)
unfoldable pub one_of : Text → List Text → Bool
one_of t [] = false
one_of t (a ∷ more) = text_eq t a || one_of t more

-- The code points that `str.strip()` removes.
unfoldable pub is_space : ℕ → Bool
is_space c =
    (leb 9 c && leb c 13)
    || (leb 28 c && leb c 32)
    || c == 0x85
    || c == 0xa0
    || c == 0x1680
    || (leb 0x2000 c && leb c 0x200a)
    || c == 0x2028
    || c == 0x2029
    || c == 0x202f
    || c == 0x205f
    || c == 0x3000

unfoldable pub strip_left : (ℕ → Bool) → Text → Text
strip_left space [] = []
strip_left space (c ∷ cs) = let rest = strip_left space cs in if space c then rest else c ∷ cs

unfoldable pub strip_right : (ℕ → Bool) → Text → Text
strip_right space [] = []
strip_right space (c ∷ cs) =
    let rest = strip_right space cs in if is_nil rest && space c then [] else c ∷ rest

-- The characters of a set taken off both ends.
unfoldable pub strip_by : (ℕ → Bool) → Text → Text
unfolding strip_left strip_right
strip_by space t = strip_right space (strip_left space t)

-- t.strip()
unfoldable pub strip : Text → Text
unfolding strip_by is_space
strip t = strip_by is_space t

abbrev pub cons_head : ℕ → List Text → List Text
cons_head c [] = (c ∷ []) ∷ []
cons_head c (t ∷ ts) = (c ∷ t) ∷ ts

-- t.split(sep) for a separator of one character: never an empty list.
unfoldable pub split : ℕ → Text → List Text
split sep [] = [] ∷ []
split sep (c ∷ cs) = let rest = split sep cs in if c == sep then [] ∷ rest else cons_head c rest

-- t.replace(c, '')
unfoldable pub remove_char : ℕ → Text → Text
remove_char c [] = []
remove_char c (x ∷ xs) = let rest = remove_char c xs in if x == c then rest else x ∷ rest

-- sep.join(ts)
unfoldable pub join : Text → List Text → Text
join sep [] = []
join sep (t ∷ []) = t
join sep (t ∷ (u ∷ ts)) = t ++ (sep ++ join sep (u ∷ ts))

-- Whether the character stands in the text.
unfoldable pub contains : ℕ → Text → Bool
contains c [] = false
contains c (x ∷ xs) = x == c || contains c xs

-- t.startswith(p)
abbrev pub starts_with : Text → Text → Bool
starts_with [] t = true
starts_with (p ∷ ps) [] = false
starts_with (p ∷ ps) (c ∷ cs) = let more = starts_with ps cs in c == p && more

-- t.lstrip(c)
unfoldable pub lstrip : ℕ → Text → Text
unfolding strip_left
lstrip c t = strip_left (λ x. x == c) t

-- t.rsplit(sep, 1)[0]
unfoldable pub before_last : ℕ → Text → Text
unfolding contains
before_last sep [] = []
before_last sep (c ∷ t) =
    let rest = c ∷ before_last sep t in
    if contains sep t then rest else if c == sep then [] else c ∷ t

-- t.split(sep)[0] for a separator of two characters
unfoldable pub before_pair : ℕ → ℕ → Text → Text
before_pair a b [] = []
before_pair a b (c ∷ []) = c ∷ []
before_pair a b (c ∷ (d ∷ t)) =
    let rest = c ∷ before_pair a b (d ∷ t) in if c == a && d == b then [] else rest
