-- ===== src/Text/Split.antt =====
-- `split` undoes `join` on texts without the separator.
use cf_masque_opnsense.Prelude.{
  ℕ, ◌≡◌, refl, ap, ◌∙◌, false, ◌||◌, List, [], ◌∷◌, ◌++◌, arith, All, ◌==◌, Bool-cases, inl, inr,
}
use mathlib.Core.List.{append_assoc}
use cf_masque_opnsense.Text.{Text, split, join, contains, remove_char}

-- The text has no such character.
abbrev pub Without : ℕ → Text → Type 0
Without c t = contains c t ≡ false

pub contains-append : (c : ℕ) (a b : Text) → contains c (a ++ b) ≡ (contains c a || contains c b)
unfolding contains
contains-append c [] b = refl
contains-append c (x ∷ a) b = rw (contains-append c a b) (ground arith)

pub Without-append : (c : ℕ) (a b : Text) → Without c a → Without c b → Without c (a ++ b)
Without-append c a b h k = rw (contains-append, h, k)

pub remove_char-Without : (c : ℕ) (t : Text) → Without c (remove_char c t)
unfolding contains remove_char
remove_char-Without c [] = refl
remove_char-Without c (x ∷ t) = elim (Bool-cases (x == c)) [
  | inl e ↦ rw e (remove_char-Without c t)
  | inr e ↦ rw (e, e) (remove_char-Without c t)
]

pub remove_char-Without_other : (c d : ℕ) (t : Text) → Without c t → Without c (remove_char d t)
unfolding contains remove_char
remove_char-Without_other c d [] h = refl
remove_char-Without_other c d (x ∷ t) h = elim (Bool-cases (x == d)) [
  | inl e ↦ rw e (remove_char-Without_other c d t (ground arith))
  | inr e ↦ rw e (ground (arith, remove_char-Without_other c d t))
]

-- A text without the separator, and then the separator, is the first part.
pub split-append :
    (sep : ℕ) (a b : Text) → Without sep a → split sep (a ++ (sep ∷ b)) ≡ a ∷ split sep b
unfolding split contains
split-append sep [] b h = ground arith
split-append sep (x ∷ a) b h = rw (split-append sep a b (ground arith)) (ground arith)

pub split-lines :
    (sep : ℕ) (t : Text) (ts : List Text)
    → All (Without sep) (t ∷ ts)
    → split sep (join (sep ∷ []) (t ∷ ts) ++ (sep ∷ [])) ≡ (t ∷ ts) ++ ([] ∷ [])
unfolding join
split-lines sep t [] h = split-append sep t [] h.0 ∙ unfold split in refl
split-lines sep t (u ∷ ts) h =
    rw append_assoc (split-append sep t _ h.0 ∙ ap (λ l. t ∷ l) (split-lines sep u ts h.1))
