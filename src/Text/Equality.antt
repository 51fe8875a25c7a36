-- ===== src/Text/Equality.antt =====
-- The equality test of texts decides equality.
use cf_masque_opnsense.Prelude.{
  length, ap, Bool-cases, inl, inr, ◌≡◌, refl, ap₂, ◌≢◌, ◌↔◌, true, false, [], ◌∷◌, ◌++◌, arith,
}
use cf_masque_opnsense.Text.{Text, text_eq}

pub text_eq→eq : (a b : Text) → text_eq a b ≡ true → a ≡ b
unfolding text_eq
text_eq→eq [] [] h = refl
text_eq→eq [] (y ∷ ys) h = cc
text_eq→eq (x ∷ xs) [] h = cc
text_eq→eq (x ∷ xs) (y ∷ ys) h = ap₂ (λ c t. c ∷ t) (ground arith) (text_eq→eq xs ys (ground arith))

pub text_eq_refl : (a : Text) → text_eq a a ≡ true
unfolding text_eq
text_eq_refl [] = refl
text_eq_refl (x ∷ xs) = ground (arith, text_eq_refl xs)

pub text_eq_iff : (a b : Text) → (text_eq a b ≡ true) ↔ (a ≡ b)
text_eq_iff a b = (text_eq→eq a b, λ e. rw e (text_eq_refl b))

pub text_eq_sym : (a b : Text) → text_eq a b ≡ text_eq b a
text_eq_sym a b = ground (arith, text_eq_iff a b, text_eq_iff b a)

-- A common prefix does not matter.
pub text_eq-append : (p a b : Text) → text_eq (p ++ a) (p ++ b) ≡ text_eq a b
unfolding text_eq
text_eq-append [] a b = refl
text_eq-append (x ∷ p) a b = ground (arith, text_eq-append p a b)

-- Texts of different lengths differ.
pub text_eq_of_length : (a b : Text) → length a ≢ length b → text_eq a b ≡ false
text_eq_of_length a b h = elim (Bool-cases (text_eq a b)) [
  | inl e ↦ absurd (h (ap length (text_eq→eq a b e)))
  | inr e ↦ e
]
