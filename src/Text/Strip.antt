-- ===== src/Text/Strip.antt =====
-- Laws of `strip`.
use cf_masque_opnsense.Prelude.{
  ℕ, ◌≡◌, refl, Bool, false, ◌&&◌, [], ◌∷◌, is_nil, Bool-cases, inl, inr,
}
use cf_masque_opnsense.Text.{Text, strip, strip_by, strip_left, strip_right}

module _ (space : ℕ → Bool) where
  -- A text whose first character, if any, is not stripped.
  abbrev IsTrimmedLeft : Text → Type 0
  IsTrimmedLeft [] = Unit
  IsTrimmedLeft (c ∷ cs) = space c ≡ false

  strip_left-IsTrimmedLeft : (t : Text) → IsTrimmedLeft (strip_left space t)
  unfolding strip_left
  strip_left-IsTrimmedLeft [] = tt
  strip_left-IsTrimmedLeft (c ∷ cs) = elim (Bool-cases (space c)) [
    | inl e ↦ rw e (strip_left-IsTrimmedLeft cs)
    | inr e ↦ rw e e
  ]

  strip_left_fixed : (t : Text) → IsTrimmedLeft t → strip_left space t ≡ t
  unfolding strip_left
  strip_left_fixed [] h = refl
  strip_left_fixed (c ∷ cs) h = rw h

  strip_right_idempotent :
      (t : Text) → strip_right space (strip_right space t) ≡ strip_right space t
  unfolding strip_right
  strip_right_idempotent [] = refl
  strip_right_idempotent (c ∷ cs) = elim (Bool-cases (is_nil (strip_right space cs) && space c)) [
    | inl e ↦ rw e
    | inr e ↦ rw (e, strip_right_idempotent cs) (rw e)
  ]

  strip_right-IsTrimmedLeft : (t : Text) → IsTrimmedLeft t → IsTrimmedLeft (strip_right space t)
  unfolding strip_right
  strip_right-IsTrimmedLeft [] h = tt
  strip_right-IsTrimmedLeft (c ∷ cs) h = elim (Bool-cases (is_nil (strip_right space cs))) [
    | inl e ↦ rw (e, h) h
    | inr e ↦ rw e h
  ]

  -- Stripping twice is stripping once.
  pub strip_by_idempotent : (t : Text) → strip_by space (strip_by space t) ≡ strip_by space t
  unfolding strip_by
  strip_by_idempotent t =
      rw
        (strip_left_fixed (strip_right space (strip_left space t))
          (strip_right-IsTrimmedLeft (strip_left space t) (strip_left-IsTrimmedLeft t)))
        (strip_right_idempotent (strip_left space t))

pub strip_idempotent : (t : Text) → strip (strip t) ≡ strip t
unfolding strip
strip_idempotent t = strip_by_idempotent _ t
