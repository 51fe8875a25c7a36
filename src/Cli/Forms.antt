-- ===== src/Cli/Forms.antt =====
-- Which command lines a script knows, as a table of its commands with the least number of their
-- arguments, and what it means that a dispatch follows the table.
use cf_masque_opnsense.Prelude.{
  ℕ, zero, suc, ◌≡◌, refl, ◌⊎◌, inl, inr, Bool, true, false, ◌&&◌, ◌||◌, List, [], ◌∷◌,
  if◌then◌else◌,
}
use cf_masque_opnsense.Text.{Text, text_eq}
use cf_masque_opnsense.Outcome.{Failure, Result, ok, raise}
use cf_masque_opnsense.Process.{World}
use cf_masque_opnsense.Program.{Program, return, continue, ◌>>=◌}
use cf_masque_opnsense.Cli.{Exit, exit, with_arg, with_args}

-- At least so many arguments.
abbrev pub enough : ℕ → List Text → Bool
enough zero args = true
enough (suc n) [] = false
enough (suc n) (a ∷ more) = enough n more

unfoldable pub known : List (Text × ℕ) → Text → List Text → Bool
known [] cmd args = false
known ((name, least) ∷ more) cmd args =
    (text_eq cmd name && enough least args) || known more cmd args

-- sys.argv[1:] against the table
unfoldable pub accepts : List (Text × ℕ) → List Text → Bool
unfolding known
accepts forms [] = false
accepts forms (cmd ∷ args) = known forms cmd args

module _ {S : Type 0} {A : Type 0} where
  -- A run that raises, or ends with code 0.
  unfoldable pub Serves : Program S (Exit A) → Type 0
  Serves p =
      (w : World S)
      → ((f : Failure) × ((p w).0 ≡ raise f)) ⊎ ((e : Exit A) × ((p w).0 ≡ ok e) × (e.code ≡ 0))

  -- A run that changes nothing and ends with code 1.
  abbrev pub Refuses : Program S (Exit A) → Type 0
  Refuses p = (w : World S) → (e : Exit A) × (p w ≡ (ok e, w)) × (e.code ≡ 1)

  unfoldable pub Dispatched : Bool → Program S (Exit A) → Type 0
  Dispatched true p = Serves p
  Dispatched false p = Refuses p

  -- One test of a chain, whether it holds or not.
  chosen :
      (b r : Bool) (p q : Program S (Exit A))
      → Serves p
      → Dispatched r q
      → Dispatched ((b && true) || r) (if b then p else q)
  unfolding Dispatched
  chosen true r p q s d = s
  chosen false r p q s d = d

  chosen_arg :
      (b r : Bool) (args : List Text) (f : Text → Program S (Exit A)) (q : Program S (Exit A))
      → ((a : Text) → Serves (f a))
      → Dispatched r q
      → Dispatched ((b && enough 1 args) || r) (with_arg b args f q)
  unfolding Dispatched with_arg
  chosen_arg true r [] f q s d = d
  chosen_arg true r (a ∷ more) f q s d = s a
  chosen_arg false r args f q s d = d

  chosen_args :
      (b r : Bool) (args : List Text) (f : Text → Text → Program S (Exit A))
      (q : Program S (Exit A))
      → ((a1 a2 : Text) → Serves (f a1 a2))
      → Dispatched r q
      → Dispatched ((b && enough 2 args) || r) (with_args b args f q)
  unfolding Dispatched with_args
  chosen_args true r [] f q s d = d
  chosen_args true r (a ∷ []) f q s d = d
  chosen_args true r (a ∷ (b ∷ more)) f q s d = s a b
  chosen_args false r args f q s d = d

  module _ (cmd name : Text) (more : List (Text × ℕ)) (args : List Text) where
    pub if-Dispatched :
        (p q : Program S (Exit A))
        → Serves p
        → Dispatched (known more cmd args) q
        → Dispatched (known ((name, 0) ∷ more) cmd args) (if text_eq cmd name then p else q)
    unfolding known
    if-Dispatched p q s d = chosen (text_eq cmd name) (known more cmd args) p q s d

    pub with_arg-Dispatched :
        (f : Text → Program S (Exit A)) (q : Program S (Exit A))
        → ((a : Text) → Serves (f a))
        → Dispatched (known more cmd args) q
        → Dispatched (known ((name, 1) ∷ more) cmd args) (with_arg (text_eq cmd name) args f q)
    unfolding known
    with_arg-Dispatched f q s d = chosen_arg (text_eq cmd name) (known more cmd args) args f q s d

    pub with_args-Dispatched :
        (f : Text → Text → Program S (Exit A)) (q : Program S (Exit A))
        → ((a1 a2 : Text) → Serves (f a1 a2))
        → Dispatched (known more cmd args) q
        → Dispatched (known ((name, 2) ∷ more) cmd args) (with_args (text_eq cmd name) args f q)
    unfolding known
    with_args-Dispatched f q s d = chosen_args (text_eq cmd name) (known more cmd args) args f q s d

-- The end of a chain.
module _ (S : Type 0) {A : Type 0} where
  pub return-Dispatched : (t : A) → Dispatched {S = S} false (return (exit 1 t))
  unfolding Dispatched
  return-Dispatched t w = (exit 1 t, refl, refl)

  pub last-Dispatched :
      (cmd : Text) (args : List Text) (t : A)
      → Dispatched {S = S} (known [] cmd args) (return (exit 1 t))
  unfolding known
  last-Dispatched cmd args t = return-Dispatched t

module _ {S : Type 0} {A : Type 0} {B : Type 0} where
  -- A step whose value is printed.
  pub printing-Serves :
      (show : A → B) (m : Program S A) → Serves (m >>= λ a. return (exit 0 (show a)))
  unfolding Serves
  printing-Serves show m w = printed (m w)
    where
      printed :
          (x : Result A × World S)
          → ((f : Failure) × ((continue (λ a. return (exit 0 (show a))) x).0 ≡ raise f))
            ⊎ ((e : Exit B) × ((continue (λ a. return (exit 0 (show a))) x).0 ≡ ok e)
                × (e.code ≡ 0))
      printed (ok a, v) = inr (exit 0 (show a), refl, refl)
      printed (raise f, v) = inl (f, refl)
