-- ===== src/Program.antt =====
-- Code that changes the world and may raise: what it did before it raised stays done.
pub mod Keeps
use cf_masque_opnsense.Prelude.{Option, none, some}
use cf_masque_opnsense.Outcome.{Failure, Result, ok, raise}
use cf_masque_opnsense.Files.{Files}
use cf_masque_opnsense.Process.{World}

abbrev pub Program : Type 0 → Type 0 → Type 0
Program S A = World S → Result A × World S

module _ {S A : Type 0} where
  abbrev pub return : A → Program S A
  return a w = (ok a, w)

  abbrev pub fail : Failure → Program S A
  fail e w = (raise e, w)

  abbrev pub lift : Result A → Program S A
  lift r w = (r, w)

  -- A call that reads and changes the system only.
  abbrev pub on_system : (S → A × S) → Program S A
  on_system f w = let (a, s) = f w.sys in (ok a, record w { sys = s })

  -- A call that reads the files.
  abbrev pub from_files : (Files → A) → Program S A
  from_files f w = (ok (f w.files), w)

abbrev pub with_files : {S : Type 0} → Result Files → Program S (Unit {0})
with_files (ok fs) w = (ok tt, record w { files = fs })
with_files (raise e) w = (raise e, w)

-- A call that changes the files, or raises and leaves them.
abbrev pub on_files : {S : Type 0} → (Files → Result Files) → Program S (Unit {0})
on_files f w = with_files (f w.files) w

module _ {S A B : Type 0} where
  abbrev pub continue : (A → Program S B) → Result A × World S → Result B × World S
  continue f (ok a, w) = f a w
  continue f (raise e, w) = (raise e, w)

  infixl 5 ◌>>=◌ ◌>>◌
  abbrev pub ◌>>=◌ : Program S A → (A → Program S B) → Program S B
  ◌>>=◌ m f w = continue f (m w)

  abbrev pub ◌>>◌ : Program S A → Program S B → Program S B
  m >> n = m >>= λ _. n

  -- try: m, with a handler for what it raised and the code after it for its value
  abbrev pub try_with :
      (A → Program S B) → (Failure → Program S B) → Result A × World S → Result B × World S
  try_with f handler (ok a, w) = f a w
  try_with f handler (raise e, w) = handler e w
