-- ===== src/Program/Keeps.antt =====
-- What a program keeps true of the files, whether it returns or raises.
use cf_masque_opnsense.Prelude.{◌≡◌, refl, Bool, true, false, if◌then◌else◌}
use cf_masque_opnsense.Outcome.{Failure, Result, ok, raise}
use cf_masque_opnsense.Files.{Files}
use cf_masque_opnsense.Process.{World}
use cf_masque_opnsense.Program.{
  Program, lift, on_system, on_files, with_files, from_files, continue, try_with, ◌>>=◌,
}

pub record Keeps {S A : Type 0} (P : Files → Type 0) (m : Program S A) : Type 0 where
  pub at : (w : World S) → P w.files → P (m w).1.files

module _ {S A : Type 0} {P : Files → Type 0} where
  pub Keeps-lift : (r : Result A) → Keeps {S = S} P (lift r)
  Keeps-lift r = record { at = λ w h. h }

  pub Keeps-on_system : (f : S → A × S) → Keeps P (on_system f)
  Keeps-on_system f = record { at = λ w h. h }

  pub Keeps-from_files : (f : Files → A) → Keeps {S = S} P (from_files f)
  Keeps-from_files f = record { at = λ w h. h }

  pub Keeps-if :
      (b : Bool) (m n : Program S A) → Keeps P m → Keeps P n → Keeps P (if b then m else n)
  Keeps-if true m n km kn = km
  Keeps-if false m n km kn = kn

module _ {S : Type 0} {P : Files → Type 0} where
  pub with_files-keeps :
      (r : Result Files) (w : World S)
      → ((fs : Files) → r ≡ ok fs → P fs)
      → P w.files
      → P (with_files r w).1.files
  with_files-keeps (ok fs) w k h = k fs refl
  with_files-keeps (raise e) w k h = h

  pub Keeps-on_files :
      (f : Files → Result Files)
      → ((fs fs' : Files) → f fs ≡ ok fs' → P fs → P fs')
      → Keeps {S = S} P (on_files f)
  Keeps-on_files f k = record {
    at = λ w h. with_files-keeps (f w.files) w (λ fs e. k w.files fs e h) h;
  }

module _ {S A B : Type 0} {P : Files → Type 0} where
  continue-Keeps :
      (f : A → Program S B) (x : Result A × World S)
      → ((a : A) → Keeps P (f a))
      → P x.1.files
      → P (continue f x).1.files
  continue-Keeps f (ok a, w) kf h = (kf a).at w h
  continue-Keeps f (raise e, w) kf h = h

  pub Keeps-bind :
      (m : Program S A) (f : A → Program S B)
      → Keeps P m
      → ((a : A) → Keeps P (f a))
      → Keeps P (m >>= f)
  Keeps-bind m f km kf = record { at = λ w h. continue-Keeps f (m w) kf (km.at w h) }

  try-Keeps :
      (f : A → Program S B) (handler : Failure → Program S B) (x : Result A × World S)
      → ((a : A) → Keeps P (f a))
      → ((e : Failure) → Keeps P (handler e))
      → P x.1.files
      → P (try_with f handler x).1.files
  try-Keeps f handler (ok a, w) kf kh h = (kf a).at w h
  try-Keeps f handler (raise e, w) kf kh h = (kh e).at w h

  pub Keeps-try :
      (m : Program S A) (f : A → Program S B) (handler : Failure → Program S B)
      → Keeps P m
      → ((a : A) → Keeps P (f a))
      → ((e : Failure) → Keeps P (handler e))
      → Keeps P (λ w. try_with f handler (m w))
  Keeps-try m f handler km kf kh = record {
    at = λ w h. try-Keeps f handler (m w) kf kh (km.at w h);
  }

module _ {S A B : Type 0} where
  -- A program that returns went through its first part.
  pub continue-eq-ok :
      (f : A → Program S B) (x : Result A × World S) {b : B}
      → (continue f x).0 ≡ ok b
      → (a : A) × (x.0 ≡ ok a) × (continue f x ≡ f a x.1)
  continue-eq-ok f (ok a, w) h = (a, refl, refl)
  continue-eq-ok f (raise e, w) h = cc
