-- ===== src/Keys/Removal.antt =====
-- The temporary files that hold private keys are gone at the end.
use cf_masque_opnsense.Prelude.{◌≡◌, refl, false, none, [], ◌∷◌, arith, Bool-cases, inl, inr}
use cf_masque_opnsense.Text.{Text, codes}
use cf_masque_opnsense.Bytes.{Bytes}
use cf_masque_opnsense.Dict.{has, lookup}
use cf_masque_opnsense.Outcome.{Result}
use cf_masque_opnsense.Files.{Files, read}
use cf_masque_opnsense.Files.Laws.{read-unlink_self}
use cf_masque_opnsense.Process.{World}
use cf_masque_opnsense.Keys.{
  Tools, finally_unlink, with_private_file, generate_masque_keypair, cert_for,
}

lookup-absent : (p : Text) (fs : Files) → has p fs ≡ false → lookup p fs ≡ none
unfolding lookup has
lookup-absent p [] h = refl
lookup-absent p ((q, f) ∷ fs) h = ground (arith, lookup-absent p fs)

read-absent : (p : Text) (fs : Files) → has p fs ≡ false → read p fs ≡ none
unfolding read
read-absent p fs h = rw (lookup-absent p fs h, read) refl

module _ (tools : Tools) where
  open tools use {Sys, named_temp}

  read-finally_unlink {ℓ} :
      {A : Type ℓ} (p : Text) (x : Result A × World Sys)
      → read p (finally_unlink tools p x).1.files ≡ none
  unfolding finally_unlink
  read-finally_unlink p (r, w) = elim (Bool-cases (has p w.files)) [
    | inl h ↦ rw h (read-unlink_self p w.files)
    | inr h ↦ rw h (read-absent p w.files h)
  ]

  read-with_private_file {ℓ} :
      {A : Type ℓ} (p : Text) (body : World Sys → Result A × World Sys) (w : World Sys)
      → read p (with_private_file tools p body w).1.files ≡ none
  unfolding with_private_file
  read-with_private_file p body w = elim (Bool-cases (has p w.files)) [
    | inl h ↦ rw h (read-finally_unlink p _)
    | inr h ↦ rw h (read-absent p w.files h)
  ]

  -- However the generation of a MASQUE key ends, and however the certificate for a key ends, the
  -- temporary file that held the private key is gone.
  pub key_files_removed :
      (w : World Sys) (pem : Bytes)
      → (read (named_temp [] w).0 (generate_masque_keypair tools w).1.files ≡ none)
        × (read (named_temp (codes ".pem") w).0 (cert_for tools pem w).1.files ≡ none)
  unfolding generate_masque_keypair cert_for
  key_files_removed w pem = (read-with_private_file _ _ _, read-with_private_file _ _ _)
