-- ===== src/Warp/Kept.antt =====
-- The files that key generation leaves alone: the secrets, what their keys derive from, config.xml.
use cf_masque_opnsense.Prelude.{◌≡◌, refl, ap, Option, none, some, List, ◌∷◌, All, arith}
use cf_masque_opnsense.Text.{Text}
use cf_masque_opnsense.Dict.{lookup}
use cf_masque_opnsense.Files.{Files, Value, str, read}
use cf_masque_opnsense.Secrets.{
  Crypto, secrets_file, identity_files, get_secret, load_raw, or_none, open_entry, decrypt_blob,
  derive_keys, host_identity,
}
use cf_masque_opnsense.Secrets.Store.{found, get_secret-found}
use cf_masque_opnsense.Process.{config_of, config_file}

abbrev pub kept_paths : List Text
kept_paths = config_file ∷ secrets_file ∷ identity_files

-- The two states of the files agree there.
abbrev pub Agree : Files → Files → Type 0
Agree fs fs' = All (λ p. read p fs' ≡ read p fs) kept_paths

-- They agree on the secrets and on what the secrets' keys derive from.
abbrev pub SameSecrets : Files → Files → Type 0
SameSecrets fs fs' = All (λ p. read p fs' ≡ read p fs) (secrets_file ∷ identity_files)

pub Agree-refl : (fs : Files) → Agree fs fs
Agree-refl fs = (refl, (refl, (refl, (refl, (refl, tt)))))

pub Agree-trans : (a b c : Files) → Agree a b → Agree b c → Agree a c
Agree-trans a b c h k = ground arith

pub config_of-Agree : (fs fs' : Files) → Agree fs fs' → config_of fs' ≡ config_of fs
unfolding config_of
config_of-Agree fs fs' h = rw (h.0) refl

load_raw-SameSecrets : (fs fs' : Files) → SameSecrets fs fs' → load_raw fs' ≡ load_raw fs
unfolding load_raw
load_raw-SameSecrets fs fs' h = rw (h.0) refl

host_identity-SameSecrets :
    (fs fs' : Files)
    → SameSecrets fs fs'
    → host_identity identity_files fs' ≡ host_identity identity_files fs
unfolding host_identity
host_identity-SameSecrets fs fs' h = rw (h.1.0, h.1.1.0, h.1.1.1.0) refl

open_entry-SameSecrets :
    (c : Crypto) (v : Value) (fs fs' : Files)
    → SameSecrets fs fs'
    → open_entry c v fs' ≡ open_entry c v fs
unfolding open_entry decrypt_blob derive_keys
open_entry-SameSecrets c (str t) fs fs' h = rw (host_identity-SameSecrets fs fs' h) refl
open_entry-SameSecrets c _ fs fs' h = refl

found-SameSecrets :
    (c : Crypto) (o : Option Value) (fs fs' : Files)
    → SameSecrets fs fs'
    → found c o fs' ≡ found c o fs
found-SameSecrets c none fs fs' h = refl
found-SameSecrets c (some v) fs fs' h = ap or_none (open_entry-SameSecrets c v fs fs' h)

pub get_secret-SameSecrets :
    (c : Crypto) (key : Text) (fs fs' : Files)
    → SameSecrets fs fs'
    → get_secret c key fs' ≡ get_secret c key fs
get_secret-SameSecrets c key fs fs' h =
    rw (get_secret-found c key fs', get_secret-found c key fs, load_raw-SameSecrets fs fs' h)
      (found-SameSecrets c (lookup key (load_raw fs)) fs fs' h)
