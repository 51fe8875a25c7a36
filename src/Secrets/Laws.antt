-- ===== src/Secrets/Laws.antt =====
-- What the store of secrets promises: sealing and unsealing, the store as a map, its privacy.
use cf_masque_opnsense.Prelude.{
  ℕ, ◌≡◌, refl, false, none, some, ◌++◌, arith, All, length, take, drop, take-length_append,
  drop-length_append, if◌then◌else◌,
}
use cf_masque_opnsense.Text.{Text, codes, text_eq}
use cf_masque_opnsense.Text.Equality.{text_eq_refl}
use cf_masque_opnsense.Bytes.{Bytes, IsByte}
use cf_masque_opnsense.Dict.{Dict, lookup}
use cf_masque_opnsense.Files.{Files, Value, object, read, mode_at}
use cf_masque_opnsense.Files.Laws.{lookup-write_private, lookup-chmod}
use cf_masque_opnsense.Secrets.{
  Crypto, secrets_file, secrets_tmp, identity_files, host_identity, load_raw, save_raw,
}

-- What the scripts rely on: a tag has 32 bytes, and openssl decrypts what it encrypted.
pub record CryptoLaws (c : Crypto) : Type 0 where
  pub hmac_length : (key message : Bytes) → length (c.hmac key message) ≡ 32
  pub hmac_bytes : (key message : Bytes) → All IsByte (c.hmac key message)
  pub encrypt_bytes :
      (key iv plaintext ct : Bytes) → c.encrypt key iv plaintext ≡ some ct → All IsByte ct
  pub decrypt-encrypt :
      (key iv plaintext ct : Bytes)
      → c.encrypt key iv plaintext ≡ some ct
      → c.decrypt key iv ct ≡ some plaintext

pub take_exact : (n : ℕ) (a b : Bytes) → length a ≡ n → take n (a ++ b) ≡ a
take_exact n a b h = rw (← h) (take-length_append a b)

pub drop_exact : (n : ℕ) (a b : Bytes) → length a ≡ n → drop n (a ++ b) ≡ b
drop_exact n a b h = rw (← h) (drop-length_append a b)

lookup-save_raw :
    (q : Text) (d : Dict Value) (fs : Files)
    → lookup q (save_raw d fs) ≡ (
        if text_eq secrets_file q
        then some (record { content = object d; mode = 0o600 })
        else if text_eq secrets_tmp q
        then none
        else lookup q fs)
unfolding save_raw
lookup-save_raw q d fs = rw (lookup-chmod, lookup-write_private) (ground arith)

-- Whatever was in the file system, the saved store is readable by its owner only.
pub mode_at-save_raw :
    (d : Dict Value) (fs : Files) → mode_at secrets_file (save_raw d fs) ≡ some 0o600
unfolding mode_at
mode_at-save_raw d fs = ground (arith, lookup-save_raw secrets_file d fs, text_eq_refl secrets_file)

pub load_raw-save_raw : (d : Dict Value) (fs : Files) → load_raw (save_raw d fs) ≡ d
unfolding load_raw read
load_raw-save_raw d fs =
    ground (arith, lookup-save_raw secrets_file d fs, text_eq_refl secrets_file)

pub read-save_raw :
    (q : Text) (d : Dict Value) (fs : Files)
    → text_eq secrets_file q ≡ false
    → text_eq secrets_tmp q ≡ false
    → read q (save_raw d fs) ≡ read q fs
unfolding read
read-save_raw q d fs h k = ground (arith, lookup-save_raw q d fs)

pub host_identity-save_raw :
    (d : Dict Value) (fs : Files)
    → host_identity identity_files (save_raw d fs) ≡ host_identity identity_files fs
unfolding host_identity text_eq
host_identity-save_raw d fs = rw (
  read-save_raw (codes "/etc/hostid") d fs refl refl,
  read-save_raw (codes "/etc/machine-id") d fs refl refl,
  read-save_raw (codes "/etc/rc.conf.d/opnsense_host_key") d fs refl refl,
)
