-- ===== src/Secrets.antt =====
-- cfzt_secrets.py: the encrypted store of secrets in secrets.json.
-- HMAC-SHA256 and `openssl enc` are parameters, and so are the bytes of `os.urandom(16)`.
pub mod Laws
pub mod Sealing
pub mod Store
pub mod Abstract
use cf_masque_opnsense.Prelude.{
  ℕ, Bool, true, false, ◌≡◌, Option, none, some, List, [], ◌∷◌, ◌++◌, if◌then◌else◌, is_nil, take,
  drop, length, All,
}
use cf_masque_opnsense.Text.{Text, codes, text_eq}
use cf_masque_opnsense.Bytes.{Bytes, IsByte, hex, from_hex, utf8_encode, utf8_decode, strip_bytes}
use cf_masque_opnsense.Dict.{Dict, lookup, insert, remove, has}
use cf_masque_opnsense.Outcome.{
  Result, ok, raise, runtime_error, value_error, process_error, require, ◌>>=◌,
}
use cf_masque_opnsense.Files.{Files, Content, plain, object, Value, str, read, write_private, chmod}

-- `hmac key message`; `encrypt key iv` and `decrypt key iv` run openssl, `none` is its failure.
pub record Crypto : Type 0 where
  pub hmac : Bytes → Bytes → Bytes
  pub encrypt : Bytes → Bytes → Bytes → Option Bytes
  pub decrypt : Bytes → Bytes → Bytes → Option Bytes

abbrev pub secrets_file : Text
secrets_file = codes "/usr/local/etc/cloudflarezt/secrets.json"

abbrev pub secrets_tmp : Text
secrets_tmp = codes "/usr/local/etc/cloudflarezt/secrets.json.tmp"

abbrev pub identity_files : List Text
identity_files =
    codes "/etc/hostid" ∷ codes "/etc/machine-id" ∷ codes "/etc/rc.conf.d/opnsense_host_key" ∷ []

-- f.read().strip() of an identity file, empty where it cannot be read.
unfoldable pub identity_in : Option Content → Bytes
unfolding strip_bytes
identity_in (some (plain b)) = strip_bytes b
identity_in _ = []

-- The loop over the candidates.
unfoldable pub host_identity : List Text → Files → Bytes
unfolding identity_in
host_identity [] fs = []
host_identity (candidate ∷ more) fs =
    let rest = host_identity more fs in
    let ikm = identity_in (read candidate fs) in if is_nil ikm then rest else ikm

-- The dict of a content: empty for a missing file and for one that is not JSON, for which every
-- other content stands. JSON that is no object, and bytes that are no UTF-8, have no counterpart.
abbrev pub raw_of : Option Content → Dict Value
raw_of (some (object d)) = d
raw_of _ = []

-- _load_raw
unfoldable pub load_raw : Files → Dict Value
load_raw fs = raw_of (read secrets_file fs)

-- _save_raw
unfoldable pub save_raw : Dict Value → Files → Files
save_raw d fs = chmod secrets_file 0o600 (write_private secrets_tmp secrets_file (object d) fs)

unfoldable pub del_secret : Text → Files → Files
del_secret key fs = save_raw (remove key (load_raw fs)) fs

unfoldable pub has_secret : Text → Files → Bool
has_secret key fs = has key (load_raw fs)

-- Every exception of the body becomes None.
abbrev pub or_none : Result Text → Option Text
or_none (ok t) = some t
or_none (raise e) = none

module _ (crypto : Crypto) where
  open crypto use {hmac, encrypt, decrypt}

  -- The two keys of an identity.
  unfoldable pub keys_of : Bytes → Bytes × Bytes
  keys_of ikm =
      let prk = hmac (codes "cloudflare-zt-plugin-v1") ikm in
      (hmac prk (codes "secrets-enc-key" ++ 1 ∷ []), hmac prk (codes "secrets-auth-key" ++ 1 ∷ []))

  -- _derive_keys
  unfoldable pub derive_keys : Files → Result (Bytes × Bytes)
  derive_keys fs =
      let ikm = host_identity identity_files fs in
      if is_nil ikm
      then raise (runtime_error (codes "Cannot find host identity material for key derivation"))
      else ok (keys_of ikm)

  -- _encrypt; `iv` is what os.urandom(16) gave.
  unfoldable pub seal : Bytes → Bytes → Bytes → Bytes → Result Bytes
  seal enc_key auth_key iv plaintext = do
    ct ← require process_error (encrypt enc_key iv plaintext)
    ok (iv ++ (hmac auth_key (iv ++ ct) ++ ct))

  unfoldable pub encrypt_blob : Bytes → Bytes → Files → Result Bytes
  encrypt_blob iv plaintext fs = do keys ← derive_keys fs; seal keys.0 keys.1 iv plaintext

  -- _decrypt
  unfoldable pub unseal : Bytes → Bytes → Bytes → Result Bytes
  unseal enc_key auth_key blob =
      let iv = take 16 blob in
      let mac = take 32 (drop 16 blob) in
      let ct = drop 48 blob in
      let expected = hmac auth_key (iv ++ ct) in
      if text_eq mac expected
      then require process_error (decrypt enc_key iv ct)
      else raise value_error

  unfoldable pub decrypt_blob : Bytes → Files → Result Bytes
  decrypt_blob blob fs = do keys ← derive_keys fs; unseal keys.0 keys.1 blob

  unfoldable pub set_secret : Bytes → Text → Text → Files → Result Files
  set_secret iv key value fs = do
    plaintext ← require value_error (utf8_encode value)
    blob ← encrypt_blob iv plaintext fs
    ok (save_raw (insert key (str (hex blob)) (load_raw fs)) fs)

  -- The body of the `try`: an entry that is no text raises a TypeError.
  unfoldable pub open_entry : Value → Files → Result Text
  open_entry (str t) fs = do
    blob ← require value_error (from_hex t)
    plaintext ← decrypt_blob blob fs
    require value_error (utf8_decode plaintext)
  open_entry _ fs = raise value_error

  unfoldable pub get_secret : Text → Files → Option Text
  get_secret key fs = elim (lookup key (load_raw fs)) [
    | none ↦ none
    | some v ↦ or_none (open_entry v fs)
  ]
