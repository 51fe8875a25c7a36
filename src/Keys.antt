-- ===== src/Keys.antt =====
-- cfzt_keys.py: the keys of WireGuard and MASQUE and the client's certificate. `openssl` and the
-- making of temporary files are parameters; a temporary file holds bytes.
pub mod Removal
pub mod Wireguard
use cf_masque_opnsense.Prelude.{
  ℕ, ◌-◌, Bool, true, false, Option, none, some, List, [], ◌∷◌, drop, length, if◌then◌else◌,
}
use cf_masque_opnsense.Text.{Text, codes}
use cf_masque_opnsense.Bytes.{Bytes, utf8_decode}
use cf_masque_opnsense.Base64.{b64encode, b64decode}
use cf_masque_opnsense.Dict.{has}
use cf_masque_opnsense.Outcome.{Result, ok, raise, process_error, os_error, value_error}
use cf_masque_opnsense.Files.{Content, plain, object, xml, read, write, chmod, unlink}
use cf_masque_opnsense.Process.{World}

pub record Tools : Type 1 where
  pub Sys : Type 0
  -- subprocess.run(['openssl', …], input=…, check=True).stdout; `none` is the CalledProcessError
  pub openssl : List Text → Bytes → World Sys → Option Bytes × World Sys
  -- NamedTemporaryFile(delete=False, suffix=…): makes a file and gives its name
  pub named_temp : Text → World Sys → Text × World Sys

-- b[-32:]
unfoldable pub last_32 : Bytes → Bytes
last_32 b = drop (length b - 32) b

abbrev pub genpkey_x25519 : List Text
genpkey_x25519 =
    codes "genpkey" ∷ codes "-algorithm" ∷ codes "X25519" ∷ codes "-outform" ∷ codes "DER" ∷ []

abbrev pub pubout : Text → List Text → List Text
pubout form input =
    codes "pkey" ∷ codes "-inform" ∷ codes "DER" ∷ codes "-pubout" ∷ codes "-outform" ∷ form ∷ input

abbrev pub genpkey_p256 : Text → List Text
genpkey_p256 keyfile =
    codes "genpkey"
    ∷ codes "-algorithm"
    ∷ codes "EC"
    ∷ codes "-pkeyopt"
    ∷ codes "ec_paramgen_curve:P-256"
    ∷ codes "-outform"
    ∷ codes "DER"
    ∷ codes "-out"
    ∷ keyfile
    ∷ []

abbrev pub to_pem : List Text
to_pem = codes "pkey" ∷ codes "-inform" ∷ codes "DER" ∷ codes "-outform" ∷ codes "PEM" ∷ []

abbrev pub req_x509 : Text → List Text
req_x509 keyfile =
    codes "req"
    ∷ codes "-x509"
    ∷ codes "-key"
    ∷ keyfile
    ∷ codes "-subj"
    ∷ codes "/CN=cfzt-client"
    ∷ codes "-days"
    ∷ codes "3650"
    ∷ codes "-outform"
    ∷ codes "DER"
    ∷ []

-- The keys of a MASQUE pair: private and public DER in base64, and the public PEM.
pub record MasqueKeys : Type 0 where
  pub private_der : Text
  pub public_der : Text
  pub public_pem : Text

-- open(path, 'rb').read()
abbrev pub bytes_in : Option Content → Option Bytes
bytes_in (some (plain b)) = some b
bytes_in _ = none

abbrev pub masque_keys : Bytes → Bytes → Option Text → Result MasqueKeys
masque_keys priv_der pub_der none = raise value_error
masque_keys priv_der pub_der (some pem) =
    ok (record {
      private_der = b64encode priv_der;
      public_der = b64encode pub_der;
      public_pem = pem;
    })

module _ (tools : Tools) where
  open tools use {Sys, openssl, named_temp}

  abbrev pub with_spki : Bytes → Option Bytes × World Sys → Result (Text × Text) × World Sys
  with_spki pkcs8 (none, w) = (raise process_error, w)
  with_spki pkcs8 (some spki, w) = (ok (b64encode (last_32 pkcs8), b64encode (last_32 spki)), w)

  abbrev pub with_pkcs8 : Option Bytes × World Sys → Result (Text × Text) × World Sys
  with_pkcs8 (none, w) = (raise process_error, w)
  with_pkcs8 (some pkcs8, w) = with_spki pkcs8 (openssl (pubout (codes "DER") []) pkcs8 w)

  unfoldable pub generate_wireguard_keypair : World Sys → Result (Text × Text) × World Sys
  generate_wireguard_keypair w = with_pkcs8 (openssl genpkey_x25519 [] w)

  -- The `finally` clause: os.unlink(keyfile), whose own failure replaces the outcome.
  unfoldable pub finally_unlink {ℓ} :
      {A : Type ℓ} → Text → Result A × World Sys → Result A × World Sys
  finally_unlink keyfile (r, w) =
      if has keyfile w.files
      then (r, record w { files = unlink keyfile w.files })
      else (raise os_error, w)

  -- os.chmod(keyfile, 0o600) and the `try` after it.
  unfoldable pub with_private_file {ℓ} :
      {A : Type ℓ} → Text → (World Sys → Result A × World Sys) → World Sys → Result A × World Sys
  with_private_file keyfile body w =
      if has keyfile w.files
      then finally_unlink keyfile (body (record w { files = chmod keyfile 0o600 w.files }))
      else (raise os_error, w)

  abbrev pub with_pem : Bytes → Bytes → Option Bytes × World Sys → Result MasqueKeys × World Sys
  with_pem priv_der pub_der (none, w) = (raise process_error, w)
  with_pem priv_der pub_der (some pem, w) = (masque_keys priv_der pub_der (utf8_decode pem), w)

  abbrev pub with_public : Text → Bytes → Option Bytes × World Sys → Result MasqueKeys × World Sys
  with_public keyfile priv_der (none, w) = (raise process_error, w)
  with_public keyfile priv_der (some pub_der, w) =
      with_pem priv_der pub_der (openssl (pubout (codes "PEM") (codes "-in" ∷ keyfile ∷ [])) [] w)

  abbrev pub with_private : Text → Option Bytes → World Sys → Result MasqueKeys × World Sys
  with_private keyfile none w = (raise os_error, w)
  with_private keyfile (some priv_der) w =
      with_public keyfile priv_der
        (openssl (pubout (codes "DER") (codes "-in" ∷ keyfile ∷ [])) [] w)

  abbrev pub after_genpkey : Text → Option Bytes × World Sys → Result MasqueKeys × World Sys
  after_genpkey keyfile (none, w) = (raise process_error, w)
  after_genpkey keyfile (some out, w) = with_private keyfile (bytes_in (read keyfile w.files)) w

  unfoldable pub generate_masque_keypair : World Sys → Result MasqueKeys × World Sys
  generate_masque_keypair w =
      let (keyfile, w') = named_temp [] w in
      with_private_file keyfile (λ v. after_genpkey keyfile (openssl (genpkey_p256 keyfile) [] v))
        w'

  -- load_masque_private_key
  unfoldable pub load_masque_private_key : Text → Text
  load_masque_private_key priv_der_b64 = priv_der_b64

  abbrev pub stdout_of : Option Bytes × World Sys → Result Bytes × World Sys
  stdout_of (none, w) = (raise process_error, w)
  stdout_of (some out, w) = (ok out, w)

  -- The certificate for a key in PEM.
  unfoldable pub cert_for : Bytes → World Sys → Result Bytes × World Sys
  cert_for pem w =
      let (keyfile, w') = named_temp (codes ".pem") w in
      with_private_file keyfile (λ v. stdout_of (openssl (req_x509 keyfile) [] v))
        (record w' { files = write keyfile (plain pem) w'.files })

  abbrev pub with_key_pem : Option Bytes × World Sys → Result Bytes × World Sys
  with_key_pem (none, w) = (raise process_error, w)
  with_key_pem (some pem, w) = cert_for pem w

  abbrev pub with_der : Option Bytes → World Sys → Result Bytes × World Sys
  with_der none w = (raise value_error, w)
  with_der (some der) w = with_key_pem (openssl to_pem der w)

  unfoldable pub generate_self_signed_cert : Text → World Sys → Result Bytes × World Sys
  generate_self_signed_cert priv_key_b64 w = with_der (b64decode priv_key_b64) w
