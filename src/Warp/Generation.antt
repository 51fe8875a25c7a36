-- ===== src/Warp/Generation.antt =====
-- Key generation leaves alone the secrets, what their keys derive from, and config.xml.
use cf_masque_opnsense.Prelude.{
  ℕ, ◌≡◌, refl, false, ◌||◌, Option, none, some, List, [], ◌∷◌, All, arith, Bool-cases, inl, inr,
}
use cf_masque_opnsense.Text.{Text, codes, text_eq, one_of}
use cf_masque_opnsense.Text.Equality.{text_eq_sym}
use cf_masque_opnsense.Bytes.{Bytes}
use cf_masque_opnsense.Base64.{b64decode}
use cf_masque_opnsense.Dict.{has}
use cf_masque_opnsense.Outcome.{Result}
use cf_masque_opnsense.Files.{Files, Content, plain, read, write, chmod, unlink}
use cf_masque_opnsense.Files.Laws.{read-chmod, read-unlink, read-write}
use cf_masque_opnsense.Secrets.{secrets_file}
use cf_masque_opnsense.Process.{World, config_file}
use cf_masque_opnsense.Keys.{
  with_spki, with_pkcs8, genpkey_x25519, generate_wireguard_keypair, Tools, finally_unlink,
  with_private_file, generate_masque_keypair, generate_self_signed_cert, cert_for, genpkey_p256,
  pubout, req_x509, to_pem, after_genpkey, with_private, with_public, with_pem, with_der,
  with_key_pem, stdout_of, bytes_in,
}
use cf_masque_opnsense.Warp.Kept.{kept_paths, Agree, Agree-refl, Agree-trans}

-- openssl writes no file that its arguments do not name; temporary files are apart from the rest.
pub record ToolsKeep (tools : Tools) : Type 0 where
  pub openssl_keeps :
      (args : List Text) (input : Bytes) (w : World tools.Sys)
      → All (λ p. one_of p args ≡ false) kept_paths
      → Agree w.files (tools.openssl args input w).1.files
  pub temp_keeps :
      (suffix : Text) (w : World tools.Sys) → Agree w.files (tools.named_temp suffix w).1.files
  pub temp_apart :
      (suffix : Text) (w : World tools.Sys)
      → All (λ p. text_eq (tools.named_temp suffix w).0 p ≡ false) kept_paths

module _ (tools : Tools) (keep : ToolsKeep tools) where
  open tools use {Sys, openssl, named_temp}

  -- A temporary file's name is none of the kept paths.
  abbrev IsApart : Text → Type 0
  IsApart keyfile = All (λ p. text_eq keyfile p ≡ false) kept_paths

  chmod-Agree : (p : Text) (m : ℕ) (fs : Files) → Agree fs (chmod p m fs)
  chmod-Agree p m fs = (
    read-chmod p _ m fs,
    (read-chmod p _ m fs, (read-chmod p _ m fs, (read-chmod p _ m fs, (read-chmod p _ m fs, tt)))),
  )

  unlink-Agree : (p : Text) (fs : Files) → IsApart p → Agree fs (unlink p fs)
  unlink-Agree p fs h = ground (
    arith,
    read-unlink p config_file fs,
    read-unlink p secrets_file fs,
    read-unlink p (codes "/etc/hostid") fs,
    read-unlink p (codes "/etc/machine-id") fs,
    read-unlink p (codes "/etc/rc.conf.d/opnsense_host_key") fs,
  )

  write-Agree : (p : Text) (c : Content) (fs : Files) → IsApart p → Agree fs (write p c fs)
  write-Agree p c fs h = ground (
    arith,
    read-write p config_file c fs,
    read-write p secrets_file c fs,
    read-write p (codes "/etc/hostid") c fs,
    read-write p (codes "/etc/machine-id") c fs,
    read-write p (codes "/etc/rc.conf.d/opnsense_host_key") c fs,
  )

  finally_unlink-Agree {ℓ} :
      {A : Type ℓ} (p : Text) (x : Result A × World Sys)
      → IsApart p
      → Agree x.1.files (finally_unlink tools p x).1.files
  unfolding finally_unlink
  finally_unlink-Agree p (r, w) h = elim (Bool-cases (has p w.files)) [
    | inl e ↦ rw e (unlink-Agree p w.files h)
    | inr e ↦ rw e (Agree-refl w.files)
  ]

  with_private_file-Agree {ℓ} :
      {A : Type ℓ} (p : Text) (body : World Sys → Result A × World Sys) (w : World Sys)
      → IsApart p
      → ((v : World Sys) → Agree v.files (body v).1.files)
      → Agree w.files (with_private_file tools p body w).1.files
  unfolding with_private_file
  with_private_file-Agree p body w h b = elim (Bool-cases (has p w.files)) [
    | inl e ↦
        let v : World Sys = record w { files = chmod p 0o600 w.files } in
        rw e (
          Agree-trans w.files v.files _ (chmod-Agree p 0o600 w.files)
            (Agree-trans v.files (body v).1.files _ (b v) (finally_unlink-Agree p (body v) h)))
    | inr e ↦ rw e (Agree-refl w.files)
  ]

  apart_sym :
      (keyfile : Text)
      → IsApart keyfile
      → All (λ p. (text_eq p keyfile || false) ≡ false) kept_paths
  apart_sym keyfile h = ground (
    arith,
    text_eq_sym config_file keyfile,
    text_eq_sym secrets_file keyfile,
    text_eq_sym (codes "/etc/hostid") keyfile,
    text_eq_sym (codes "/etc/machine-id") keyfile,
    text_eq_sym (codes "/etc/rc.conf.d/opnsense_host_key") keyfile,
  )

  -- The commands that name a key file, and those that name none.
  genpkey-Agree :
      (keyfile : Text) (w : World Sys)
      → IsApart keyfile
      → Agree w.files (openssl (genpkey_p256 keyfile) [] w).1.files
  unfolding one_of text_eq
  genpkey-Agree keyfile w h = keep.openssl_keeps _ [] w (apart_sym keyfile h)

  pubout_in-Agree :
      (form keyfile : Text) (w : World Sys)
      → IsApart form
      → IsApart keyfile
      → Agree w.files (openssl (pubout form (codes "-in" ∷ keyfile ∷ [])) [] w).1.files
  unfolding one_of text_eq
  pubout_in-Agree form keyfile w f h =
      keep.openssl_keeps _ [] w
        (let a = apart_sym form f in let b = apart_sym keyfile h in ground arith)

  req-Agree :
      (keyfile : Text) (w : World Sys)
      → IsApart keyfile
      → Agree w.files (openssl (req_x509 keyfile) [] w).1.files
  unfolding one_of text_eq
  req-Agree keyfile w h = keep.openssl_keeps _ [] w (apart_sym keyfile h)

  to_pem-Agree : (der : Bytes) (w : World Sys) → Agree w.files (openssl to_pem der w).1.files
  unfolding one_of text_eq
  to_pem-Agree der w = keep.openssl_keeps _ der w (refl, (refl, (refl, (refl, (refl, tt)))))

  with_pem-Agree :
      (priv pub_key : Bytes) (x : Option Bytes × World Sys)
      → Agree x.1.files (with_pem tools priv pub_key x).1.files
  with_pem-Agree priv pub_key (none, w) = Agree-refl w.files
  with_pem-Agree priv pub_key (some pem, w) = Agree-refl w.files

  module _ (keyfile : Text) (apart : IsApart keyfile) where
    with_public-Agree :
        (priv : Bytes) (x : Option Bytes × World Sys)
        → Agree x.1.files (with_public tools keyfile priv x).1.files
    unfolding text_eq
    with_public-Agree priv (none, w) = Agree-refl w.files
    with_public-Agree priv (some pub_der, w) =
        Agree-trans w.files _ _
          (pubout_in-Agree (codes "PEM") keyfile w (refl, (refl, (refl, (refl, (refl, tt))))) apart)
          (with_pem-Agree priv pub_der _)

    with_private-Agree :
        (o : Option Bytes) (w : World Sys) → Agree w.files (with_private tools keyfile o w).1.files
    unfolding text_eq
    with_private-Agree none w = Agree-refl w.files
    with_private-Agree (some priv) w =
        Agree-trans w.files _ _
          (pubout_in-Agree (codes "DER") keyfile w (refl, (refl, (refl, (refl, (refl, tt))))) apart)
          (with_public-Agree priv _)

    after_genpkey-Agree :
        (x : Option Bytes × World Sys) → Agree x.1.files (after_genpkey tools keyfile x).1.files
    after_genpkey-Agree (none, w) = Agree-refl w.files
    after_genpkey-Agree (some out, w) = with_private-Agree (bytes_in (read keyfile w.files)) w

    stdout_of-Agree : (x : Option Bytes × World Sys) → Agree x.1.files (stdout_of tools x).1.files
    stdout_of-Agree (none, w) = Agree-refl w.files
    stdout_of-Agree (some out, w) = Agree-refl w.files

  pub generate_masque_keypair-Agree :
      (w : World Sys) → Agree w.files (generate_masque_keypair tools w).1.files
  unfolding generate_masque_keypair
  generate_masque_keypair-Agree w =
      let (k, w') = named_temp [] w in
      Agree-trans w.files (named_temp [] w).1.files _ (keep.temp_keeps [] w) (
        with_private_file-Agree (named_temp [] w).0 _ (named_temp [] w).1 (keep.temp_apart [] w)
          (λ v.
            Agree-trans v.files _ _ (genpkey-Agree (named_temp [] w).0 v (keep.temp_apart [] w))
              (after_genpkey-Agree (named_temp [] w).0 (keep.temp_apart [] w) _)))

  cert_for-Agree : (pem : Bytes) (w : World Sys) → Agree w.files (cert_for tools pem w).1.files
  unfolding cert_for
  cert_for-Agree pem w =
      let k : Text = (named_temp (codes ".pem") w).0 in
      let v : World Sys = (named_temp (codes ".pem") w).1 in
      let apart = keep.temp_apart (codes ".pem") w in
      Agree-trans w.files v.files _ (keep.temp_keeps (codes ".pem") w) (
        Agree-trans v.files _ _ (write-Agree k (plain pem) v.files apart) (
          with_private_file-Agree k _ (record v { files = write k (plain pem) v.files }) apart
            (λ u. Agree-trans u.files _ _ (req-Agree k u apart) (stdout_of-Agree k apart _))))

  with_key_pem-Agree :
      (x : Option Bytes × World Sys) → Agree x.1.files (with_key_pem tools x).1.files
  with_key_pem-Agree (none, w) = Agree-refl w.files
  with_key_pem-Agree (some pem, w) = cert_for-Agree pem w

  with_der-Agree : (o : Option Bytes) (w : World Sys) → Agree w.files (with_der tools o w).1.files
  with_der-Agree none w = Agree-refl w.files
  with_der-Agree (some der) w = Agree-trans w.files _ _ (to_pem-Agree der w) (with_key_pem-Agree _)

  pub generate_self_signed_cert-Agree :
      (key : Text) (w : World Sys) → Agree w.files (generate_self_signed_cert tools key w).1.files
  unfolding generate_self_signed_cert
  generate_self_signed_cert-Agree key w = with_der-Agree (b64decode key) w

  with_spki-Agree :
      (pkcs8 : Bytes) (x : Option Bytes × World Sys)
      → Agree x.1.files (with_spki tools pkcs8 x).1.files
  with_spki-Agree pkcs8 (none, w) = Agree-refl w.files
  with_spki-Agree pkcs8 (some spki, w) = Agree-refl w.files

  with_pkcs8-Agree : (x : Option Bytes × World Sys) → Agree x.1.files (with_pkcs8 tools x).1.files
  unfolding one_of text_eq
  with_pkcs8-Agree (none, w) = Agree-refl w.files
  with_pkcs8-Agree (some pkcs8, w) =
      Agree-trans w.files _ _
        (keep.openssl_keeps (pubout (codes "DER") []) pkcs8 w
          (refl, (refl, (refl, (refl, (refl, tt))))))
        (with_spki-Agree pkcs8 _)

  pub generate_wireguard_keypair-Agree :
      (w : World Sys) → Agree w.files (generate_wireguard_keypair tools w).1.files
  unfolding generate_wireguard_keypair one_of text_eq
  generate_wireguard_keypair-Agree w =
      Agree-trans w.files _ _
        (keep.openssl_keeps genpkey_x25519 [] w (refl, (refl, (refl, (refl, (refl, tt))))))
        (with_pkcs8-Agree _)
