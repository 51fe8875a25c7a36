-- ===== src/Warp/Storing.antt =====
-- The steps that store secrets: what they store, and that they keep what is stored elsewhere.
use cf_masque_opnsense.Prelude.{◌≡◌, refl, sym, ◌∙◌, false, Option, none, some, ◌++◌, All, length}
use cf_masque_opnsense.Text.{Text, codes, text_eq}
use cf_masque_opnsense.Text.Equality.{text_eq_refl}
use cf_masque_opnsense.Bytes.{Bytes, IsByte}
use cf_masque_opnsense.Base64.{b64encode}
use cf_masque_opnsense.Outcome.{Result, ok, raise}
use cf_masque_opnsense.Files.{Files, Content, read}
use cf_masque_opnsense.Secrets.{Crypto, set_secret, get_secret}
use cf_masque_opnsense.Secrets.Laws.{CryptoLaws, read-save_raw}
use cf_masque_opnsense.Secrets.Store.{get_secret-set_secret, set_secret-cases}
use cf_masque_opnsense.Json.{Json, is_true, text_of}
use cf_masque_opnsense.Process.{World, config_file}
use cf_masque_opnsense.Keys.{Tools, generate_self_signed_cert}
use cf_masque_opnsense.Api.{Net}
use cf_masque_opnsense.Program.{with_files, lift}
use cf_masque_opnsense.Program.Keeps.{
  Keeps, Keeps-bind, Keeps-lift, Keeps-try, Keeps-if, with_files-keeps,
}
use cf_masque_opnsense.Warp.{put_secret, put_json, put_cert, put_pubkey}
use cf_masque_opnsense.Warp.Kept.{Agree, get_secret-SameSecrets}
use cf_masque_opnsense.Warp.Generation.{ToolsKeep, generate_self_signed_cert-Agree}

-- What the random bytes are.
pub record IsRandom {S : Type 0} (net : Net S) : Type 0 where
  pub sixteen : (s : S) → length (net.random_bytes 16 s).0 ≡ 16
  pub bytes : (s : S) → All IsByte (net.random_bytes 16 s).0

set_secret-config :
    (c : Crypto) (iv : Bytes) (key value : Text) (fs fs' : Files)
    → set_secret c iv key value fs ≡ ok fs'
    → read config_file fs' ≡ read config_file fs
unfolding text_eq
set_secret-config c iv key value fs fs' h =
    let (keys, p, blob, k, u, s, e) = set_secret-cases c iv key value fs fs' h in
    rw (← e) (read-save_raw config_file _ fs refl refl)

-- The key has the value, and config.xml is the given document.
pub record Holds (c : Crypto) (key value : Text) (document : Option Content) (fs : Files)
    : Type 0 where
  pub secret : get_secret c key fs ≡ some value
  pub config : read config_file fs ≡ document

module _ (c : Crypto) (laws : CryptoLaws c) (tools : Tools) (keep : ToolsKeep tools)
    (net : Net tools.Sys) (random : IsRandom net) where
  open tools use {Sys}
  open net use {random_bytes}

  module _ (key value : Text) (document : Option Content) where
    abbrev P : Files → Type 0
    P = Holds c key value document

    Agree-Holds : (fs fs' : Files) → Agree fs fs' → P fs → P fs'
    Agree-Holds fs fs' a h = record {
      secret = get_secret-SameSecrets c key fs fs' a.1 ∙ h.secret;
      config = a.0 ∙ h.config;
    }

    -- A secret under another key.
    pub put_secret-Keeps :
        (j v : Text) → text_eq j key ≡ false → Keeps P (put_secret c tools net j v)
    unfolding put_secret
    put_secret-Keeps j v n = record {
      at = λ w h.
          let iv : Bytes = (random_bytes 16 w.sys).0 in
          with_files-keeps {P = P} (set_secret c iv j v w.files) _
            (λ fs e. record {
              secret =
                  get_secret-set_secret c laws iv j key v w.files fs (random.sixteen w.sys)
                    (random.bytes w.sys) e
                  ∙ rw n h.secret;
              config = set_secret-config c iv j v w.files fs e ∙ h.config;
            })
            h;
    }

    pub put_json-Keeps :
        (j : Text) (v : Json) → text_eq j key ≡ false → Keeps P (put_json c tools net j v)
    unfolding put_json
    put_json-Keeps j v n =
        Keeps-bind (lift (text_of v)) _ (Keeps-lift (text_of v)) (λ t. put_secret-Keeps j t n)

    generate-Keeps : (k : Text) → Keeps P (generate_self_signed_cert tools k)
    generate-Keeps k = record {
      at = λ w h. Agree-Holds w.files _ (generate_self_signed_cert-Agree tools keep k w) h;
    }

    pub put_cert-Keeps :
        (uuid priv : Text)
        → text_eq (codes "masque_cert_" ++ uuid) key ≡ false
        → Keeps P (put_cert c tools net uuid priv)
    unfolding put_cert
    put_cert-Keeps uuid priv n =
        Keeps-try _ _ _
          (Keeps-bind _ _ (generate-Keeps _) (λ cert. put_secret-Keeps _ (b64encode cert) n))
          (λ a. Keeps-lift (ok none)) (λ e. Keeps-lift (ok (some e)))

    pub put_pubkey-Keeps :
        (uuid : Text) (v : Json)
        → text_eq (codes "endpoint_pubkey_" ++ uuid) key ≡ false
        → Keeps P (put_pubkey c tools net uuid v)
    unfolding put_pubkey
    put_pubkey-Keeps uuid v n = Keeps-if (is_true v) _ _ (put_json-Keeps _ v n) (Keeps-lift (ok tt))

  stored :
      (iv : Bytes) (key value : Text) (w : World Sys) (r : Result Files)
      → length iv ≡ 16
      → All IsByte iv
      → r ≡ set_secret c iv key value w.files
      → (with_files r w).0 ≡ ok tt
      → Holds c key value (read config_file w.files) (with_files r w).1.files
  stored iv key value w (raise e) n b q h = cc
  stored iv key value w (ok fs) n b q h = record {
    secret =
        get_secret-set_secret c laws iv key key value w.files fs n b (sym q)
        ∙ rw (text_eq_refl key) refl;
    config = set_secret-config c iv key value w.files fs (sym q);
  }

  -- A secret that was put is there, and config.xml is as it was.
  pub put_secret-Holds :
      (key value : Text) (w : World Sys)
      → (put_secret c tools net key value w).0 ≡ ok tt
      → Holds c key value (read config_file w.files) (put_secret c tools net key value w).1.files
  unfolding put_secret
  put_secret-Holds key value w h =
      stored (random_bytes 16 w.sys).0 key value _ _ (random.sixteen w.sys) (random.bytes w.sys)
        refl h
