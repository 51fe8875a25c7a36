-- ===== src/Warp/Enrolled.antt =====
-- What a successful enrolment leaves behind.
use cf_masque_opnsense.Prelude.{◌≡◌, refl, sym, ◌∙◌, false, Option, none, some, ◌++◌}
use cf_masque_opnsense.Text.{Text, codes, text_eq}
use cf_masque_opnsense.Dict.{Dict}
use cf_masque_opnsense.Outcome.{Failure, Result, ok, raise}
use cf_masque_opnsense.Files.{Files, Content, read}
use cf_masque_opnsense.Secrets.{Crypto, get_secret}
use cf_masque_opnsense.Secrets.Laws.{CryptoLaws}
use cf_masque_opnsense.Json.{Json}
use cf_masque_opnsense.Process.{World, config_file}
use cf_masque_opnsense.Keys.{Tools, MasqueKeys}
use cf_masque_opnsense.Api.{Net}
use cf_masque_opnsense.Update.{update_config_xml}
use cf_masque_opnsense.Update.Written.{Written, update_config_xml-Written, Written-other}
use cf_masque_opnsense.Program.{with_files, return, continue, try_with, ◌>>=◌}
use cf_masque_opnsense.Warp.{
  Answer, enrolled, update_failed, pubkey_of, enrol_updates, put_secret, put_cert, put_masque,
  put_pubkey, update_then, enrol_rest, enrol_with, unless_failed, the_time,
}
use cf_masque_opnsense.Warp.Kept.{SameSecrets, get_secret-SameSecrets}
use cf_masque_opnsense.Warp.Generation.{ToolsKeep}
use cf_masque_opnsense.Warp.Storing.{
  IsRandom, Holds, put_cert-Keeps, put_pubkey-Keeps, put_secret-Holds,
}

pub Written-SameSecrets :
    (uuid : Text) (updates : Dict Text) (fs fs' : Files)
    → Written uuid updates fs fs'
    → SameSecrets fs fs'
unfolding text_eq
Written-SameSecrets uuid updates fs fs' w = (
  Written-other w _ refl refl,
  (Written-other w _ refl refl, (Written-other w _ refl refl, (Written-other w _ refl refl, tt))),
)

module _ (c : Crypto) (laws : CryptoLaws c) (tools : Tools) (keep : ToolsKeep tools)
    (net : Net tools.Sys) (random : IsRandom net) (uuid : Text) where
  open tools use {Sys}
  open net use {now}

  abbrev pub privkey_name : Text
  privkey_name = codes "masque_privkey_" ++ uuid

  -- The private key is stored, and the document was replaced by its update.
  pub record IsEnrolled (priv : Text) (document : Option Content) (end : World Sys) : Type 0 where
    pub secret : get_secret c privkey_name end.files ≡ some priv
    pub earlier : Files
    pub document_before : read config_file earlier ≡ document
    pub written : Written uuid (enrol_updates uuid (now end.sys)) earlier end.files

  pubkey_apart : text_eq (codes "endpoint_pubkey_" ++ uuid) privkey_name ≡ false
  unfolding text_eq
  pubkey_apart = refl

  cert_apart : text_eq (codes "masque_cert_" ++ uuid) privkey_name ≡ false
  unfolding text_eq
  cert_apart = refl

  module _ (priv : Text) (document : Option Content) where
    written-IsEnrolled :
        (w : World Sys) (r : Result Files)
        → r ≡ update_config_xml uuid (enrol_updates uuid (now w.sys)) w.files
        → Holds c privkey_name priv document w.files
        → (try_with (λ _. return enrolled) (λ e. return (update_failed e)) (with_files r w)).0
          ≡ ok enrolled
        → IsEnrolled priv document
            (try_with (λ _. return enrolled) (λ e. return (update_failed e)) (with_files r w)).1
    written-IsEnrolled w (raise e) q h k = cc
    written-IsEnrolled w (ok fs) q h k =
        let u = update_config_xml-Written uuid _ w.files fs (sym q) in
        record {
          secret =
              get_secret-SameSecrets c privkey_name w.files fs
                (Written-SameSecrets uuid _ w.files fs u)
              ∙ h.secret;
          earlier = w.files;
          document_before = h.config;
          written = u;
        }

    after_pubkey :
        (x : Result (Unit {0}) × World Sys)
        → Holds c privkey_name priv document x.1.files
        → (continue
            (λ u. the_time c tools net >>= λ time.
              update_then c tools net uuid (enrol_updates uuid time) enrolled)
            x).0
          ≡ ok enrolled
        → IsEnrolled priv document
            (continue
              (λ u. the_time c tools net >>= λ time.
                update_then c tools net uuid (enrol_updates uuid time) enrolled)
              x).1
    unfolding update_then
    after_pubkey (raise e, w) h k = cc
    after_pubkey (ok u, w) h k = written-IsEnrolled w _ refl h k

    rest-IsEnrolled :
        (updated : Json) (w : World Sys)
        → Holds c privkey_name priv document w.files
        → (enrol_rest c tools net uuid updated w).0 ≡ ok enrolled
        → IsEnrolled priv document (enrol_rest c tools net uuid updated w).1
    unfolding enrol_rest
    rest-IsEnrolled updated w h k = from_pubkey (pubkey_of updated) k
      where
        from_pubkey :
            (r : Result Json)
            → (continue
                (λ pubkey. put_pubkey c tools net uuid pubkey >>= λ u.
                  the_time c tools net >>= λ time.
                  update_then c tools net uuid (enrol_updates uuid time) enrolled)
                (r, w)).0
              ≡ ok enrolled
            → IsEnrolled priv document
                (continue
                  (λ pubkey. put_pubkey c tools net uuid pubkey >>= λ u.
                    the_time c tools net >>= λ time.
                    update_then c tools net uuid (enrol_updates uuid time) enrolled)
                  (r, w)).1
        from_pubkey (raise e) q = cc
        from_pubkey (ok pubkey) q =
            after_pubkey (put_pubkey c tools net uuid pubkey w)
              ((put_pubkey-Keeps c laws tools keep net random privkey_name priv document uuid pubkey
                  pubkey_apart).at
                w h)
              q

  -- After the certificate.
  cert-IsEnrolled :
      (priv : Text) (document : Option Content) (updated : Json)
      (x : Result (Option Failure) × World Sys)
      → Holds c privkey_name priv document x.1.files
      → (continue
          (λ cert. unless_failed c tools net cert (enrol_rest c tools net uuid updated))
          x).0
        ≡ ok enrolled
      → IsEnrolled priv document
          (continue
            (λ cert. unless_failed c tools net cert (enrol_rest c tools net uuid updated))
            x).1
  cert-IsEnrolled priv document updated (raise e, w) h k = cc
  cert-IsEnrolled priv document updated (ok (some e), w) h k = cc
  cert-IsEnrolled priv document updated (ok none, w) h k =
      rest-IsEnrolled priv document updated w h k

  abbrev all_from : Text → Json → Result (Unit {0}) × World Sys → Result Answer × World Sys
  all_from priv updated x =
      continue (λ cert. unless_failed c tools net cert (enrol_rest c tools net uuid updated))
        (continue (λ u. put_cert c tools net uuid priv) x)

  secret-IsEnrolled :
      (priv : Text) (document : Option Content) (updated : Json) (x : Result (Unit {0}) × World Sys)
      → (x.0 ≡ ok tt → Holds c privkey_name priv document x.1.files)
      → (all_from priv updated x).0 ≡ ok enrolled
      → IsEnrolled priv document (all_from priv updated x).1
  secret-IsEnrolled priv document updated (raise e, w) h k = cc
  secret-IsEnrolled priv document updated (ok u, w) h k =
      cert-IsEnrolled priv document updated (put_cert c tools net uuid priv w)
        ((put_cert-Keeps c laws tools keep net random privkey_name priv document uuid priv
            cert_apart).at
          w (h refl))
        k

  -- An enrolment that gets through after the calls of the API leaves the private key in the store,
  -- and the document of config.xml updated.
  pub enrol_with-IsEnrolled :
      (keys : MasqueKeys) (updated : Json) (w : World Sys)
      → (enrol_with c tools net uuid (keys, updated) w).0 ≡ ok enrolled
      → IsEnrolled keys.private_der
          (read config_file w.files)
          (enrol_with c tools net uuid (keys, updated) w).1
  unfolding enrol_with put_masque
  enrol_with-IsEnrolled keys updated w k =
      secret-IsEnrolled keys.private_der (read config_file w.files) updated
        (put_secret c tools net privkey_name keys.private_der w)
        (put_secret-Holds c laws tools keep net random privkey_name keys.private_der w) k
