-- ===== src/Warp/Recorded.antt =====
-- What cmd_register stores and writes after the calls of the API.
use cf_masque_opnsense.Prelude.{◌≡◌, refl, sym, ◌∙◌, false, Option, none, some, [], ◌++◌, is_nil}
use cf_masque_opnsense.Text.{Text, codes, text_eq}
use cf_masque_opnsense.Outcome.{Failure, Result, ok, raise}
use cf_masque_opnsense.Files.{Files, Content, read}
use cf_masque_opnsense.Secrets.{Crypto, get_secret}
use cf_masque_opnsense.Secrets.Laws.{CryptoLaws}
use cf_masque_opnsense.Json.{Json, str, get, text_of}
use cf_masque_opnsense.Process.{World, config_file}
use cf_masque_opnsense.Keys.{Tools}
use cf_masque_opnsense.Api.{Net}
use cf_masque_opnsense.Program.{Program, return, try_with, lift, with_files, ◌>>=◌}
use cf_masque_opnsense.Program.Keeps.{Keeps, Keeps-bind, Keeps-if, Keeps-lift, continue-eq-ok}
use cf_masque_opnsense.Update.{update_config_xml}
use cf_masque_opnsense.Update.Written.{Written, update_config_xml-Written}
use cf_masque_opnsense.Warp.{
  Answer, Registration, registered, update_failed, Acquired, acquired, put_secret, put_json,
  put_masque, put_pubkey, update_then, register_updates, unless_failed,
}
use cf_masque_opnsense.Warp.Register.{put_masque_key, write_fields, record_device}
use cf_masque_opnsense.Warp.Kept.{get_secret-SameSecrets}
use cf_masque_opnsense.Warp.Generation.{ToolsKeep}
use cf_masque_opnsense.Warp.Storing.{
  IsRandom, Holds, put_secret-Holds, put_secret-Keeps, put_cert-Keeps, put_pubkey-Keeps,
}
use cf_masque_opnsense.Warp.Enrolled.{Written-SameSecrets}

module _ (c : Crypto) (laws : CryptoLaws c) (tools : Tools) (keep : ToolsKeep tools)
    (net : Net tools.Sys) (random : IsRandom net) (uuid : Text) where
  open tools use {Sys}
  open net use {is_printable, now}

  abbrev token_name : Text
  token_name = codes "device_token_" ++ uuid

  abbrev wg_name : Text
  wg_name = codes "wg_privkey_" ++ uuid

  -- The token and the WireGuard key are stored, and the document was replaced by its update with
  -- the addresses of the device's interface and the time of the clock at the end.
  pub record IsRecorded (a : Acquired) (document : Option Content) (end : World Sys) : Type 0 where
    pub token : Text
    pub is_text : text_of a.device_token ≡ ok token
    pub token_stored : get_secret c token_name end.files ≡ some token
    pub wg_stored : get_secret c wg_name end.files ≡ some a.wg_priv
    pub v4 : Json
    pub v4_read : get a.assigned.iface (codes "v4") (str []) ≡ ok v4
    pub v6 : Json
    pub v6_read : get a.assigned.iface (codes "v6") (str []) ≡ ok v6
    pub earlier : Files
    pub document_before : read config_file earlier ≡ document
    pub written :
        Written uuid (register_updates is_printable uuid a v4 v6 (now end.sys)) earlier end.files

  masque_apart : text_eq (codes "masque_privkey_" ++ uuid) token_name ≡ false
  unfolding text_eq
  masque_apart = refl

  cert_apart : text_eq (codes "masque_cert_" ++ uuid) token_name ≡ false
  unfolding text_eq
  cert_apart = refl

  pubkey_apart : text_eq (codes "endpoint_pubkey_" ++ uuid) token_name ≡ false
  unfolding text_eq
  pubkey_apart = refl

  wg_apart : text_eq wg_name token_name ≡ false
  unfolding text_eq
  wg_apart = refl

  module _ (a : Acquired) (document : Option Content) (token : Text)
      (is_text : text_of a.device_token ≡ ok token) where
    abbrev Token : Files → Type 0
    Token = Holds c token_name token document

    put_masque_key-Keeps : Keeps Token (put_masque_key c tools net uuid a.masque_priv)
    unfolding put_masque
    put_masque_key-Keeps = Keeps-if (is_nil a.masque_priv) _ _ (Keeps-lift (ok none)) (
        Keeps-bind _ _
          (put_secret-Keeps c laws tools keep net random token_name token document _ a.masque_priv
            masque_apart)
          (λ u.
            put_cert-Keeps c laws tools keep net random token_name token document uuid a.masque_priv
              cert_apart))

    updated-IsRecorded :
        (r : Registration) (v4 v6 : Json) (w : World Sys) (result : Result Files)
        → get a.assigned.iface (codes "v4") (str []) ≡ ok v4
        → get a.assigned.iface (codes "v6") (str []) ≡ ok v6
        → result
          ≡ update_config_xml uuid (register_updates is_printable uuid a v4 v6 (now w.sys)) w.files
        → Token w.files
        → get_secret c wg_name w.files ≡ some a.wg_priv
        → (x : Registration)
        → (try_with
            (λ _. return (registered r))
            (λ e. return (update_failed e))
            (with_files result w)).0
          ≡ ok (registered x)
        → IsRecorded a document
            (try_with
              (λ _. return (registered r))
              (λ e. return (update_failed e))
              (with_files result w)).1
    updated-IsRecorded r v4 v6 w (raise e) p4 p6 q h g x k = cc
    updated-IsRecorded r v4 v6 w (ok fs) p4 p6 q h g x k =
        let u = update_config_xml-Written uuid _ w.files fs (sym q) in
        let same = Written-SameSecrets uuid _ w.files fs u in
        record {
          token = token;
          is_text = is_text;
          token_stored = get_secret-SameSecrets c token_name w.files fs same ∙ h.secret;
          wg_stored = get_secret-SameSecrets c wg_name w.files fs same ∙ g;
          v4 = v4;
          v4_read = p4;
          v6 = v6;
          v6_read = p6;
          earlier = w.files;
          document_before = h.config;
          written = u;
        }

    write_fields-IsRecorded :
        (w : World Sys) (x : Registration)
        → Token w.files
        → get_secret c wg_name w.files ≡ some a.wg_priv
        → (write_fields c tools net uuid a w).0 ≡ ok (registered x)
        → IsRecorded a document (write_fields c tools net uuid a w).1
    unfolding write_fields update_then
    write_fields-IsRecorded w x h g k =
        let (v4, p4, e4) =
          continue-eq-ok _ (lift (get a.assigned.iface (codes "v4") (str [])) w) k in
        let k4 = rw e4 at k in
        let (v6, p6, e6) =
          continue-eq-ok _ (lift (get a.assigned.iface (codes "v6") (str [])) w) k4 in
        rw (e4, e6) (updated-IsRecorded _ v4 v6 w _ p4 p6 refl h g x (rw e6 at k4))

    -- After the certificate.
    abbrev rest : Program Sys Answer
    rest = put_pubkey c tools net uuid a.assigned.peer_pubkey >>= λ _.
        put_secret c tools net wg_name a.wg_priv >>= λ _. write_fields c tools net uuid a

    rest-IsRecorded :
        (w : World Sys) (x : Registration)
        → Token w.files
        → (rest w).0 ≡ ok (registered x)
        → IsRecorded a document (rest w).1
    rest-IsRecorded w x h k =
        let (u, p, e) = continue-eq-ok _ (put_pubkey c tools net uuid a.assigned.peer_pubkey w) k in
        let v : World Sys = (put_pubkey c tools net uuid a.assigned.peer_pubkey w).1 in
        let k1 = rw e at k in
        let (u1, p1, e1) = continue-eq-ok _ (put_secret c tools net wg_name a.wg_priv v) k1 in
        let hv : Token v.files =
          (put_pubkey-Keeps c laws tools keep net random token_name token document uuid
              a.assigned.peer_pubkey pubkey_apart).at
            w h in
        let wg = put_secret-Holds c laws tools keep net random wg_name a.wg_priv v p1 in
        let hw =
          (put_secret-Keeps c laws tools keep net random token_name token document wg_name a.wg_priv
              wg_apart).at
            v hv in
        rw (e, e1) (write_fields-IsRecorded _ x hw wg.secret (rw e1 at k1))

    unless_failed-IsRecorded :
        (cert : Option Failure) (w : World Sys) (x : Registration)
        → Token w.files
        → (unless_failed c tools net cert rest w).0 ≡ ok (registered x)
        → IsRecorded a document (unless_failed c tools net cert rest w).1
    unless_failed-IsRecorded none w x h k = rest-IsRecorded w x h k
    unless_failed-IsRecorded (some e) w x h k = cc

    cert-IsRecorded :
        (w : World Sys) (x : Registration)
        → Token w.files
        → ((put_masque_key c tools net uuid a.masque_priv >>= λ cert.
              unless_failed c tools net cert rest)
            w).0
          ≡ ok (registered x)
        → IsRecorded a document
            ((put_masque_key c tools net uuid a.masque_priv >>= λ cert.
                unless_failed c tools net cert rest)
              w).1
    cert-IsRecorded w x h k =
        let (cert, p, e) = continue-eq-ok _ (put_masque_key c tools net uuid a.masque_priv w) k in
        rw e (unless_failed-IsRecorded cert _ x (put_masque_key-Keeps.at w h) (rw e at k))

  token_put :
      (v : Json) (w : World Sys)
      → (put_json c tools net token_name v w).0 ≡ ok tt
      → (token : Text) × (text_of v ≡ ok token)
        × Holds c token_name token
            (read config_file w.files)
            (put_json c tools net token_name v w).1.files
  unfolding put_json
  token_put v w k =
      let (token, p, e) = continue-eq-ok _ (lift (text_of v) w) k in
      (
        token,
        p,
        rw e (put_secret-Holds c laws tools keep net random token_name token w (rw e at k)),
      )

  -- The token is stored under its name, and the WireGuard key, and the document is updated.
  pub record_device-IsRecorded :
      (a : Acquired) (w : World Sys) (x : Registration)
      → (record_device c tools net uuid (acquired a) w).0 ≡ ok (registered x)
      → IsRecorded a (read config_file w.files) (record_device c tools net uuid (acquired a) w).1
  unfolding record_device
  record_device-IsRecorded a w x k =
      let (u, p, e) = continue-eq-ok _ (put_json c tools net token_name a.device_token w) k in
      let (token, q, h) = token_put a.device_token w p in
      rw e (cert-IsRecorded a (read config_file w.files) token q _ x h (rw e at k))
