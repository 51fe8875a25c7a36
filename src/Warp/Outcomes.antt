-- ===== src/Warp/Outcomes.antt =====
-- The refusals of cmd_enroll.
use cf_masque_opnsense.Prelude.{
  ◌≡◌, ◌≢◌, Bool, true, false, Option, none, some, [], ◌∷◌, arith, is_nil, Bool-cases, inl, inr,
}
use cf_masque_opnsense.Text.{Text}
use cf_masque_opnsense.Dict.{Dict, lookup}
use cf_masque_opnsense.Outcome.{Failure, Result, ok, raise}
use cf_masque_opnsense.Config.{Config, Connection}
use cf_masque_opnsense.Files.{Files}
use cf_masque_opnsense.Secrets.{Crypto}
use cf_masque_opnsense.Json.{Json}
use cf_masque_opnsense.Process.{World, config_of}
use cf_masque_opnsense.Keys.{Tools, MasqueKeys}
use cf_masque_opnsense.Api.{Net, enroll_masque_key, warp_request}
use cf_masque_opnsense.Program.{Program, return, continue, try_with, lift, with_files}
use cf_masque_opnsense.Program.Keeps.{Keeps, Keeps-bind, Keeps-lift}
use cf_masque_opnsense.Update.{update_config_xml}
use cf_masque_opnsense.Warp.{
  Registration, pubkey_of, put_pubkey, put_masque, the_time, enrol_updates, Answer, enrolled,
  cert_failed, update_failed, registered, answer_of, new_masque_key, enrol_with, enrol_rest,
  update_then, unless_failed, enrol_found, enrol_token, cmd_enroll,
}
use cf_masque_opnsense.Warp.Kept.{Agree, Agree-refl, Agree-trans}
use cf_masque_opnsense.Warp.Generation.{ToolsKeep, generate_masque_keypair-Agree}

-- The answers that are given before anything is stored.
abbrev pub is_refusal : Answer → Bool
is_refusal enrolled = false
is_refusal (registered r) = false
is_refusal (cert_failed e) = false
is_refusal (update_failed e) = false
is_refusal _ = true

pub answer_of-ne-registered : (e : Failure) (x : Registration) → answer_of e ≢ registered x
answer_of-ne-registered e x = ground arith

pub answer_of-ne-enrolled : (e : Failure) → answer_of e ≢ enrolled
answer_of-ne-enrolled e = ground arith

-- All the answers of a program are late ones.
record IsLate {S : Type 0} (m : Program S Answer) : Type 0 where
  at : (w : World S) (a : Answer) → (m w).0 ≡ ok a → is_refusal a ≡ false

IsLate-bind :
    {S A : Type 0} (m : Program S A) (f : A → Program S Answer)
    → ((a : A) → IsLate (f a))
    → IsLate (λ w. continue f (m w))
IsLate-bind {S} {A} m f h = record { at = λ w. from (m w) }
  where
    from : (x : Result A × World S) (a : Answer) → (continue f x).0 ≡ ok a → is_refusal a ≡ false
    from (ok v, w) a e = (h v).at w a e
    from (raise e, w) a k = cc

module _ (c : Crypto) (tools : Tools) (keep : ToolsKeep tools) (net : Net tools.Sys)
    (uuid : Text) where
  open tools use {Sys}

  pub enroll_masque_key-Keeps :
      (P : Files → Type 0) (device_id token key name : Text)
      → Keeps P (enroll_masque_key net device_id token key name)
  unfolding enroll_masque_key warp_request
  enroll_masque_key-Keeps P device_id token key name = record { at = λ w h. h }

  new_masque_key-Keeps :
      (fs : Files) (device_id token name : Text)
      → Keeps (Agree fs) (new_masque_key c tools net device_id token name)
  unfolding new_masque_key
  new_masque_key-Keeps fs device_id token name =
      Keeps-bind _ _
        (record {
          at = λ w h. Agree-trans fs w.files _ h (generate_masque_keypair-Agree tools keep w);
        })
        (λ keys.
          Keeps-bind _ _ (enroll_masque_key-Keeps (Agree fs) device_id token keys.public_der name)
            (λ updated. Keeps-lift (ok (keys, updated))))

  pub new_masque_key-Agree :
      (device_id token name : Text) (w : World Sys)
      → Agree w.files (new_masque_key c tools net device_id token name w).1.files
  new_masque_key-Agree device_id token name w =
      (new_masque_key-Keeps w.files device_id token name).at w (Agree-refl w.files)

  late_update :
      (w : World Sys) (r : Result Files) (a : Answer)
      → (try_with {B = Answer}
          (λ u. return enrolled)
          (λ e. return (update_failed e))
          (with_files r w)).0
        ≡ ok a
      → is_refusal a ≡ false
  late_update w (ok fs) a h = ground arith
  late_update w (raise e) a h = ground arith

  update_then-IsLate :
      (updates : Dict Text) → IsLate (update_then c tools net uuid updates enrolled)
  unfolding update_then
  update_then-IsLate updates = record {
    at = λ w a h. late_update w (update_config_xml uuid updates w.files) a h;
  }

  enrol_rest-IsLate : (updated : Json) → IsLate (enrol_rest c tools net uuid updated)
  unfolding enrol_rest
  enrol_rest-IsLate updated = IsLate-bind (lift (pubkey_of updated)) _ (λ pubkey.
      IsLate-bind (put_pubkey c tools net uuid pubkey) _ (λ u.
        IsLate-bind (the_time c tools net) _
          (λ time. update_then-IsLate (enrol_updates uuid time))))

  unless_failed-IsLate :
      (updated : Json) (cert : Option Failure)
      → IsLate (unless_failed c tools net cert (enrol_rest c tools net uuid updated))
  unless_failed-IsLate updated none = enrol_rest-IsLate updated
  unless_failed-IsLate updated (some e) = record { at = λ w a h. ground arith }

  enrol_with-IsLate : (x : MasqueKeys × Json) → IsLate (enrol_with c tools net uuid x)
  unfolding enrol_with
  enrol_with-IsLate (keys, updated) =
      IsLate-bind (put_masque c tools net uuid keys.private_der) _ (unless_failed-IsLate updated)

  abbrev answer_with : Result (MasqueKeys × Json) × World Sys → Result Answer × World Sys
  answer_with x = try_with (enrol_with c tools net uuid) (λ e. return (answer_of e)) x

  refused_after :
      (x : Result (MasqueKeys × Json) × World Sys) (a : Answer)
      → (answer_with x).0 ≡ ok a
      → is_refusal a ≡ true
      → Agree x.1.files (answer_with x).1.files
  refused_after (raise e, w) a h r = Agree-refl w.files
  refused_after (ok k, w) a h r = let l = (enrol_with-IsLate k).at w a h in absurd (ground arith)

  token_refusal :
      (conn : Connection) (o : Option Text) (w : World Sys) (a : Answer)
      → (enrol_token c tools net uuid conn o w).0 ≡ ok a
      → is_refusal a ≡ true
      → Agree w.files (enrol_token c tools net uuid conn o w).1.files
  token_refusal conn none w a h r = Agree-refl w.files
  token_refusal conn (some []) w a h r = Agree-refl w.files
  token_refusal conn (some (x ∷ t)) w a h r =
      Agree-trans w.files _ _ (new_masque_key-Agree conn.device_id (x ∷ t) conn.device_name w)
        (refused_after _ a h r)

  found_refusal :
      (o : Option Connection) (w : World Sys) (a : Answer)
      → (enrol_found c tools net uuid o w).0 ≡ ok a
      → is_refusal a ≡ true
      → Agree w.files (enrol_found c tools net uuid o w).1.files
  found_refusal none w a h r = Agree-refl w.files
  found_refusal (some conn) w a h r = elim (Bool-cases (is_nil conn.device_id)) [
    | inl b ↦ rw b (Agree-refl w.files)
    | inr b ↦ rw b (token_refusal conn _ w a (rw b at h) r)
  ]

  configured_refusal :
      (r : Result Config) (w : World Sys) (a : Answer)
      → (continue (λ cfg. enrol_found c tools net uuid (lookup uuid cfg.connections)) (r, w)).0
        ≡ ok a
      → is_refusal a ≡ true
      → Agree w.files
          (continue
            (λ cfg. enrol_found c tools net uuid (lookup uuid cfg.connections))
            (r, w)).1.files
  configured_refusal (raise e) w a h k = Agree-refl w.files
  configured_refusal (ok cfg) w a h k = found_refusal (lookup uuid cfg.connections) w a h k

  -- An enrolment that is refused, by a check, by the API or by an error on the way to its answer,
  -- leaves config.xml, the secrets and what their keys derive from as they were.
  pub cmd_enroll-Agree :
      (w : World Sys) (a : Answer)
      → (cmd_enroll c tools net uuid w).0 ≡ ok a
      → is_refusal a ≡ true
      → Agree w.files (cmd_enroll c tools net uuid w).1.files
  unfolding cmd_enroll
  cmd_enroll-Agree w a h r = configured_refusal (config_of w.files) w a h r
