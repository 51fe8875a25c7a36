-- ===== src/Warp.antt =====
-- warp.py: cmd_register, cmd_enroll and cmd_rotatekeyscheck. Key generation runs `openssl`, the
-- calls of cfzt_api.py the network; both are parameters over one system.
mod Answers
pub mod Register
pub mod Kept
pub mod Generation
pub mod Storing
pub mod Enrolled
pub mod Outcomes
pub mod Success
pub mod Rotating
pub mod Reread
pub mod Reloaded
pub mod Recorded
pub mod Registered
pub mod Fresh
unfoldable pub use Answers.*
use cf_masque_opnsense.Prelude.{
  ℕ, ◌+◌, ℤ, Bool, true, false, Option, none, some, List, [], ◌∷◌, ◌++◌, if◌then◌else◌, is_nil,
  length, ◌||◌, not,
}
use cf_masque_opnsense.Text.{Text, codes, text_eq, one_of}
use cf_masque_opnsense.Bytes.{Bytes}
use cf_masque_opnsense.Base64.{b64encode}
use cf_masque_opnsense.Dict.{Dict, lookup}
use cf_masque_opnsense.Outcome.{Failure, Result, ok, raise, warp_api_error}
use cf_masque_opnsense.Config.{Config, Connection}
use cf_masque_opnsense.Files.{Files}
use cf_masque_opnsense.Secrets.{Crypto, get_secret, set_secret}
use cf_masque_opnsense.Json.{Json, str, is_true, get, text_of}
use cf_masque_opnsense.Json.Shown.{shown}
use cf_masque_opnsense.Process.{World, is_warp, config_of}
use cf_masque_opnsense.Calendar.{Stamp, instant}
use cf_masque_opnsense.Keys.{
  Tools, MasqueKeys, generate_wireguard_keypair, generate_masque_keypair, load_masque_private_key,
  generate_self_signed_cert,
}
use cf_masque_opnsense.Api.{Net, register_device, enroll_masque_key}
use cf_masque_opnsense.Update.{update_config_xml}
use cf_masque_opnsense.Rotation.{DueKey, due_connections}
use cf_masque_opnsense.Program.{
  Program, on_system, on_files, lift, return, fail, continue, from_files, try_with, ◌>>=◌, ◌>>◌,
}

-- What came of the `try` of cmd_register.
pub data Attempt : Type 0 where
  incomplete : Attempt
  acquired : Acquired → Attempt

pub record Rotated : Type 0 where
  pub uuid : Text
  pub name : Text
  pub result : Answer

-- The answer of cmd_rotatekeyscheck.
pub record RotationReport : Type 0 where
  pub checked : ℕ
  pub rotated : ℕ
  pub results : List Rotated

-- sum(1 for r in results if …)
unfoldable pub count_ok : List Rotated → ℕ
unfolding is_ok
count_ok [] = 0
count_ok (r ∷ rs) = if is_ok r.result then count_ok rs + 1 else count_ok rs

-- except WarpAPIError, except Exception
abbrev pub answer_of : Failure → Answer
answer_of (warp_api_error status message) = api_error status message
answer_of e = unexpected_error e

module _ (crypto : Crypto) (tools : Tools) (net : Net tools.Sys) where
  open tools use {Sys}
  open net use {random_bytes, now, is_printable}

  -- set_secret; the random bytes are drawn first.
  unfoldable pub put_secret : Text → Text → Program Sys (Unit {0})
  put_secret key value = do
    iv ← on_system (random_bytes 16)
    on_files (set_secret crypto iv key value)

  -- set_secret of a value from JSON: one that is no text has no `encode`.
  unfoldable pub put_json : Text → Json → Program Sys (Unit {0})
  unfolding text_of put_secret
  put_json key v = do value ← lift (text_of v); put_secret key value

  -- The `try` around the certificate: what it raised.
  unfoldable pub put_cert : Text → Text → Program Sys (Option Failure)
  unfolding put_secret
  put_cert uuid masque_priv w =
      try_with (λ _. return none) (λ e. return (some e))
        ((generate_self_signed_cert tools (load_masque_private_key tools masque_priv)
            >>= λ cert_der. put_secret (codes "masque_cert_" ++ uuid) (b64encode cert_der))
          w)

  -- The private key and its certificate.
  unfoldable pub put_masque : Text → Text → Program Sys (Option Failure)
  unfolding put_secret put_cert
  put_masque uuid masque_priv = do
    put_secret (codes "masque_privkey_" ++ uuid) masque_priv
    put_cert uuid masque_priv

  unfoldable pub put_pubkey : Text → Json → Program Sys (Unit {0})
  unfolding is_true put_json
  put_pubkey uuid pubkey =
      if is_true pubkey then put_json (codes "endpoint_pubkey_" ++ uuid) pubkey else return tt

  abbrev pub unless_failed : Option Failure → Program Sys Answer → Program Sys Answer
  unless_failed none rest = rest
  unless_failed (some e) rest = return (cert_failed e)

  -- The `try` around _update_config_xml, and the answer after it.
  unfoldable pub update_then : Text → Dict Text → Answer → Program Sys Answer
  update_then uuid updates answer w =
      try_with (λ _. return answer) (λ e. return (update_failed e))
        (on_files (update_config_xml uuid updates) w)

  abbrev pub the_time : Program Sys Stamp
  the_time w = (ok (now w.sys), w)

  -- cmd_enroll after the certificate.
  unfoldable pub enrol_rest : Text → Json → Program Sys Answer
  unfolding pubkey_of put_pubkey enrol_updates update_then
  enrol_rest uuid updated = do
    pubkey ← lift (pubkey_of updated)
    put_pubkey uuid pubkey
    time ← the_time
    update_then uuid (enrol_updates uuid time) enrolled

  -- cmd_enroll after the calls of the API.
  unfoldable pub enrol_with : Text → MasqueKeys × Json → Program Sys Answer
  unfolding put_masque enrol_rest
  enrol_with uuid (keys, updated) = do
    cert ← put_masque uuid keys.private_der
    unless_failed cert (enrol_rest uuid updated)

  -- The `try` of cmd_enroll.
  unfoldable pub new_masque_key : Text → Text → Text → Program Sys (MasqueKeys × Json)
  new_masque_key device_id device_token device_name = do
    keys ← generate_masque_keypair tools
    updated ← enroll_masque_key net device_id device_token keys.public_der device_name
    return (keys, updated)

  abbrev pub enrol_token : Text → Connection → Option Text → Program Sys Answer
  enrol_token uuid conn none w = return no_device_token w
  enrol_token uuid conn (some []) w = return no_device_token w
  enrol_token uuid conn (some (c ∷ t)) w =
      try_with (enrol_with uuid) (λ e. return (answer_of e))
        (new_masque_key conn.device_id (c ∷ t) conn.device_name w)

  abbrev pub enrol_found : Text → Option Connection → Program Sys Answer
  enrol_found uuid none = return (connection_missing uuid)
  enrol_found uuid (some conn) = do
    token ← from_files (get_secret crypto (codes "device_token_" ++ uuid))
    (if is_nil conn.device_id then return not_registered else enrol_token uuid conn token)

  unfoldable pub cmd_enroll : Text → Program Sys Answer
  cmd_enroll uuid = do
    cfg ← (λ w. (config_of w.files, w))
    enrol_found uuid (lookup uuid cfg.connections)

  unfoldable pub cmd_rotatekey : Text → Program Sys Answer
  cmd_rotatekey uuid = cmd_enroll uuid

  -- The loop over `due`.
  unfoldable pub rotate_all : List DueKey → Program Sys (List Rotated)
  rotate_all [] = return []
  rotate_all (item ∷ more) = do
    result ← cmd_rotatekey item.uuid
    results ← rotate_all more
    return (record { uuid = item.uuid; name = item.name; result = result } ∷ results)

  abbrev pub report : Config → List Rotated → RotationReport
  report cfg results = record {
    checked = length cfg.connections;
    rotated = count_ok results;
    results = results;
  }

  unfoldable pub cmd_rotatekeyscheck : Program Sys RotationReport
  cmd_rotatekeyscheck = do
    cfg ← (λ w. (config_of w.files, w))
    time ← the_time
    results ← rotate_all (due_connections (instant time) cfg.connections)
    return (report cfg results)
