-- ===== src/Cli/Warp.antt =====
-- warp.py: what its commands print, and the dispatch of the command line.
use cf_masque_opnsense.Prelude.{
  pos, not, ◌&&◌, Option, none, some, List, [], ◌∷◌, ◌++◌, if◌then◌else◌, is_nil,
}
use cf_masque_opnsense.Text.{Text, codes, text_eq}
use cf_masque_opnsense.Text.Number.{int_text}
use cf_masque_opnsense.Dict.{Dict, lookup}
use cf_masque_opnsense.Outcome.{Failure, warp_api_error, index_error}
use cf_masque_opnsense.Json.{Json, Items, str, int, arr, nil, cons}
use cf_masque_opnsense.Json.Dumps.{dumps}
use cf_masque_opnsense.Secrets.{Crypto}
use cf_masque_opnsense.Keys.{Tools}
use cf_masque_opnsense.Api.{Net}
use cf_masque_opnsense.Program.{Program, return, fail, ◌>>=◌}
use cf_masque_opnsense.Warp.{
  Answer, connection_missing, no_registration_for, incomplete_response, not_registered,
  no_device_token, api_error, unexpected_error, cert_failed, update_failed, enrolled, registered,
  Rotated, RotationReport, cmd_enroll, cmd_rotatekey, cmd_rotatekeyscheck,
}
use cf_masque_opnsense.Warp.Register.{cmd_register}
use cf_masque_opnsense.Cli.{
  Exit, exit, dict, result_dict, failed_dict, print_dict, no_command, message_of,
}

module _ (own : Failure → Text) where
  -- The message of an answer that is a failure.
  unfoldable pub answer_message : Answer → Text
  unfolding int_text
  answer_message (connection_missing uuid) = codes "Connection " ++ (uuid ++ codes " not found")
  answer_message (no_registration_for proto) =
      codes "Protocol " ++ (proto ++ codes " does not use WARP registration")
  answer_message incomplete_response = codes "Registration response missing id or token"
  answer_message not_registered = codes "Device not registered yet. Run register first."
  answer_message no_device_token = codes "Device token not found in secrets store"
  answer_message (api_error status message) = message_of own (warp_api_error status message)
  answer_message (unexpected_error e) = codes "Unexpected error: " ++ message_of own e
  answer_message (cert_failed e) = codes "TLS cert generation failed: " ++ message_of own e
  answer_message (update_failed e) = codes "Config update failed: " ++ message_of own e
  answer_message enrolled = []
  answer_message (registered r) = []

  -- What cmd_register and cmd_enroll return.
  unfoldable pub answer_json : Answer → Json
  unfolding answer_message
  answer_json enrolled =
      result_dict (codes "ok") ((codes "registration_status", str (codes "enrolled")) ∷ [])
  answer_json (registered r) = result_dict (codes "ok") (
      (codes "device_id", r.device_id)
      ∷ (codes "client_ipv4", r.client_ipv4)
      ∷ (codes "client_ipv6", r.client_ipv6)
      ∷ (codes "endpoint_v4", str r.endpoint_v4)
      ∷ (codes "registration_status", str r.registration_status)
      ∷ [])
  answer_json a = failed_dict (answer_message a)

  -- An entry of `results`.
  abbrev pub rotated_json : Rotated → Json
  rotated_json r = dict (
      (codes "uuid", str r.uuid)
      ∷ (codes "name", str r.name)
      ∷ (codes "result", answer_json r.result)
      ∷ [])

  abbrev pub rotated_items : List Rotated → Items
  rotated_items [] = nil
  rotated_items (r ∷ rs) = cons (rotated_json r) (rotated_items rs)

  unfoldable pub report_json : RotationReport → Json
  unfolding answer_json
  report_json r = dict (
      (codes "checked", int (pos r.checked))
      ∷ (codes "rotated", int (pos r.rotated))
      ∷ (codes "results", arr (rotated_items r.results))
      ∷ [])

  module _ (crypto : Crypto) (tools : Tools) (net : Net tools.Sys) where
    open tools use {Sys}

    abbrev pub of_arg : List Text → (Text → Program Sys Json) → Program Sys Json
    of_arg [] f = fail index_error
    of_arg (a ∷ more) f = f a

    -- args[1] if len(args) > 1 else ''
    abbrev pub second_arg : List Text → Text
    second_arg (a ∷ (b ∷ more)) = b
    second_arg _ = []

    abbrev pub as_json : {A : Type 0} → (A → Json) → Program Sys A → Program Sys Json
    as_json encode m = m >>= λ a. return (encode a)

    -- The dict `dispatch`, whose values are called later.
    abbrev pub warp_dispatch : List Text → Dict (Program Sys Json)
    warp_dispatch args =
        (
          codes "register",
          of_arg args
              (λ uuid. as_json answer_json (cmd_register crypto tools net uuid (second_arg args))),
        )
        ∷ (
          codes "enroll",
          of_arg args (λ uuid. as_json answer_json (cmd_enroll crypto tools net uuid)),
        )
        ∷ (
          codes "rotatekey",
          of_arg args (λ uuid. as_json answer_json (cmd_rotatekey crypto tools net uuid)),
        )
        ∷ (codes "rotatekeyscheck", as_json report_json (cmd_rotatekeyscheck crypto tools net))
        ∷ []

    abbrev pub unknown_or_missing : Text → Program Sys (Exit Text)
    unknown_or_missing cmd =
        return (exit 1 (dumps (failed_dict (codes "Unknown command or missing args: " ++ cmd))))

    abbrev pub warp_run : Text → List Text → Option (Program Sys Json) → Program Sys (Exit Text)
    warp_run cmd args none = unknown_or_missing cmd
    warp_run cmd args (some p) =
        if not (text_eq cmd (codes "rotatekeyscheck")) && is_nil args
        then unknown_or_missing cmd
        else print_dict (λ v. v) p

    -- sys.argv[1:]
    unfoldable pub warp_main : List Text → Program Sys (Exit Text)
    unfolding report_json
    warp_main [] = no_command
    warp_main (cmd ∷ args) = warp_run cmd args (lookup cmd (warp_dispatch args))
