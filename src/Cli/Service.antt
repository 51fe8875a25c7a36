-- ===== src/Cli/Service.antt =====
-- service.py: what its commands print, and the dispatch of the command line.
use cf_masque_opnsense.Prelude.{ℕ, Option, none, some, List, [], ◌∷◌, ◌++◌, if◌then◌else◌}
use cf_masque_opnsense.Text.{Text, codes, text_eq}
use cf_masque_opnsense.Text.Number.{int_text}
use cf_masque_opnsense.Dict.{Dict}
use cf_masque_opnsense.Outcome.{Failure, Result, ok}
use cf_masque_opnsense.Json.{Json, Members, str, obj, end, member}
use cf_masque_opnsense.Secrets.{Crypto}
use cf_masque_opnsense.Process.{Os, World}
use cf_masque_opnsense.Lifecycle.{
  StartFailure, not_registered, binary_missing, exited, unknown_protocol, StartReply,
  already_running, started, failed, StopReply, not_running, stopped,
}
use cf_masque_opnsense.Program.{Program, return}
use cf_masque_opnsense.Service.{
  Status, ConnectionStatus, cmd_start, cmd_stop, cmd_restart, cmd_status, cmd_allstatus,
  cmd_startconn, cmd_stopconn, cmd_connstatus, cmd_setsecret, cmd_delsecret,
}
use cf_masque_opnsense.Cli.{
  Exit, exit, dict, result_dict, failed_dict, int_or_null, str_or_null, print_dict, print_text,
  with_arg, with_args, unknown_command, message_of,
}

-- The message of a failed start.
abbrev pub start_message : StartFailure → Text
start_message not_registered = codes "Device not registered. Run register first."
start_message (binary_missing path) = path ++ codes " not found"
start_message (exited what code) =
    what ++ (codes " exited immediately (code " ++ (int_text code ++ codes "); check logs"))
start_message (unknown_protocol proto) = codes "Unknown protocol: " ++ proto

-- What start_connection returns.
unfoldable pub start_dict : StartReply → Json
start_dict (already_running pid) =
    result_dict (codes "already_running") ((codes "pid", int_or_null pid) ∷ [])
start_dict (started pid) = result_dict (codes "ok") ((codes "pid", int_or_null (some pid)) ∷ [])
start_dict (failed why) = failed_dict (start_message why)

-- What stop_connection returns.
unfoldable pub stop_dict : StopReply → Json
stop_dict not_running = result_dict (codes "not_running") []
stop_dict stopped = result_dict (codes "ok") []

-- The answer for a connection that may be missing.
abbrev pub found_dict : {A : Type 0} → (A → Json) → Option A → Json
found_dict encode none = failed_dict (codes "Connection not found")
found_dict encode (some a) = encode a

unfoldable pub status_dict : Status → Json
status_dict s = dict (
    (codes "name", str s.name)
    ∷ (codes "protocol", str s.protocol)
    ∷ (codes "status", str s.status)
    ∷ (codes "pid", int_or_null s.pid)
    ∷ (codes "client_ipv4", str s.client_ipv4)
    ∷ (codes "uptime", str_or_null s.uptime)
    ∷ [])

abbrev pub status_members : Dict Status → Members
status_members [] = end
status_members ((uuid, s) ∷ more) = member uuid (status_dict s) (status_members more)

-- cmd_allstatus
unfoldable pub allstatus_dict : Text × Dict Status → Json
allstatus_dict (overall, connections) =
    dict (
      (codes "overall", str overall) ∷ (codes "connections", obj (status_members connections)) ∷ [])

-- cmd_connstatus
unfoldable pub connstatus_dict : Option ConnectionStatus → Json
connstatus_dict none = result_dict (codes "not_found") []
connstatus_dict (some s) = result_dict (codes "ok") (
    (codes "uuid", str s.uuid)
    ∷ (codes "name", str s.name)
    ∷ (codes "protocol", str s.protocol)
    ∷ (codes "status", str s.status)
    ∷ (codes "pid", int_or_null s.pid)
    ∷ (codes "client_ipv4", str s.client_ipv4)
    ∷ (codes "client_ipv6", str s.client_ipv6)
    ∷ (codes "registration_status", str s.registration_status)
    ∷ (codes "uptime", str_or_null s.uptime)
    ∷ [])

-- The system with the random bytes of cmd_setsecret, and the text of Python's own exceptions.
module _ (os : Os) (crypto : Crypto) (iv : List ℕ) (own : Failure → Text) where
  open os use {Sys}

  abbrev pub secret_dict : Option Failure → Json
  secret_dict none = result_dict (codes "ok") []
  secret_dict (some e) = failed_dict (message_of own e)

  abbrev pub set_secret_program : Text → Text → Program Sys (Option Failure)
  set_secret_program key value_b64 w =
      let (e, fs) = cmd_setsecret crypto iv key value_b64 w.files in (ok e, record w { files = fs })

  abbrev pub del_secret_program : Text → Program Sys (Option Failure)
  del_secret_program key w = (ok none, record w { files = cmd_delsecret key w.files })

  abbrev pub reading : {A : Type 0} → (World Sys → Result A) → Program Sys A
  reading f w = (f w, w)

  -- The chain of `if cmd == …`.
  unfoldable pub service_command : Text → List Text → Program Sys (Exit Text)
  unfolding with_arg with_args
  service_command cmd args =
      if text_eq cmd (codes "start")
      then print_text (cmd_start os crypto)
      else if text_eq cmd (codes "stop")
      then print_text (cmd_stop os)
      else if text_eq cmd (codes "restart")
      then print_text (cmd_restart os crypto)
      else if text_eq cmd (codes "status")
      then print_text (reading (cmd_status os))
      else if text_eq cmd (codes "allstatus")
      then print_dict allstatus_dict (reading (cmd_allstatus os))
      else with_arg (text_eq cmd (codes "startconn")) args
          (λ uuid. print_dict (found_dict start_dict) (cmd_startconn os crypto uuid))
          (with_arg (text_eq cmd (codes "stopconn")) args
            (λ uuid. print_dict (found_dict stop_dict) (cmd_stopconn os uuid))
            (with_arg (text_eq cmd (codes "connstatus")) args
              (λ uuid. print_dict connstatus_dict (reading (cmd_connstatus os uuid)))
              (with_args (text_eq cmd (codes "setsecret")) args
                (λ key value_b64. print_dict secret_dict (set_secret_program key value_b64))
                (with_arg (text_eq cmd (codes "delsecret")) args
                  (λ key. print_dict secret_dict (del_secret_program key)) (unknown_command cmd)))))

  -- sys.argv[1:]
  unfoldable pub service_main : List Text → Program Sys (Exit Text)
  unfolding service_command
  service_main [] = return (exit 1 (codes "no command"))
  service_main (cmd ∷ args) = service_command cmd args
