-- ===== src/Cli/Daemons.antt =====
-- The dispatch of cfzt_monitor.py, dns.py and cfzt_api.py.
use cf_masque_opnsense.Prelude.{ℕ, ℤ, true, false, Option, none, some, List, [], ◌∷◌, if◌then◌else◌}
use cf_masque_opnsense.Text.{Text, codes, text_eq}
use cf_masque_opnsense.Outcome.{ok, warp_api_error}
use cf_masque_opnsense.Json.{Json, str, bool, int}
use cf_masque_opnsense.Secrets.{Crypto}
use cf_masque_opnsense.Process.{Os}
use cf_masque_opnsense.Health.{monitor_status, monitor_stop, run_monitor}
use cf_masque_opnsense.Dns.{DnsReply, override_disabled, no_change, applied, apply_dns, remove_dns}
use cf_masque_opnsense.Api.{
  Net, valid, invalid, refused, TokenReport, no_organization, no_token, token_report,
  cmd_validatetoken,
}
use cf_masque_opnsense.Program.{Program, return, ◌>>=◌}
use cf_masque_opnsense.Cli.{
  Exit, exit, dict, result_dict, failed_dict, print_dict, print_text, with_arg, no_command,
  unknown_command, message_of,
}

-- The answer of `status` of cfzt_monitor.py.
abbrev pub monitor_status_dict : Option ℤ → Json
monitor_status_dict none = dict ((codes "running", bool false) ∷ [])
monitor_status_dict (some pid) = dict ((codes "running", bool true) ∷ (codes "pid", int pid) ∷ [])

-- The answer of `stop` of cfzt_monitor.py.
abbrev pub monitor_stop_dict : Option ℤ → Json
monitor_stop_dict none = result_dict (codes "not_running") []
monitor_stop_dict (some pid) = result_dict (codes "ok") ((codes "pid", int pid) ∷ [])

-- sys.argv[1] if len(sys.argv) > 1 else 'start'
abbrev pub monitor_command : List Text → Text
monitor_command [] = codes "start"
monitor_command (cmd ∷ args) = cmd

-- What cmd_apply_dns returns.
abbrev pub dns_reply_text : DnsReply → Text
dns_reply_text override_disabled = codes "dns override disabled"
dns_reply_text no_change = codes "no change"
dns_reply_text applied = codes "applied"

-- What cmd_validatetoken prints.
unfoldable pub token_dict : TokenReport → Json
token_dict no_organization = failed_dict (codes "Organization not found")
token_dict no_token = failed_dict (codes "No API token stored")
token_dict (token_report (valid status)) =
    result_dict (codes "valid") ((codes "status", status) ∷ [])
token_dict (token_report (invalid errors)) =
    result_dict (codes "invalid") ((codes "message", str errors) ∷ [])
token_dict (token_report (refused status message)) =
    result_dict (codes "invalid")
      ((codes "message", str (message_of (λ e. []) (warp_api_error status message))) ∷ [])

module _ (os : Os) where
  open os use {Sys}

  -- cfzt_monitor.py with sys.argv[1:]: what is neither `status` nor `stop` runs the daemon, here for
  -- at most `fuel` rounds, which prints nothing. `me` is os.getpid().
  unfoldable pub monitor_main : ℕ → ℕ → List Text → Program Sys (Exit Text)
  monitor_main fuel me argv =
      if text_eq (monitor_command argv) (codes "status")
      then print_dict monitor_status_dict (λ w. (ok (monitor_status os w), w))
      else if text_eq (monitor_command argv) (codes "stop")
      then print_dict monitor_stop_dict (monitor_stop os)
      else (λ w. (ok (exit 0 []), run_monitor os fuel me w))

  unfoldable pub dns_command : Text → Program Sys (Exit Text)
  dns_command cmd =
      if text_eq cmd (codes "apply")
      then print_text (apply_dns os >>= λ r. return (dns_reply_text r))
      else if text_eq cmd (codes "remove")
      then (λ w. (ok (exit 0 (codes "removed")), remove_dns os w))
      else unknown_command cmd

  -- dns.py with sys.argv[1:]
  unfoldable pub dns_main : List Text → Program Sys (Exit Text)
  unfolding dns_command
  dns_main [] = return (exit 1 (codes "Usage: dns.py <apply|remove>"))
  dns_main (cmd ∷ args) = dns_command cmd

-- cfzt_api.py with sys.argv[1:]
unfoldable pub api_main : {S : Type 0} → Net S → Crypto → List Text → Program S (Exit Text)
unfolding token_dict with_arg
api_main net crypto [] = no_command
api_main net crypto (cmd ∷ args) =
    with_arg (text_eq cmd (codes "validatetoken")) args
      (λ uuid. print_dict token_dict (cmd_validatetoken net crypto uuid)) (unknown_command cmd)
