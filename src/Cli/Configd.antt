-- ===== src/Cli/Configd.antt =====
-- configd's actions run by the scripts' own dispatch.
use mathlib.Core.List.{Memᴰ}
use cf_masque_opnsense.Prelude.{ℕ, ◌≡◌, refl, inr, Bool, true, false, List, [], ◌++◌, if◌then◌else◌}
use cf_masque_opnsense.Text.{Text, codes, text_eq}
use cf_masque_opnsense.Outcome.{Failure, ok}
use cf_masque_opnsense.Json.Dumps.{dumps}
use cf_masque_opnsense.Secrets.{Crypto}
use cf_masque_opnsense.Keys.{Tools}
use cf_masque_opnsense.Api.{Net}
use cf_masque_opnsense.Process.{Os}
use cf_masque_opnsense.Diagnostics.{Probes}
use cf_masque_opnsense.Logs.{LogTools}
use cf_masque_opnsense.Health.{monitor_status, monitor_stop}
use cf_masque_opnsense.Program.{Program}
use cf_masque_opnsense.Cli.{Exit, exit}
use cf_masque_opnsense.Cli.Forms.{Serves, Dispatched, printing-Serves}
use cf_masque_opnsense.Cli.Service.{service_main}
use cf_masque_opnsense.Cli.Warp.{warp_main}
use cf_masque_opnsense.Cli.Daemons.{
  monitor_main, monitor_command, dns_main, api_main, monitor_status_dict, monitor_stop_dict,
}
use cf_masque_opnsense.Cli.Probes.{probes_main}
use cf_masque_opnsense.Cli.Commands.{
  service_main-Dispatched, probes_main-Dispatched, dns_main-Dispatched, api_main-Dispatched,
}
use cf_masque_opnsense.Cli.WarpCommands.{warp_main-Dispatched}
use cf_masque_opnsense.Cli.Actions.{
  Script, service_py, warp_py, cfzt_api_py, monitor_py, dns_py, cfzt_monitor_py, Action, actions,
  exactly, is_known, actions-known,
}

module _ {S A : Type 0} where
  if-Serves :
      (b : Bool) (p q : Program S (Exit A)) → Serves p → Serves q → Serves (if b then p else q)
  if-Serves true p q s t = s
  if-Serves false p q s t = t

  taken-Serves : (b : Bool) (p : Program S (Exit A)) → b ≡ true → Dispatched b p → Serves p
  unfolding Dispatched
  taken-Serves b p e d = rw e at d

-- The system of each script, with Python's random bytes, exception texts, limit on the recursion
-- and process id, and the rounds that the monitor runs.
module _ (os : Os) (crypto : Crypto) (iv : List ℕ) (own : Failure → Text) (tools : Tools)
    (net : Net tools.Sys) (sockets : Probes os.Sys) (logs : LogTools) (depth fuel me : ℕ) where
  monitor_main-Serves : (argv : List Text) → Serves (monitor_main os fuel me argv)
  unfolding monitor_main Serves
  monitor_main-Serves argv =
      if-Serves (text_eq (monitor_command argv) (codes "status")) _ _
        (printing-Serves (λ o. dumps (monitor_status_dict o)) (λ w. (ok (monitor_status os w), w)))
        (if-Serves (text_eq (monitor_command argv) (codes "stop")) _ _
          (printing-Serves (λ o. dumps (monitor_stop_dict o)) (monitor_stop os))
          (λ w. inr (exit 0 [], refl, refl)))

  -- The script's run with a command line raises, or ends with code 0.
  unfoldable pub Runs : Script → List Text → Type 0
  Runs service_py argv = Serves (service_main os crypto iv own argv)
  Runs warp_py argv = Serves (warp_main own crypto tools net argv)
  Runs cfzt_api_py argv = Serves (api_main net crypto argv)
  Runs monitor_py argv = Serves (probes_main os sockets logs depth argv)
  Runs dns_py argv = Serves (dns_main os argv)
  Runs cfzt_monitor_py argv = Serves (monitor_main os fuel me argv)

  known-Runs : (script : Script) (argv : List Text) → is_known script argv ≡ true → Runs script argv
  unfolding Runs is_known
  known-Runs service_py argv h = taken-Serves _ _ h (service_main-Dispatched os crypto iv own argv)
  known-Runs warp_py argv h = taken-Serves _ _ h (warp_main-Dispatched own crypto tools net argv)
  known-Runs cfzt_api_py argv h = taken-Serves _ _ h (api_main-Dispatched net crypto argv)
  known-Runs monitor_py argv h =
      taken-Serves _ _ h (probes_main-Dispatched os sockets logs depth argv)
  known-Runs dns_py argv h = taken-Serves _ _ h (dns_main-Dispatched os argv)
  known-Runs cfzt_monitor_py argv h = monitor_main-Serves argv

  -- Every action of configd, with as many parameters as it takes, is a command that its script
  -- knows: the run ends with code 0 unless it raises.
  pub actions-Runs :
      (a : Action) (params : List Text)
      → Memᴰ a actions
      → exactly a.parameters params ≡ true
      → Runs a.script (a.words ++ params)
  actions-Runs a params m h = known-Runs a.script (a.words ++ params) (actions-known a params m h)
