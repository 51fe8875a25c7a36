-- ===== src/Health.antt =====
-- cfzt_monitor.py: the daemon that polls the connections, restarts failed ones and notifies.
pub mod Transitions
pub mod Rounds
pub mod Naps
pub mod Checks
use cf_masque_opnsense.Prelude.{
  ℕ, zero, suc, ◌+◌, ◌-◌, ◌*◌, ℤ, pos, negsuc, Bool, true, false, not, ◌&&◌, Option, none, some,
  List, [], ◌∷◌, ◌++◌, ltb, leb, if◌then◌else◌, leb_ℤ,
}
use Prim.Native.Nat.{min, max}
use cf_masque_opnsense.Text.{Text, codes, one_of}
use cf_masque_opnsense.Text.Number.{decimal}
use cf_masque_opnsense.Dict.{Dict, lookup, insert}
use cf_masque_opnsense.Outcome.{Result, ok, raise, os_error}
use cf_masque_opnsense.Config.{Config, Connection, MonitoringConfig}
use cf_masque_opnsense.Files.{plain, write, chmod, unlink}
use cf_masque_opnsense.Process.{
  Os, World, Signal, sigterm, Delivery, delivered, no_such_process, not_permitted, pid_file,
  read_pid, is_running, connection_running, config_of,
}

-- What the daemon does about one connection. `log` is a line in syslog.
pub data Action : Type 0 where
  log_down log_recovered notify_down notify_recovered restart : Action

abbrev pub when : Bool → Action → List Action
when true a = a ∷ []
when false a = []

abbrev pub down_actions : Bool → Option Bool → List Action
down_actions notify_fail (some true) = log_down ∷ (when notify_fail notify_down ++ restart ∷ [])
down_actions notify_fail none = restart ∷ []
down_actions notify_fail (some false) = []

abbrev pub up_actions : Bool → Option Bool → List Action
up_actions notify_recv (some false) = log_recovered ∷ when notify_recv notify_recovered
up_actions notify_recv _ = []

-- The branches of the loop body: `was` is last_status.get(uuid).
unfoldable pub actions_for : Bool → Bool → Bool → Bool → Option Bool → List Action
actions_for notify_fail notify_recv registered running was =
    if not running && registered
    then down_actions notify_fail was
    else if running
    then up_actions notify_recv was
    else []

-- status in ('enrolled', 'registered')
unfoldable pub is_registered : Text → Bool
unfolding one_of
is_registered status = one_of status (codes "enrolled" ∷ codes "registered" ∷ [])

unfoldable pub subject_of : Connection → Text → Text
subject_of conn what = codes "Cloudflare ZT: " ++ (conn.name ++ what)

-- The command lines of _send_notification and _restart_connection.
unfoldable pub command_of : Text → Connection → Action → List (List Text)
unfolding subject_of
command_of uuid conn log_down = []
command_of uuid conn log_recovered = []
command_of uuid conn notify_down =
    (codes "/usr/local/opnsense/scripts/OPNsense/Notifications/send.py"
      ∷ subject_of conn (codes " disconnected")
      ∷ (codes "Connection "
          ++ (conn.name
              ++ (codes " ("
                  ++ (uuid
                      ++ (codes ") is no longer running. Protocol: "
                          ++ (conn.protocol ++ codes ". Auto-restarting."))))))
      ∷ [])
    ∷ []
command_of uuid conn notify_recovered =
    (codes "/usr/local/opnsense/scripts/OPNsense/Notifications/send.py"
      ∷ subject_of conn (codes " reconnected")
      ∷ (codes "Connection "
          ++ (conn.name ++ (codes " (" ++ (uuid ++ codes ") is running again."))))
      ∷ [])
    ∷ []
command_of uuid conn restart =
    (codes "/usr/local/sbin/configctl" ∷ codes "cloudflarezt" ∷ codes "startconn" ∷ uuid ∷ []) ∷ []

abbrev pub interval_of : Option MonitoringConfig → ℤ
interval_of none = pos 30
interval_of (some m) = m.health_check_interval

abbrev pub notify_fail_of : Option MonitoringConfig → Bool
notify_fail_of none = true
notify_fail_of (some m) = m.notify_on_failure

abbrev pub notify_recv_of : Option MonitoringConfig → Bool
notify_recv_of none = true
notify_recv_of (some m) = m.notify_on_recovery

-- max(5, n), in seconds
abbrev pub at_least_five : ℤ → ℕ
at_least_five (pos n) = max 5 n
at_least_five (negsuc n) = 5

abbrev pub monitor_pid : Text
monitor_pid = codes "/var/run/cfzt-monitor.pid"

module _ (os : Os) where
  open os use {Sys, run, sleep, terminated, kill}

  unfoldable pub run_all : List (List Text) → World Sys → World Sys
  run_all [] w = w
  run_all (c ∷ cs) w = run_all cs (run c w)

  unfoldable pub perform : Text → Connection → List Action → World Sys → World Sys
  perform uuid conn [] w = w
  perform uuid conn (a ∷ more) w = perform uuid conn more (run_all (command_of uuid conn a) w)

  -- What the check of a connection does, by whether it runs and by `last_status`.
  abbrev pub actions_at : Bool → Bool → Text → Connection → World Sys → Dict Bool → List Action
  actions_at notify_fail notify_recv uuid conn w last_status =
      actions_for notify_fail notify_recv (is_registered conn.registration_status)
        (connection_running os uuid conn.protocol w) (lookup uuid last_status)

  -- One pass of the `for` loop's body for an enabled connection.
  unfoldable pub check_connection :
      Bool → Bool → Text → Connection → World Sys × Dict Bool → World Sys × Dict Bool
  check_connection notify_fail notify_recv uuid conn (w, last_status) = (
    perform uuid conn (actions_at notify_fail notify_recv uuid conn w last_status) w,
    insert uuid (connection_running os uuid conn.protocol w) last_status,
  )

  -- for uuid, conn in cfg['connections'].items()
  unfoldable pub check_all :
      Bool → Bool → Dict Connection → World Sys × Dict Bool → World Sys × Dict Bool
  check_all notify_fail notify_recv [] s = s
  check_all notify_fail notify_recv ((uuid, conn) ∷ more) s =
      check_all notify_fail notify_recv more
        (if conn.enabled then check_connection notify_fail notify_recv uuid conn s else s)

  -- The sleep in short naps; fuel above the seconds left is enough.
  unfoldable pub nap : ℕ → ℕ → ℕ → World Sys → World Sys
  nap zero elapsed interval w = w
  nap (suc fuel) elapsed interval w =
      let more = nap fuel (elapsed + 5) interval (sleep (min 5 (interval - elapsed) * 1000) w) in
      if not (terminated w.sys) && ltb elapsed interval then more else w

  -- One round of the `while` loop.
  unfoldable pub round : World Sys × Dict Bool → World Sys × Dict Bool
  round (w, last_status) = elim (config_of w.files) [
    | raise e ↦ (sleep 30_000 w, last_status)
    | ok cfg ↦
        let interval = at_least_five (interval_of cfg.monitoring) in
        let (w', last') =
          check_all (notify_fail_of cfg.monitoring) (notify_recv_of cfg.monitoring) cfg.connections
            (w, last_status) in
        if cfg.enabled
        then (nap (suc interval) 0 interval w', last')
        else (sleep 30_000 w, last_status)
  ]

  -- while _running: at most `fuel` rounds, since the daemon runs until it is told to stop.
  unfoldable pub rounds : ℕ → World Sys × Dict Bool → World Sys × Dict Bool
  rounds zero s = s
  rounds (suc fuel) (w, last_status) =
      let more = rounds fuel (round (w, last_status)) in
      if terminated w.sys then (w, last_status) else more

  -- run_monitor: `me` is os.getpid().
  unfoldable pub run_monitor : ℕ → ℕ → World Sys → World Sys
  run_monitor fuel me w =
      let started = record w {
        files = chmod monitor_pid 0o644 (write monitor_pid (plain (decimal me)) w.files);
      } in
      let (w', last_status) = rounds fuel (started, []) in
      record w' { files = unlink monitor_pid w'.files }

  -- The command `status`: the pid if the daemon runs.
  unfoldable pub monitor_status : World Sys → Option ℤ
  monitor_status w =
      let pid = read_pid monitor_pid w.files in if is_running os pid w.sys then pid else none

  -- os.kill, whose two exceptions are not caught here.
  abbrev signalled : ℤ → Delivery × World Sys → Result (Option ℤ) × World Sys
  signalled pid (delivered, w) = (ok (some pid), w)
  signalled pid (no_such_process, w) = (raise os_error, w)
  signalled pid (not_permitted, w) = (raise os_error, w)

  abbrev term : Option ℤ → World Sys → Result (Option ℤ) × World Sys
  term none w = (ok none, w)
  term (some pid) w = signalled pid (kill sigterm pid w)

  -- The command `stop`: the daemon is sent SIGTERM if it runs.
  unfoldable pub monitor_stop : World Sys → Result (Option ℤ) × World Sys
  monitor_stop w =
      let pid = read_pid monitor_pid w.files in
      if is_running os pid w.sys then term pid w else (ok none, w)
