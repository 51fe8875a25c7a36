-- ===== src/Lifecycle.antt =====
-- service.py: the daemons' configuration files, start_connection and stop_connection.
pub mod Start
pub mod Stop
pub mod Privacy
mod Daemons
unfoldable pub use Daemons.*
use cf_masque_opnsense.Prelude.{
  ℕ, zero, suc, ◌*◌, ℤ, pos, Bool, true, false, not, ◌&&◌, ◌||◌, Option, none, some, List, [], ◌∷◌,
  ◌++◌, if◌then◌else◌, is_nil, is_zero_ℤ,
}
use cf_masque_opnsense.Text.{Text, codes, text_eq, strip}
use cf_masque_opnsense.Dict.{Dict, has}
use cf_masque_opnsense.Outcome.{Result, ok, raise, os_error, ◌>>=◌}
use cf_masque_opnsense.Config.{Config, Connection, DnsConfig}
use cf_masque_opnsense.Files.{
  Files, Content, Value, str, int, bool, plain, object, read, write, chmod, write_private, unlink,
}
use cf_masque_opnsense.Secrets.{Crypto, get_secret}
use cf_masque_opnsense.Process.{
  Os, World, Signal, sigterm, sigkill, Delivery, delivered, no_such_process, not_permitted,
  pid_file, read_pid, is_running, is_warp, config_of,
}
use cf_masque_opnsense.Health.{is_registered}

abbrev pub cfzt_warp_bin : Text
cfzt_warp_bin = codes "/usr/local/sbin/cfzt-warp"

abbrev pub cloudflared_bin : Text
cloudflared_bin = codes "/usr/local/bin/cloudflared"

-- What start_connection returns; `failed` carries its message.
pub data StartFailure : Type 0 where
  not_registered : StartFailure
  binary_missing : Text → StartFailure
  exited : Text → ℤ → StartFailure
  unknown_protocol : Text → StartFailure

pub data StartReply : Type 0 where
  already_running : Option ℤ → StartReply
  started : ℤ → StartReply
  failed : StartFailure → StartReply

pub data StopReply : Type 0 where
  not_running stopped : StopReply

-- r['result']
unfoldable pub start_result : StartReply → Text
start_result (already_running pid) = codes "already_running"
start_result (started pid) = codes "ok"
start_result (failed why) = codes "failed"

unfoldable pub stop_result : StopReply → Text
stop_result not_running = codes "not_running"
stop_result stopped = codes "ok"

-- The state file that holds the name of a connection's interface.
unfoldable pub iface_file : Text → Text
iface_file uuid = codes "/var/run/cfzt-iface-" ++ uuid

-- f.read().strip() of the state file
abbrev pub iface_of : Option Content → Option Text
iface_of (some (plain t)) = some (strip t)
iface_of _ = none

abbrev pub launch_reply : Text → ℤ → Option ℤ → StartReply
launch_reply name pid none = started pid
launch_reply name pid (some code) = failed (exited name code)

-- os.kill inside the `try`: a ProcessLookupError is caught, a PermissionError is not.
abbrev pub delivery_result : Delivery → Result (Unit {0})
delivery_result delivered = ok tt
delivery_result no_such_process = ok tt
delivery_result not_permitted = raise os_error

module _ (os : Os) where
  open os use {Sys, has_program, run, sleep, spawn, poll, kill}

  -- `ifconfig … destroy` and the removal of the state file, in the `try` of
  -- _cleanup_stale_iface: where there is no ifconfig, FileNotFoundError skips the removal.
  unfoldable pub destroy_iface : Text → Text → World Sys → World Sys
  destroy_iface state_file iface w =
      let w1 = run (codes "ifconfig" ∷ iface ∷ codes "destroy" ∷ []) w in
      if is_nil iface
      then record w { files = unlink state_file w.files }
      else if has_program (codes "ifconfig") w.sys
      then record w1 { files = unlink state_file w1.files }
      else w

  -- _cleanup_stale_iface
  unfoldable pub cleanup_stale_iface : Text → World Sys → World Sys
  cleanup_stale_iface uuid w = elim (iface_of (read (iface_file uuid) w.files)) [
    | none ↦ w
    | some iface ↦ destroy_iface (iface_file uuid) iface w
  ]

  -- Popen, the half second of grace, and the look whether the daemon is still there.
  unfoldable pub launch : Text → List Text → World Sys → StartReply × World Sys
  launch name command w =
      let (pid, w1) = spawn command w in
      let w2 = sleep 500 w1 in (launch_reply name pid (poll pid w2.sys), w2)

  module _ (crypto : Crypto) where
    abbrev pub launch_with :
        Text → List Text → World Sys → Result Files → Result StartReply × World Sys
    launch_with name command w (raise e) = (raise e, w)
    launch_with name command w (ok fs) =
        let (reply, w') = launch name command (record w { files = fs }) in (ok reply, w')

    unfoldable pub start_warp : Text → Connection → World Sys → Result StartReply × World Sys
    start_warp uuid conn w =
        if has cfzt_warp_bin w.files
        then launch_with (codes "daemon")
            (cfzt_warp_bin ∷ codes "--config" ∷ warp_config_path uuid ∷ codes "--daemon" ∷ []) w
            (write_warp_config crypto uuid conn w.files)
        else (ok (failed (binary_missing cfzt_warp_bin)), w)

    unfoldable pub start_cloudflared : Text → Connection → World Sys → Result StartReply × World Sys
    start_cloudflared uuid conn w =
        if has cloudflared_bin w.files
        then launch_with (codes "cloudflared")
            (cloudflared_bin
              ∷ codes "tunnel"
              ∷ codes "--config"
              ∷ tunnel_config_path uuid
              ∷ codes "run"
              ∷ [])
            w (ok (write_cloudflared_config crypto uuid conn w.files))
        else (ok (failed (binary_missing cloudflared_bin)), w)

    -- start_connection, after the check that nothing runs yet
    unfoldable pub start_fresh : Text → Connection → World Sys → Result StartReply × World Sys
    start_fresh uuid conn w =
        let proto = conn.protocol in
        let is_cloudflared = text_eq proto (codes "cloudflared") in
        if not (is_registered conn.registration_status) && not is_cloudflared
        then (ok (failed not_registered), w)
        else if is_warp proto
        then start_warp uuid conn w
        else if is_cloudflared
        then start_cloudflared uuid conn w
        else (ok (failed (unknown_protocol proto)), w)

    unfoldable pub start_connection : Text → Connection → World Sys → Result StartReply × World Sys
    start_connection uuid conn w =
        let pid = read_pid (pid_file uuid conn.protocol) w.files in
        if is_running os pid w.sys
        then (ok (already_running pid), w)
        else start_fresh uuid conn (cleanup_stale_iface uuid w)

  -- for _ in range(n): … else: os.kill(pid, SIGKILL)
  unfoldable pub await_exit : ℕ → ℤ → World Sys → Result (Unit {0}) × World Sys
  await_exit zero pid w = let (d, w') = kill sigkill pid w in (delivery_result d, w')
  await_exit (suc n) pid w =
      let w' = sleep 100 w in
      let more = await_exit n pid w' in
      if is_running os (some pid) w'.sys then more else (ok tt, w')

  abbrev pub after_sigterm : Delivery → ℤ → World Sys → Result (Unit {0}) × World Sys
  after_sigterm delivered pid w = await_exit 50 pid w
  after_sigterm d pid w = (delivery_result d, w)

  -- The `try` around SIGTERM and the wait.
  unfoldable pub terminate : ℤ → World Sys → Result (Unit {0}) × World Sys
  terminate pid w = let (d, w') = kill sigterm pid w in after_sigterm d pid w'

  abbrev pub clean_up : Text → Text → Result (Unit {0}) × World Sys → Result StopReply × World Sys
  clean_up uuid path (raise e, w) = (raise e, w)
  clean_up uuid path (ok u, w) =
      (ok stopped, cleanup_stale_iface uuid (record w { files = unlink path w.files }))

  abbrev pub stop_pid : Text → Text → Option ℤ → World Sys → Result StopReply × World Sys
  stop_pid uuid path none w = (ok not_running, w)
  stop_pid uuid path (some pid) w = clean_up uuid path (terminate pid w)

  unfoldable pub stop_connection : Text → Connection → World Sys → Result StopReply × World Sys
  stop_connection uuid conn w =
      let path = pid_file uuid conn.protocol in
      let pid = read_pid path w.files in
      if is_running os pid w.sys then stop_pid uuid path pid w else (ok not_running, w)
