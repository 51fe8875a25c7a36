-- ===== src/Service.antt =====
-- service.py: the commands that configd runs.
pub mod Counts
pub mod Restart
pub mod Secret
pub mod Stopped
use cf_masque_opnsense.Prelude.{
  ℕ, zero, suc, ◌+◌, ℤ, Bool, true, false, not, ◌&&◌, Option, none, some, List, [], ◌∷◌, ◌++◌, ◌==◌,
  if◌then◌else◌, is_nil, is_zero_ℤ,
}
use cf_masque_opnsense.Text.{Text, codes, text_eq, join}
use cf_masque_opnsense.Text.Number.{decimal}
use cf_masque_opnsense.Dict.{Dict, lookup, insert}
use cf_masque_opnsense.Bytes.{utf8_decode}
use cf_masque_opnsense.Base64.{b64decode}
use cf_masque_opnsense.Outcome.{Failure, Result, ok, raise, value_error, require, ◌>>=◌}
use cf_masque_opnsense.Config.{Config, Connection}
use cf_masque_opnsense.Files.{Files}
use cf_masque_opnsense.Secrets.{Crypto, set_secret, del_secret}
use cf_masque_opnsense.Process.{
  Os, World, pid_file, read_pid, is_running, connection_running, config_of,
}
use cf_masque_opnsense.Lifecycle.{
  StartReply, StopReply, start_result, stop_result, start_connection, stop_connection,
}

-- The next step of a command that may have raised.
abbrev pub and_then {ℓ} : {S A B : Type ℓ} → Result A × S → (A → S → Result B × S) → Result B × S
and_then (ok a, w) f = f a w
and_then (raise e, w) f = (raise e, w)

-- prefix + ', '.join(results) if results else 'no connections'
unfoldable pub summary : Text → List Text → Text
unfolding join
summary prefix [] = codes "no connections"
summary prefix (r ∷ rs) = prefix ++ join (codes ", ") (r ∷ rs)

unfoldable pub line_of : Connection → Text → Text
line_of conn result = conn.name ++ (codes ": " ++ result)

-- One connection in the answer of `allstatus`.
pub record Status : Type 0 where
  pub name : Text
  pub protocol : Text
  pub status : Text
  pub pid : Option ℤ
  pub client_ipv4 : Text
  pub uptime : Option Text

-- The answer of `connstatus`.
pub record ConnectionStatus : Type 0 where
  pub uuid : Text
  pub name : Text
  pub protocol : Text
  pub status : Text
  pub pid : Option ℤ
  pub client_ipv4 : Text
  pub client_ipv6 : Text
  pub registration_status : Text
  pub uptime : Option Text

abbrev pub if_running {ℓ} : {A : Type ℓ} → Bool → Option A → Option A
if_running true o = o
if_running false o = none

unfoldable pub status_text : Config → ℕ × ℕ → Text
status_text cfg (active, total) =
    if not cfg.enabled
    then codes "disabled"
    else if total == 0
    then codes "no connections configured"
    else codes "running ("
      ++ (decimal active ++ (codes "/" ++ (decimal total ++ codes " connections active)")))

module _ (os : Os) where
  open os use {Sys, sleep, etime}

  -- for uuid, conn in cfg['connections'].items(): stop
  unfoldable pub stop_all : Dict Connection → World Sys → Result (List Text) × World Sys
  stop_all [] w = (ok [], w)
  stop_all ((uuid, conn) ∷ more) w =
      and_then (stop_connection os uuid conn w)
        λ r w1. and_then (stop_all more w1) λ rs w2. (ok (line_of conn (stop_result r) ∷ rs), w2)

  abbrev pub on_config :
      {A : Type 0}
      → Result Config
      → World Sys
      → (Config → World Sys → Result A × World Sys)
      → Result A × World Sys
  on_config (raise e) w f = (raise e, w)
  on_config (ok cfg) w f = f cfg w

  unfoldable pub cmd_stop : World Sys → Result Text × World Sys
  cmd_stop w = on_config (config_of w.files) w λ cfg w1.
      and_then (stop_all cfg.connections w1) λ rs w2. (ok (summary (codes "stopped: ") rs), w2)

  -- The counters of cmd_status: (active, total).
  unfoldable pub count_running : Dict Connection → World Sys → ℕ × ℕ
  count_running [] w = (0, 0)
  count_running ((uuid, conn) ∷ more) w =
      let (active, total) = count_running more w in
      if conn.enabled
      then (if connection_running os uuid conn.protocol w
          then (active + 1, total + 1)
          else (active, total + 1))
      else (active, total)

  unfoldable pub cmd_status : World Sys → Result Text
  cmd_status w = do cfg ← config_of w.files; ok (status_text cfg (count_running cfg.connections w))

  -- _get_uptime
  unfoldable pub get_uptime : Option ℤ → World Sys → Option Text
  get_uptime none w = none
  get_uptime (some pid) w =
      let out = etime pid w.sys in
      if is_zero_ℤ pid then none else if is_nil out then none else some out

  unfoldable pub status_of : Text → Connection → World Sys → Status
  status_of uuid conn w =
      let p = read_pid (pid_file uuid conn.protocol) w.files in
      let running = is_running os p w.sys in
      record {
        name = conn.name;
        protocol = conn.protocol;
        status =
            if running
            then codes "connected"
            else if conn.enabled
            then codes "stopped"
            else codes "disabled";
        pid = if_running running p;
        client_ipv4 = conn.client_ipv4;
        uptime = if_running running (get_uptime p w);
      }

  unfoldable pub statuses : Dict Connection → World Sys → Dict Status
  statuses [] w = []
  statuses ((uuid, conn) ∷ more) w = (uuid, status_of uuid conn w) ∷ statuses more w

  -- The overall word and the connections.
  unfoldable pub cmd_allstatus : World Sys → Result (Text × Dict Status)
  cmd_allstatus w = do
    cfg ← config_of w.files
    ok (if not cfg.enabled then codes "disabled" else codes "running", statuses cfg.connections w)

  unfoldable pub connection_status : Text → Connection → World Sys → ConnectionStatus
  connection_status uuid conn w =
      let p = read_pid (pid_file uuid conn.protocol) w.files in
      let running = is_running os p w.sys in
      record {
        uuid = uuid;
        name = conn.name;
        protocol = conn.protocol;
        status = if running then codes "connected" else codes "stopped";
        pid = if_running running p;
        client_ipv4 = conn.client_ipv4;
        client_ipv6 = conn.client_ipv6;
        registration_status = conn.registration_status;
        uptime = if_running running (get_uptime p w);
      }

  -- cmd_connstatus; `none` is the answer not_found.
  unfoldable pub cmd_connstatus : Text → World Sys → Result (Option ConnectionStatus)
  cmd_connstatus uuid w = do
    cfg ← config_of w.files
    ok (elim (lookup uuid cfg.connections) [
      | none ↦ none
      | some conn ↦ some (connection_status uuid conn w)
    ])

  abbrev pub stop_found :
      Text → Option Connection → World Sys → Result (Option StopReply) × World Sys
  stop_found uuid none w = (ok none, w)
  stop_found uuid (some conn) w =
      and_then (stop_connection os uuid conn w) λ r w1. (ok (some r), w1)

  -- cmd_stopconn; `none` is the answer that the connection was not found.
  unfoldable pub cmd_stopconn : Text → World Sys → Result (Option StopReply) × World Sys
  cmd_stopconn uuid w =
      on_config (config_of w.files) w λ cfg w1. stop_found uuid (lookup uuid cfg.connections) w1

  module _ (crypto : Crypto) where
    abbrev pub start_one : Text → Connection → World Sys → Result (List Text) × World Sys
    start_one uuid conn w =
        and_then (start_connection os crypto uuid conn w)
          λ r w1. (ok (line_of conn (start_result r) ∷ []), w1)

    -- for uuid, conn in cfg['connections'].items(): start if enabled
    unfoldable pub start_all : Dict Connection → World Sys → Result (List Text) × World Sys
    start_all [] w = (ok [], w)
    start_all ((uuid, conn) ∷ more) w =
        and_then (if conn.enabled then start_one uuid conn w else (ok [], w))
          λ r w1. and_then (start_all more w1) λ rs w2. (ok (r ++ rs), w2)

    unfoldable pub cmd_start : World Sys → Result Text × World Sys
    cmd_start w = on_config (config_of w.files) w λ cfg w1.
        if not cfg.enabled
        then (ok (codes "disabled"), w1)
        else and_then (start_all cfg.connections w1)
            λ rs w2. (ok (summary (codes "started: ") rs), w2)

    unfoldable pub cmd_restart : World Sys → Result Text × World Sys
    cmd_restart w = and_then (cmd_stop w) λ _ w1. cmd_start (sleep 1000 w1)

    abbrev pub start_found :
        Text → Option Connection → World Sys → Result (Option StartReply) × World Sys
    start_found uuid none w = (ok none, w)
    start_found uuid (some conn) w =
        and_then (start_connection os crypto uuid conn w) λ r w1. (ok (some r), w1)

    -- cmd_startconn; `none` is the answer that the connection was not found.
    unfoldable pub cmd_startconn : Text → World Sys → Result (Option StartReply) × World Sys
    cmd_startconn uuid w =
        on_config (config_of w.files) w λ cfg w1. start_found uuid (lookup uuid cfg.connections) w1

-- The `try` of cmd_setsecret: the new files, or the failure that the answer reports.
unfoldable pub try_setsecret : Crypto → List ℕ → Text → Text → Files → Result Files
try_setsecret crypto iv key value_b64 fs = do
  b ← require value_error (b64decode value_b64)
  value ← require value_error (utf8_decode b)
  set_secret crypto iv key value fs

abbrev pub answer : Result Files → Files → Option Failure × Files
answer (ok fs') fs = (none, fs')
answer (raise e) fs = (some e, fs)

-- cmd_setsecret: `none` is the answer ok.
unfoldable pub cmd_setsecret : Crypto → List ℕ → Text → Text → Files → Option Failure × Files
cmd_setsecret crypto iv key value_b64 fs = answer (try_setsecret crypto iv key value_b64 fs) fs

unfoldable pub cmd_delsecret : Text → Files → Files
cmd_delsecret key fs = del_secret key fs
