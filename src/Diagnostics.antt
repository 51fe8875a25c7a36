-- ===== src/Diagnostics.antt =====
-- monitor.py: the probes, `cmd_ping`, `cmd_diagnostics` and `cmd_stats`. Sockets, the clock,
-- ifconfig and netstat are parameters; none of them changes a file.
mod Output
pub mod Depth
unfoldable pub use Output.*
use cf_masque_opnsense.Prelude.{
  ℕ, zero, suc, ◌-◌, ℤ, Bool, true, false, ◌||◌, ◌&&◌, Option, none, some, List, [], ◌∷◌, ◌++◌, leb,
  ◌==◌, length, if◌then◌else◌, is_nil,
}
use cf_masque_opnsense.Text.{Text, codes, text_eq, strip, strip_left, join, is_space}
use cf_masque_opnsense.Dict.{Dict, lookup}
use cf_masque_opnsense.Outcome.{Failure, Result, ok, raise, runtime_error}
use cf_masque_opnsense.Config.{Config, Connection}
use cf_masque_opnsense.Files.{Files, read}
use cf_masque_opnsense.Process.{Os, World, config_of, pid_file, read_pid, is_running}
use cf_masque_opnsense.Lifecycle.{iface_file, iface_of}
use cf_masque_opnsense.Logs.{splitlines}
use cf_masque_opnsense.Program.{Program, on_system, return, fail, from_files, continue, ◌>>=◌}

-- What came of a datagram: an answer, socket.timeout while waiting for one, another OSError.
pub data Exchange : Type 0 where
  replied silent unreachable : Exchange

pub record Probes (S : Type 0) : Type 0 where
  -- time.monotonic(), in nanoseconds
  pub monotonic : S → ℕ
  -- socket.create_connection and close: false for an OSError or a timeout
  pub connect : Text → ℕ → S → Bool × S
  -- sendto of 16 zero bytes, and recv
  pub exchange : Text → ℕ → S → Exchange × S
  -- ifconfig name: the output, `none` for TimeoutExpired and FileNotFoundError, which are caught,
  -- or what else was raised
  pub ifconfig : Text → S → Result (Option Text) × S
  -- netstat with its arguments: the output, or what was raised
  pub netstat : List Text → S → Result Text × S

pub data Transport : Type 0 where
  tcp udp : Transport

pub record Target : Type 0 where
  pub host : Text
  pub port : ℕ
  pub proto : Transport
  pub label : Text

abbrev target : Text → Transport → Text → Target
target h p l = record { host = h; port = 443; proto = p; label = l }

abbrev pub probe_targets : List Target
probe_targets =
    target (codes "162.159.198.1") udp (codes "MASQUE QUIC primary (UDP 443)")
    ∷ target (codes "162.159.198.2") tcp (codes "MASQUE HTTP/2 fallback (TCP 443)")
    ∷ target (codes "1.1.1.1") tcp (codes "Cloudflare DNS")
    ∷ target (codes "cloudflareaccess.com") tcp (codes "Cloudflare Access")
    ∷ []

-- A result of cmd_ping; the latency in nanoseconds, before it is rounded to tenths of a
-- millisecond, and only of a target that was reached.
pub record Probe : Type 0 where
  pub target_of : Target
  pub latency : Option ℕ

-- What _get_interface_stats returns, and the dict for an unknown interface.
pub data Interface : Type 0 where
  unknown : Interface
  ifconfig_failed : Text → Interface
  interface : Text → List Text → Text → Interface

pub record Diagnosis : Type 0 where
  pub uuid : Text
  pub name : Text
  pub protocol : Text
  pub running : Bool
  pub pid : Option ℤ
  pub pid_path : Text
  pub registration_status : Text
  pub device_id : Text
  pub client_ipv4 : Text
  pub client_ipv6 : Text
  pub endpoint_v4 : Text
  pub interface_stats : Interface
  pub routes : List Text
  pub connectivity : List Probe

mutual
  -- The answer of cmd_diagnostics.
  pub data Report : Type 0 where
    not_found : Text → Report
    diagnosed : Diagnosis → Report
    every : Reports → Report

  pub data Reports : Type 0 where
    done : Reports
    entry : Text → Report → Reports → Reports

-- The answer of cmd_stats.
pub data Stats : Type 0 where
  no_connection no_interface : Stats
  stats_of : Text → Text → Stats
  stats_failed : Failure → Stats

abbrev pub interface_of : Text → Result (Option Text) → Result Interface
interface_of ifname (ok none) = ok (ifconfig_failed ifname)
interface_of ifname (ok (some out)) = ok (interface ifname (find_addresses 0 out) (strip out))
interface_of ifname (raise e) = raise e

-- Every exception of the body becomes the empty list.
abbrev pub routes_in : Text → Result Text → List Text
routes_in ifname (ok out) = stripped_all (lines_with ifname (splitlines out))
routes_in ifname (raise e) = []

abbrev pub stats_in : Text → Result Text → Stats
stats_in ifname (ok out) = stats_of ifname (join (codes "\n") (lines_with ifname (splitlines out)))
stats_in ifname (raise e) = stats_failed e

abbrev pub elapsed : Bool → ℕ → ℕ → Option ℕ
elapsed true t0 t1 = some (t1 - t0)
elapsed false t0 t1 = none

abbrev pub is_reachable : Exchange → Bool
is_reachable unreachable = false
is_reachable _ = true

abbrev pub keys : {A : Type 0} → Dict A → List Text
keys [] = []
keys ((k, v) ∷ d) = k ∷ keys d

module _ (os : Os) (probes : Probes os.Sys) where
  open os use {Sys}
  open probes use {monotonic, connect, exchange, ifconfig, netstat}

  -- _tcp_probe
  unfoldable pub tcp_probe : Text → ℕ → Sys → Option ℕ × Sys
  tcp_probe host port s =
      let (reached, s') = connect host port s in (elapsed reached (monotonic s) (monotonic s'), s')

  -- _udp_probe
  unfoldable pub udp_probe : Text → ℕ → Sys → Option ℕ × Sys
  udp_probe host port s =
      let (e, s') = exchange host port s in
      (elapsed (is_reachable e) (monotonic s) (monotonic s'), s')

  abbrev pub probe_of : Transport → Text → ℕ → Sys → Option ℕ × Sys
  probe_of tcp host port s = tcp_probe host port s
  probe_of udp host port s = udp_probe host port s

  -- The loop of cmd_ping.
  unfoldable pub ping_all : List Target → Sys → List Probe × Sys
  unfolding tcp_probe udp_probe
  ping_all [] s = ([], s)
  ping_all (t ∷ ts) s =
      let (l, s1) = probe_of t.proto t.host t.port s in
      let (ps, s2) = ping_all ts s1 in (record { target_of = t; latency = l } ∷ ps, s2)

  unfoldable pub cmd_ping : Sys → List Probe × Sys
  cmd_ping s = ping_all probe_targets s

  -- _get_interface_stats
  unfoldable pub get_interface_stats : Text → Program Sys Interface
  unfolding find_addresses strip
  get_interface_stats ifname w =
      let (out, s) = ifconfig ifname w.sys in (interface_of ifname out, record w { sys = s })

  -- _get_routes_for_interface
  unfoldable pub get_routes_for_interface : Text → Sys → List Text × Sys
  unfolding lines_with splitlines strip
  get_routes_for_interface ifname s =
      let (out, s') = netstat (codes "-rn" ∷ codes "-f" ∷ codes "inet" ∷ []) s in
      (routes_in ifname out, s')

  -- The two entries of an interface, whose name may be unknown or empty.
  abbrev pub link_of : Option Text → Program Sys (Interface × List Text)
  link_of none = return (unknown, [])
  link_of (some []) = return (unknown, [])
  link_of (some (c ∷ t)) = do
    i ← get_interface_stats (c ∷ t)
    rs ← on_system (get_routes_for_interface (c ∷ t))
    return (i, rs)

  -- The dict of one connection.
  unfoldable pub diagnose : Text → Connection → Program Sys Diagnosis
  unfolding pid_file read_pid is_running iface_file
  diagnose conn_uuid conn w =
      let path = pid_file conn_uuid conn.protocol in
      let p = read_pid path w.files in
      (do
        link ← link_of (iface_of (read (iface_file conn_uuid) w.files))
        ps ← on_system cmd_ping
        return (record {
          uuid = conn_uuid;
          name = conn.name;
          protocol = conn.protocol;
          running = is_running os p w.sys;
          pid = p;
          pid_path = path;
          registration_status = conn.registration_status;
          device_id = conn.device_id;
          client_ipv4 = conn.client_ipv4;
          client_ipv6 = conn.client_ipv6;
          endpoint_v4 = conn.endpoint_v4;
          interface_stats = link.0;
          routes = link.1;
          connectivity = ps;
        }))
        w

  abbrev pub diagnose_found : Text → Option Connection → Program Sys Report
  diagnose_found conn_uuid none w = (ok (not_found conn_uuid), w)
  diagnose_found conn_uuid (some conn) w =
      continue (λ d. return (diagnosed d)) (diagnose conn_uuid conn w)

  -- The comprehension over the connections.
  unfoldable pub diagnose_each : (Text → Program Sys Report) → List Text → Program Sys Reports
  diagnose_each one [] = return done
  diagnose_each one (u ∷ us) = do r ← one u; rs ← diagnose_each one us; return (entry u r rs)

  -- The first argument is how many more calls Python's limit on the recursion allows.
  unfoldable pub cmd_diagnostics : ℕ → Text → Program Sys Report
  unfolding diagnose_each diagnose
  cmd_diagnostics zero conn_uuid = fail (runtime_error (codes "maximum recursion depth exceeded"))
  cmd_diagnostics (suc depth) conn_uuid =
      let each = (λ (cfg : Config). diagnose_each (cmd_diagnostics depth) (keys cfg.connections)) in
      if text_eq conn_uuid (codes "all")
      then (do cfg ← (λ w. (config_of w.files, w)); rs ← each cfg; return (every rs))
      else (do
        cfg ← (λ w. (config_of w.files, w))
        diagnose_found conn_uuid (lookup conn_uuid cfg.connections))

  abbrev pub stats_for : Option Text → Sys → Stats × Sys
  stats_for none s = (no_interface, s)
  stats_for (some ifname) s =
      let (out, s') = netstat (codes "-I" ∷ ifname ∷ codes "-b" ∷ codes "-n" ∷ []) s in
      (stats_in ifname out, s')

  abbrev pub stats_found : Text → Option Connection → Program Sys Stats
  stats_found conn_uuid none w = (ok no_connection, w)
  stats_found conn_uuid (some conn) w =
      on_system (stats_for (iface_of (read (iface_file conn_uuid) w.files))) w

  unfoldable pub cmd_stats : Text → Program Sys Stats
  unfolding lines_with splitlines join iface_file
  cmd_stats conn_uuid = do
    cfg ← (λ w. (config_of w.files, w))
    stats_found conn_uuid (lookup conn_uuid cfg.connections)
