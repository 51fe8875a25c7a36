-- ===== src/Lib.antt =====
-- Verification of the Python scripts of the Cloudflare Zero Trust plugin for OPNsense, in
-- net/cloudflare-zt/src/opnsense/scripts/CloudflareZT.
--
-- The GUI writes the plugin's settings to /conf/config.xml. `get_config` (cfzt_config.py) reads
-- them; service.py starts and stops one daemon for each connection and reports on them;
-- cfzt_monitor.py polls the daemons and restarts failed ones; cfzt_secrets.py keeps keys and
-- tokens encrypted in secrets.json; dns.py writes a file for the Unbound resolver; warp.py
-- registers devices and writes what it learns back into config.xml.
--
-- Which file models which part:
--   Text, Bytes, Base64, Dict: what the scripts use of Python's str, bytes, base64 and dict. A
--     text is its list of code points; `int` knows ASCII digits only.
--   Outcome: exceptions as values.
--   Config, Config/Settings, Config/Xml: cfzt_config.py over the tree that config.xml parses to.
--     The text after a node's end tag is not kept, and a missing text is the empty one.
--   Files: a map from paths to contents and modes; directories are not modelled.
--   Secrets: cfzt_secrets.py. HMAC-SHA256, `openssl enc` and os.urandom are parameters.
--     Secrets/Abstract has the contract of the store, a map from keys to texts.
--   Json: JSON values, with `get`, truth and `str` as Python has them on what json.loads gives, and
--     `json.dumps` (Json/Dumps). It has no floats; which characters outside ASCII `repr` prints is a
--     parameter.
--   Program: a script's function as a state transformer over the files and the system that may
--     raise, with `try`; Program/Keeps has rules for a predicate on the files that a program keeps.
--   Api: cfzt_api.py. Api/Messages has the messages of WarpAPIError, Api/Requests the WARP client
--     and Api/Dashboard the calls of the dashboard. A request keeps its body as a JSON value; the
--     network, a parameter (`Net`), answers with JSON, with a text or not at all.
--   Process: pid files and the operating system, a parameter (`Os`), whose calls may change the
--     files too, since the daemons write and remove their pid files.
--   Health: cfzt_monitor.py. Actions are decided first and then performed; lines in syslog change
--     nothing. The daemon runs for a number of rounds given as fuel, since it ends only when it is
--     told to; the sleep of one round has fuel above its interval, which is enough.
--   Lifecycle: the daemons' configuration files (Lifecycle/Daemons), start_connection and
--     stop_connection of service.py. The wait for the end of a process is a recursion on the 50
--     looks.
--   Service: the commands of service.py, whose answers are values here.
--   Recovery: cfzt_monitor.py, configd and service.py together: the monitor's restart is configd's
--     action startconn, which is cmd_startconn. Recovery/Enrolled has a start after an enrolment.
--   Cli: the command lines of the scripts, from sys.argv to what is printed and the exit code, with
--     the dicts that the answers are printed as. Python's own exceptions have a text that is a
--     parameter; an exception that is not caught is the failure of the run. Cli/Actions has the
--     actions of configd
--     (net/cloudflare-zt/src/opnsense/service/conf/actions.d/actions_cloudflarezt.conf) and
--     Cli/Forms the tables that the command lines are held against. monitor.py prints latencies,
--     which are floats: its answers stay values.
--   Stubs: scripts/cloudflared-freebsd-stubs.py.
--   Dns: dns.py, the override file for Unbound and the commands that apply and remove it.
--   Update: `_update_config_xml` of warp.py on the parsed tree; the lock has no counterpart, since
--     one operation runs at a time. Update/Reading and Update/Reloaded read the updated tree again.
--   Calendar: moments in UTC with `strptime` and `strftime` for the one format that warp.py uses.
--   Keys: cfzt_keys.py; `openssl` and the making of temporary files are parameters.
--   Rotation: the part of `cmd_rotatekeyscheck` of warp.py that finds the keys that are due.
--   Warp: cmd_enroll, cmd_rotatekey and cmd_rotatekeyscheck of warp.py, and cmd_register in
--     Warp/Register; Warp/Answers has what they read out of the answers of the API. Answers are
--     values; their messages are in Cli/Warp.
--   Logs: `_syslog_entries` and `cmd_logs` of monitor.py; grep and tail are parameters.
--   Diagnostics: the probes, `cmd_ping`, `cmd_diagnostics` and `cmd_stats` of monitor.py. A latency
--     is in nanoseconds, before its rounding; `\d` in the pattern of an address knows ASCII digits
--     only. cmd_diagnostics calls itself: its fuel is what Python's limit on the recursion leaves;
--     two calls are enough, since the diagnosis of one connection calls no other.
--   Witness: the theorems at concrete inputs.
--
-- What the scripts read from a file is a text in UTF-8, JSON or XML: a content whose bytes are no
-- UTF-8, for which a read raises, has no counterpart, nor has a secrets.json whose JSON is no object.
-- A pid in a pid file fits the system's pid_t: os.kill raises an OverflowError for others. Of
-- `subprocess.run`, the model has that the program is not found (`has_program`) for ifconfig in
-- _cleanup_stale_iface, and any exception where monitor.py calls it.
--
-- Not modelled: the working directory and directories as such; what syslog receives; the lock around
-- config.xml, since one operation runs at a time; the rounding of latencies; the package build
-- script, the PHP controllers and the Go daemon, which are other programs.
pub mod Prelude
pub mod Text
pub mod Bytes
pub mod Base64
pub mod Dict
pub mod Outcome
pub mod Config
pub mod Files
pub mod Secrets
pub mod Process
pub mod Health
pub mod Lifecycle
pub mod Service
pub mod Dns
pub mod Program
pub mod Api
pub mod Json
pub mod Calendar
pub mod Logs
pub mod Diagnostics
pub mod Recovery
pub mod Cli
pub mod Stubs
pub mod Keys
pub mod Rotation
pub mod Update
pub mod Warp
mod Witness
