-- ===== src/Process.antt =====
-- What the scripts share about processes: the paths of pid files, `_pid_file`, `_read_pid` and
-- `_is_running`, which service.py, monitor.py and cfzt_monitor.py declare alike, and the operating
-- system, a parameter of the model.
pub mod Laws
use cf_masque_opnsense.Prelude.{
  ℕ, ℤ, Bool, true, false, Option, none, some, List, [], ◌∷◌, ◌++◌, if◌then◌else◌, is_zero_ℤ,
}
use cf_masque_opnsense.Text.{Text, codes, strip, one_of}
use cf_masque_opnsense.Text.Number.{int}
use cf_masque_opnsense.Config.{Config, get_config}
use cf_masque_opnsense.Config.Xml.{Element}
use cf_masque_opnsense.Outcome.{Result}
use cf_masque_opnsense.Files.{Files, Content, plain, xml, read}

-- The result of os.kill: done, ProcessLookupError, PermissionError.
pub data Delivery : Type 0 where
  delivered no_such_process not_permitted : Delivery

pub data Signal : Type 0 where
  sigterm sigkill : Signal

pub record World (S : Type 0) : Type 0 where
  pub files : Files
  pub sys : S

-- Everything may change the files too: the daemons write and remove their pid files.
pub record Os : Type 1 where
  pub Sys : Type 0
  -- os.kill(pid, 0)
  pub probe : ℤ → Sys → Delivery
  -- os.kill(pid, sig)
  pub kill : Signal → ℤ → World Sys → Delivery × World Sys
  -- time.sleep, in milliseconds
  pub sleep : ℕ → World Sys → World Sys
  -- whether subprocess.run finds the program; FileNotFoundError if not
  pub has_program : Text → Sys → Bool
  -- subprocess.run, its result being dropped, and its failures where the scripts catch them
  pub run : List Text → World Sys → World Sys
  -- subprocess.Popen: the pid
  pub spawn : List Text → World Sys → ℤ × World Sys
  -- proc.poll(): the exit code of a child that has ended
  pub poll : ℤ → Sys → Option ℤ
  -- ps -o etime= -p: the output, stripped; empty on failure
  pub etime : ℤ → Sys → Text
  -- whether the handler of SIGTERM and SIGINT has been called
  pub terminated : Sys → Bool

abbrev pub is_warp : Text → Bool
is_warp proto = one_of proto (codes "warp_masque" ∷ codes "warp_wireguard" ∷ [])

-- _pid_file
unfoldable pub pid_file : Text → Text → Text
unfolding one_of
pid_file uuid proto =
    let prefix = if is_warp proto then codes "cfzt-warp" else codes "cloudflared" in
    codes "/var/run/" ++ (prefix ++ (codes "-" ++ (uuid ++ codes ".pid")))

abbrev pub pid_of : Option Content → Option ℤ
pid_of (some (plain t)) = int (strip t)
pid_of _ = none

-- _read_pid
unfoldable pub read_pid : Text → Files → Option ℤ
read_pid path fs = pid_of (read path fs)

abbrev pub is_delivered : Delivery → Bool
is_delivered delivered = true
is_delivered _ = false

abbrev config_tree : Option Content → Option Element
config_tree (some (xml root)) = some root
config_tree _ = none

abbrev pub config_file : Text
config_file = codes "/conf/config.xml"

-- get_config() in a file system
unfoldable pub config_of : Files → Result Config
config_of fs = get_config (config_tree (read config_file fs))

module _ (os : Os) where
  open os use {Sys, probe}

  -- _is_running, for a pid that fits the system's pid_t: for another one, os.kill raises an
  -- OverflowError, which the model leaves out.
  unfoldable pub is_running : Option ℤ → Sys → Bool
  is_running none s = false
  is_running (some pid) s = if is_zero_ℤ pid then false else is_delivered (probe pid s)

  -- Whether the process of a connection's pid file answers.
  unfoldable pub connection_running : Text → Text → World Sys → Bool
  connection_running uuid proto w = is_running (read_pid (pid_file uuid proto) w.files) w.sys
