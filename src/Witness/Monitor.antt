-- ===== src/Witness/Monitor.antt =====
-- The monitor and configd over a system whose daemons write their pid files.
use cf_masque_opnsense.Prelude.{
  pos, ◌≡◌, refl, Bool, true, false, ◌||◌, Option, none, some, List, [], ◌∷◌, arith, if◌then◌else◌,
  Bool-cases, inl, inr,
}
use cf_masque_opnsense.Text.{Text, codes, text_eq, one_of, strip, is_space}
use cf_masque_opnsense.Text.Equality.{text_eq_refl}
use cf_masque_opnsense.Text.Number.{int, digits_after}
use cf_masque_opnsense.Dict.{lookup}
use cf_masque_opnsense.Outcome.{ok}
use cf_masque_opnsense.Config.{Config, Connection, get_config}
use cf_masque_opnsense.Config.Xml.{Element, element, cons, nil, tag}
use cf_masque_opnsense.Files.{Files, Content, Value, str, plain, object, xml, read, write}
use cf_masque_opnsense.Files.Laws.{read-write}
use cf_masque_opnsense.Process.{
  Os, World, delivered, config_of, config_file, pid_file, read_pid, pid_of, is_running,
  connection_running,
}
use cf_masque_opnsense.Lifecycle.{cfzt_warp_bin}
use cf_masque_opnsense.Health.{is_registered, run_monitor}
use cf_masque_opnsense.Recovery.{with_configd}
use cf_masque_opnsense.Recovery.Checks.{IsReady, IsWanted}
use cf_masque_opnsense.Recovery.Rounds.{run_monitor-Up}
use cf_masque_opnsense.Witness.Toys.{toy_uuid, toy_crypto, toy_connection}
use cf_masque_opnsense.Witness.Settings.{leaf}
use cf_masque_opnsense.Witness.Enrolment.{config_or}
use cf_masque_opnsense.Recovery.Steady.{Steady, Steady-refl}
use cf_masque_opnsense.Recovery.Started.{Supports}

-- Where the daemon writes its pid: not over the settings or the binary.
abbrev guarded : Text → Files → Files
guarded p fs =
    if text_eq p config_file || text_eq p cfzt_warp_bin then fs else write p (plain (codes "7")) fs

abbrev pid_entry : Option Value → Files → Files
pid_entry (some (str p)) fs = guarded p fs
pid_entry _ fs = fs

abbrev configured_by : Option Content → Files → Files
configured_by (some (object d)) fs = pid_entry (lookup (codes "pid_file") d) fs
configured_by _ fs = fs

abbrev daemon : List Text → Files → Files
daemon (program ∷ (option ∷ (path ∷ more))) fs = configured_by (read path fs) fs
daemon _ fs = fs

abbrev pub daemon_os : Os
daemon_os = record {
  Sys = Bool;
  probe = λ pid s. delivered;
  kill = λ signal pid w. (delivered, w);
  sleep = λ ms w. w;
  has_program = λ program s. true;
  run = λ command w. w;
  spawn = λ command w. (pos 7, record w { files = daemon command w.files });
  poll = λ pid s. none;
  etime = λ pid s. [];
  terminated = λ s. false;
}

seven_up : (s : Bool) → is_running daemon_os (pid_of (some (plain (codes "7")))) s ≡ true
unfolding is_running int digits_after strip is_space
seven_up s = refl

written_up :
    (p q : Text) (fs : Files) (s : Bool)
    → is_running daemon_os (read_pid q fs) s ≡ true
    → is_running daemon_os (read_pid q (write p (plain (codes "7")) fs)) s ≡ true
unfolding read_pid
written_up p q fs s h = elim (Bool-cases (text_eq p q)) [
  | inl e ↦ rw (read-write p q (plain (codes "7")) fs, e) (seven_up s)
  | inr e ↦ rw (read-write p q (plain (codes "7")) fs, e) h
]

apart_of : (a b : Bool) → (a || b) ≡ false → (a ≡ false) × (b ≡ false)
apart_of a b h = ground arith

write-Steady :
    (p : Text) (w : World Bool)
    → (text_eq p config_file || text_eq p cfzt_warp_bin) ≡ false
    → Steady daemon_os w (record w { files = write p (plain (codes "7")) w.files })
unfolding config_of connection_running
write-Steady p w h =
    let (a, b) = apart_of (text_eq p config_file) (text_eq p cfzt_warp_bin) h in
    record {
      config = rw (read-write p config_file (plain (codes "7")) w.files, a) refl;
      binary = rw (read-write p cfzt_warp_bin (plain (codes "7")) w.files, b) refl;
      running = λ u proto k. written_up p (pid_file u proto) w.files w.sys k;
    }

guarded-Steady :
    (p : Text) (w : World Bool) → Steady daemon_os w (record w { files = guarded p w.files })
guarded-Steady p w = elim (Bool-cases (text_eq p config_file || text_eq p cfzt_warp_bin)) [
  | inl e ↦ rw e (Steady-refl daemon_os w)
  | inr e ↦ rw e (write-Steady p w e)
]

pid_entry-Steady :
    (o : Option Value) (w : World Bool)
    → Steady daemon_os w (record w { files = pid_entry o w.files })
pid_entry-Steady (some (str p)) w = guarded-Steady p w
pid_entry-Steady _ w = Steady-refl daemon_os w

configured_by-Steady :
    (o : Option Content) (w : World Bool)
    → Steady daemon_os w (record w { files = configured_by o w.files })
configured_by-Steady (some (object d)) w = pid_entry-Steady (lookup (codes "pid_file") d) w
configured_by-Steady _ w = Steady-refl daemon_os w

daemon-Steady :
    (command : List Text) (w : World Bool)
    → Steady daemon_os w (record w { files = daemon command w.files })
daemon-Steady (program ∷ (option ∷ (path ∷ more))) w = configured_by-Steady (read path w.files) w
daemon-Steady _ w = Steady-refl daemon_os w

pid_file_guarded :
    (uuid proto : Text)
    → (text_eq (pid_file uuid proto) config_file || text_eq (pid_file uuid proto) cfzt_warp_bin)
      ≡ false
unfolding pid_file text_eq
pid_file_guarded uuid proto = refl

pub daemon_laws : Supports daemon_os
unfolding connection_running read_pid
daemon_laws = record {
  run_steady = λ program args w h. Steady-refl daemon_os w;
  spawn_steady = λ command w. daemon-Steady command w;
  sleep_steady = λ ms w. Steady-refl daemon_os w;
  comes_up = λ uuid proto w d h k.
      rw
        (
          h,
          k,
          pid_file_guarded uuid proto,
          read-write (pid_file uuid proto) (pid_file uuid proto) (plain (codes "7")) w.files,
          text_eq_refl (pid_file uuid proto),
        )
        (seven_up w.sys);
}

abbrev pub record_or : Connection → Option Connection → Connection
record_or d none = d
record_or d (some conn) = conn

-- A plugin that is enabled, with one registered connection that does not run.
abbrev pub down_tree : Element
down_tree = element (codes "opnsense") [] [] (
    cons
      (element (codes "CloudflareZT") [] [] (
        cons (element (codes "general") [] [] (cons (leaf (codes "enabled") (codes "1")) nil)) (
          cons
            (element (codes "connections") [] [] (
              cons
                (element (codes "connection") ((codes "uuid", toy_uuid) ∷ []) []
                  (cons (leaf (codes "registration_status") (codes "enrolled")) nil))
                nil))
            nil)))
      nil)

abbrev down_world : World Bool
down_world = record {
  files =
      (codes "/conf/config.xml", record { content = xml down_tree; mode = 0o644 })
      ∷ (cfzt_warp_bin, record { content = plain []; mode = 0o755 })
      ∷ [];
  sys = true;
}

abbrev pub down_config : Config
down_config = config_or (get_config (some down_tree))

abbrev pub down_connection : Connection
down_connection = record_or toy_connection (lookup toy_uuid down_config.connections)

down_configured : config_of down_world.files ≡ ok down_config
unfolding config_of get_config read tag text_eq digits_after
down_configured = refl

down-IsReady : IsReady daemon_os down_config down_world
unfolding read text_eq lookup
down-IsReady = record { configured = down_configured; binary = plain []; installed = refl }

down-IsWanted : IsWanted daemon_os toy_crypto daemon_laws down_config toy_uuid down_connection
unfolding get_config tag text_eq digits_after lookup is_registered one_of
down-IsWanted = record { listed = refl; enabled = refl; for_warp = refl; registered = refl }

down_enabled : down_config.enabled ≡ true
unfolding get_config tag text_eq digits_after lookup
down_enabled = refl

run_monitor-Up_example :
    connection_running daemon_os toy_uuid down_connection.protocol
      (run_monitor (with_configd daemon_os toy_crypto) 3 77 down_world)
    ≡ true
run_monitor-Up_example =
    run_monitor-Up daemon_os toy_crypto daemon_laws down_config toy_uuid down_connection
      down-IsWanted down_enabled 2 77 down_world down-IsReady refl
