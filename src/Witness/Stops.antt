-- ===== src/Witness/Stops.antt =====
-- cmd_stop over a configuration whose daemon runs.
use cf_masque_opnsense.Prelude.{◌≡◌, refl, Bool, true, [], ◌∷◌}
use cf_masque_opnsense.Text.{Text, codes, text_eq, one_of, join}
use cf_masque_opnsense.Text.Number.{int, digits_after}
use cf_masque_opnsense.Dict.{lookup, insert}
use cf_masque_opnsense.Outcome.{ok}
use cf_masque_opnsense.Config.{get_config}
use cf_masque_opnsense.Config.Xml.{tag}
use cf_masque_opnsense.Files.{plain, xml, read}
use cf_masque_opnsense.Process.{World, config_file, config_of, pid_file, read_pid, is_running}
use cf_masque_opnsense.Lifecycle.{
  stop_connection, stop_result, terminate, await_exit, cleanup_stale_iface, destroy_iface,
  iface_file,
}
use cf_masque_opnsense.Service.{cmd_stop, stop_all, line_of, summary}
use cf_masque_opnsense.Service.Stopped.{Swept, cmd_stop-Swept}
use cf_masque_opnsense.Witness.Toys.{toy_os}
use cf_masque_opnsense.Witness.Enrolment.{uuid, tree}

-- The connection's daemon, which ignores SIGTERM, and its interface.
abbrev busy_world : World Bool
busy_world = record {
  files =
      (pid_file uuid (codes "warp_masque"), record { content = plain (codes "42"); mode = 0o644 })
      ∷ (iface_file uuid, record { content = plain (codes "cfzt0"); mode = 0o644 })
      ∷ (config_file, record { content = xml tree; mode = 0o644 })
      ∷ [];
  sys = true;
}

abbrev answer : Text
answer = codes "stopped: office: ok"

stop_answers : (cmd_stop toy_os busy_world).0 ≡ ok answer
unfolding cmd_stop stop_all stop_connection terminate await_exit cleanup_stale_iface destroy_iface
    read_pid pid_file one_of text_eq read lookup insert int digits_after is_running config_of
    get_config tag line_of stop_result summary join iface_file
stop_answers = refl

cmd_stop-Swept_example :
    Swept toy_os (λ command w. refl) busy_world (cmd_stop toy_os busy_world).1 answer
cmd_stop-Swept_example = cmd_stop-Swept toy_os (λ command w. refl) busy_world answer stop_answers
