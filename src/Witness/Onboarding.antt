-- ===== src/Witness/Onboarding.antt =====
-- An enrolment and a start after it, at a concrete input.
use cf_masque_opnsense.Prelude.{◌≡◌, refl, true, some, [], ◌∷◌}
use cf_masque_opnsense.Text.{text_eq, one_of}
use cf_masque_opnsense.Dict.{lookup, insert}
use cf_masque_opnsense.Config.{get_config}
use cf_masque_opnsense.Config.Xml.{tag}
use cf_masque_opnsense.Text.Number.{digits_after}
use cf_masque_opnsense.Files.{plain, read}
use cf_masque_opnsense.Process.{World, is_warp, config_of, connection_running}
use cf_masque_opnsense.Lifecycle.{cfzt_warp_bin}
use cf_masque_opnsense.Service.{cmd_startconn}
use cf_masque_opnsense.Recovery.Enrolled.{cmd_startconn-cmd_enroll}
use cf_masque_opnsense.Witness.Toys.{toy_crypto, toy_laws}
use cf_masque_opnsense.Witness.Keys.{toy_tools}
use cf_masque_opnsense.Witness.Monitor.{daemon_os, daemon_laws}
use cf_masque_opnsense.Witness.Renewals.{conn0, listed0}
use cf_masque_opnsense.Witness.Enrolment.{
  toy_keep, toy_random, accepting, uuid, tree, cfg0, registered_world, registered_config,
  registered_tree, one_node, done_world, enrol_works,
}

-- The files after the enrolment, with the binary installed.
abbrev installed_world : World daemon_os.Sys
installed_world = record {
  files = (cfzt_warp_bin, record { content = plain []; mode = 0o755 }) ∷ done_world.files;
  sys = true;
}

same_config : config_of installed_world.files ≡ config_of done_world.files
unfolding config_of read lookup text_eq
same_config = refl

binary_there : read cfzt_warp_bin installed_world.files ≡ some (plain [])
unfolding read lookup text_eq
binary_there = refl

for_warp : is_warp conn0.protocol ≡ true
unfolding get_config lookup insert tag text_eq digits_after one_of
for_warp = refl

cmd_startconn-cmd_enroll_example :
    connection_running daemon_os uuid conn0.protocol
      (cmd_startconn daemon_os toy_crypto uuid installed_world).1
    ≡ true
cmd_startconn-cmd_enroll_example =
    cmd_startconn-cmd_enroll toy_crypto toy_laws toy_tools toy_keep accepting (toy_random _)
      daemon_os daemon_laws uuid registered_world cfg0 tree conn0 installed_world (plain [])
      registered_config registered_tree one_node listed0 for_warp enrol_works same_config
      binary_there
