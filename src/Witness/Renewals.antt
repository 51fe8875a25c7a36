-- ===== src/Witness/Renewals.antt =====
-- When an enrolled key is due again, at a concrete input.
use cf_masque_opnsense.Prelude.{pos, ◌≡◌, refl, ◌+◌, ◌*◌, true, some, arith}
use cf_masque_opnsense.Text.{text_eq}
use cf_masque_opnsense.Text.Number.{digits_after}
use cf_masque_opnsense.Dict.{lookup, insert}
use cf_masque_opnsense.Outcome.{ok}
use cf_masque_opnsense.Calendar.{is_valid, instant}
use cf_masque_opnsense.Config.{Config, Connection, get_config}
use cf_masque_opnsense.Config.Xml.{tag}
use cf_masque_opnsense.Process.{config_of}
use cf_masque_opnsense.Rotation.{due_reason, days_since}
use cf_masque_opnsense.Warp.Fresh.{IsClock, cmd_enroll-due}
use cf_masque_opnsense.Witness.Toys.{toy_crypto, toy_laws, toy_connection}
use cf_masque_opnsense.Witness.Keys.{toy_tools}
use cf_masque_opnsense.Witness.Monitor.{record_or}
use cf_masque_opnsense.Witness.Enrolment.{
  toy_keep, toy_random, accepting, uuid, tree, cfg0, registered_world, registered_config,
  registered_tree, one_node, done_world, enrol_works,
}

accepting-IsClock : IsClock accepting.now
unfolding is_valid
accepting-IsClock = record { valid = λ s. refl; four_digits = λ s. omega arith }

abbrev pub conn0 : Connection
conn0 = record_or toy_connection (lookup uuid cfg0.connections)

pub listed0 : lookup uuid cfg0.connections ≡ some conn0
unfolding get_config lookup insert tag text_eq digits_after
listed0 = refl

rotates : conn0.auto_rotate_keys ≡ true
unfolding get_config lookup insert tag text_eq digits_after
rotates = refl

days : conn0.key_rotation_days ≡ pos 30
unfolding get_config lookup insert tag text_eq digits_after
days = refl

cmd_enroll-due_example :
    (cfg' : Config) × (conn' : Connection) × (config_of done_world.files ≡ ok cfg')
    × (lookup uuid cfg'.connections ≡ some conn')
    × (due_reason (instant (accepting.now done_world.sys) + 31 * 86_400) conn'
        ≡ some (days_since (pos 31)))
cmd_enroll-due_example =
    cmd_enroll-due toy_crypto toy_laws toy_tools toy_keep accepting (toy_random _) uuid
      accepting-IsClock registered_world cfg0 tree conn0 30 (31 * 86_400) registered_config
      registered_tree one_node listed0 rotates days enrol_works
