-- ===== src/Witness/Commands.antt =====
-- Command lines of the scripts, and the stubs script, at concrete inputs.
use mathlib.Core.List.{Memᴰ}
use cf_masque_opnsense.Prelude.{◌≡◌, refl, false, some, List, [], ◌∷◌}
use cf_masque_opnsense.Text.{Text, codes, text_eq}
use cf_masque_opnsense.Dict.{lookup}
use cf_masque_opnsense.Outcome.{Failure, ok}
use cf_masque_opnsense.Files.{Files, plain, read}
use cf_masque_opnsense.Json.Dumps.{dumps, escaped_all, escaped, unit_escape}
use cf_masque_opnsense.Json.Shown.{hex_digits}
use cf_masque_opnsense.Bytes.{hex_digit}
use cf_masque_opnsense.Json.Printed.{IsLine}
use cf_masque_opnsense.Warp.{enrolled, Rotated, count_ok}
use cf_masque_opnsense.Cli.{exit}
use cf_masque_opnsense.Cli.Forms.{Dispatched, accepts, known}
use cf_masque_opnsense.Cli.Service.{service_main}
use cf_masque_opnsense.Cli.Commands.{service_forms, service_main-Dispatched}
use cf_masque_opnsense.Cli.Warp.{warp_main, answer_json, rotated_items}
use cf_masque_opnsense.Cli.Rotation.{warp_main-IsLine, count_ok-printed_ok, printed_ok}
use cf_masque_opnsense.Cli.Actions.{Action, actions, service_py}
use cf_masque_opnsense.Cli.Configd.{Runs, actions-Runs}
use cf_masque_opnsense.Stubs.{collector, system_collector, replace_first, stubs_main, join_path}
use cf_masque_opnsense.Stubs.Applied.{lines_printed, stubs_main-made}
use cf_masque_opnsense.Witness.Toys.{toy_os, toy_crypto, toy_uuid, zeros}
use cf_masque_opnsense.Witness.Keys.{toy_tools}
use cf_masque_opnsense.Witness.Logs.{toy_logs}
use cf_masque_opnsense.Witness.Reports.{toy_probes}
use cf_masque_opnsense.Witness.Enrolment.{accepting, uuid, registered_world, enrol_works}

abbrev no_text : Failure → Text
no_text e = codes "error"

-- What json.dumps makes of a quote, a line's end, an accent and a character beyond the basic plane.
dumps_test : escaped_all (b'"' ∷ 10 ∷ 0xe9 ∷ 0x1f600 ∷ []) ≡ codes "\\\"\\n\\u00e9\\ud83d\\ude00\""
unfolding escaped_all escaped unit_escape hex_digits hex_digit
dumps_test = refl

enroll_line :
    (warp_main no_text toy_crypto toy_tools accepting
      (codes "enroll" ∷ uuid ∷ [])
      registered_world).0
    ≡ ok (exit 0 (dumps (answer_json no_text enrolled)))
unfolding warp_main lookup text_eq
enroll_line = rw enrol_works refl

warp_main-IsLine_example : IsLine (dumps (answer_json no_text enrolled))
warp_main-IsLine_example =
    warp_main-IsLine no_text toy_crypto toy_tools accepting (codes "enroll" ∷ uuid ∷ [])
      registered_world (exit 0 (dumps (answer_json no_text enrolled))) enroll_line

service_main-Dispatched_example :
    Dispatched
      (accepts service_forms (codes "setsecret" ∷ codes "k" ∷ []))
      (service_main toy_os toy_crypto (zeros 16) no_text (codes "setsecret" ∷ codes "k" ∷ []))
service_main-Dispatched_example =
    service_main-Dispatched toy_os toy_crypto (zeros 16) no_text
      (codes "setsecret" ∷ codes "k" ∷ [])

-- Without its second argument, `setsecret` is not known.
half_setsecret : accepts service_forms (codes "setsecret" ∷ codes "k" ∷ []) ≡ false
unfolding accepts known text_eq
half_setsecret = refl

abbrev startconn : Action
startconn = record {
  name = codes "startconn";
  script = service_py;
  words = codes "startconn" ∷ [];
  parameters = 1;
}

startconn_listed : Memᴰ startconn actions
startconn_listed = Memᴰ.tail (Memᴰ.tail (Memᴰ.tail (Memᴰ.tail (Memᴰ.tail (Memᴰ.head refl)))))

actions-Runs_example :
    Runs toy_os toy_crypto
      (zeros 16)
      no_text
      toy_tools
      accepting
      toy_probes
      toy_logs
      2
      3
      77
      service_py
      (codes "startconn" ∷ toy_uuid ∷ [])
actions-Runs_example =
    actions-Runs toy_os toy_crypto (zeros 16) no_text toy_tools accepting toy_probes toy_logs 2 3 77
      startconn (toy_uuid ∷ []) startconn_listed refl

abbrev rotations : List Rotated
rotations = record { uuid = uuid; name = codes "office"; result = enrolled } ∷ []

count_ok-printed_ok_example : count_ok rotations ≡ printed_ok (rotated_items no_text rotations)
count_ok-printed_ok_example = count_ok-printed_ok no_text rotations

abbrev tree_files : Files
tree_files =
    (
      codes "cf/diagnostic/network/collector_unix.go",
      record { content = plain (codes "//go:build darwin || linux"); mode = 0o644 },
    )
    ∷ (
      codes "cf/diagnostic/system_collector_linux.go",
      record { content = plain (codes "//go:build linux"); mode = 0o644 },
    )
    ∷ []

collector_there :
    read (join_path (codes "cf") collector.src) tree_files
    ≡ some (plain (codes "//go:build darwin || linux"))
unfolding read lookup text_eq
collector_there = refl

system_there :
    read (join_path (codes "cf") system_collector.src) tree_files
    ≡ some (plain (codes "//go:build linux"))
unfolding read lookup text_eq
system_there = refl

stubs_main-made_example :
    ((stubs_main (codes "cf" ∷ []) tree_files).0 ≡ ok lines_printed)
    × (read
          (codes "cf/diagnostic/network/collector_freebsd.go")
          (stubs_main (codes "cf" ∷ []) tree_files).1
        ≡ some (plain (codes "//go:build freebsd")))
unfolding text_eq replace_first
stubs_main-made_example =
    stubs_main-made (codes "cf" ∷ []) tree_files (codes "//go:build darwin || linux")
      (codes "//go:build linux") (codes "cf/diagnostic/network/collector_freebsd.go")
      collector_there system_there
