-- ===== src/Recovery.antt =====
-- The monitor, configd and service.py together: the monitor restarts a connection by `configctl`,
-- which has configd run `service.py startconn` (actions_cloudflarezt.conf).
pub mod Steady
pub mod Started
pub mod Command
pub mod Checks
pub mod Rounds
pub mod Enrolled
use cf_masque_opnsense.Prelude.{
  Bool, true, false, ◌&&◌, Option, none, some, List, [], ◌∷◌, if◌then◌else◌,
}
use cf_masque_opnsense.Text.{Text, codes, text_eq}
use cf_masque_opnsense.Secrets.{Crypto}
use cf_masque_opnsense.Process.{Os, World}
use cf_masque_opnsense.Service.{cmd_startconn}

-- The uuid of a call of the action `startconn`.
abbrev pub startconn_of : List Text → Option Text
startconn_of (program ∷ (plugin ∷ (action ∷ (uuid ∷ [])))) =
    if text_eq program (codes "/usr/local/sbin/configctl")
      && text_eq plugin (codes "cloudflarezt")
      && text_eq action (codes "startconn")
    then some uuid
    else none
startconn_of _ = none

module _ (os : Os) (crypto : Crypto) where
  open os use {Sys, run}

  abbrev pub act_on : Option Text → List Text → World Sys → World Sys
  act_on none command w = run command w
  act_on (some uuid) command w = (cmd_startconn os crypto uuid w).1

  -- The system on which the monitor runs, with configd.
  abbrev pub with_configd : Os
  with_configd = record os { run = λ command w. act_on (startconn_of command) command w }
