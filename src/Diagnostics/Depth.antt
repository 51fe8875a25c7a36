-- ===== src/Diagnostics/Depth.antt =====
-- How deep the calls of cmd_diagnostics go.
use cf_masque_opnsense.Text.{Text, codes}
use cf_masque_opnsense.Dict.{Dict}
use cf_masque_opnsense.Config.{Config}
use cf_masque_opnsense.Program.{Program}

abbrev all_name : Text
all_name = codes "all"
