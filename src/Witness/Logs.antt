-- ===== src/Witness/Logs.antt =====
-- The log tail at a concrete input.
use cf_masque_opnsense.Prelude.{suc, ◌≤◌, pos, ◌≡◌, refl, none, some, [], ◌∷◌, length}
use cf_masque_opnsense.Text.{codes, text_eq}
use cf_masque_opnsense.Outcome.{ok}
use cf_masque_opnsense.Logs.{
  LogTools, LogReply, all_entries, entries_in, splitlines, is_line_end, last_entries, grep_all,
  syslog_entries, cmd_logs,
}
use cf_masque_opnsense.Logs.Bounds.{length-cmd_logs}

-- Each log file has three lines.
abbrev pub toy_logs : LogTools
toy_logs = record { grep = λ p file. some (codes "a\nb\nc\n"); tail = λ lines file. ok none }

abbrev last_two : LogReply
last_two = all_entries (codes "b" ∷ codes "c" ∷ [])

logs_work : cmd_logs toy_logs (codes "all") (pos 2) [] ≡ ok last_two
unfolding cmd_logs syslog_entries grep_all splitlines is_line_end last_entries text_eq
logs_work = refl

length-cmd_logs_example : length (entries_in last_two) ≤ suc 1
length-cmd_logs_example = length-cmd_logs toy_logs 1 (codes "all") [] last_two logs_work
