-- ===== src/Cli/Probes.antt =====
-- The dispatch of monitor.py. What it prints stays the value of the command, since the latency of a
-- probe is a float that is not modelled.
use cf_masque_opnsense.Prelude.{ℕ, ℤ, pos, List, [], ◌∷◌, ◌++◌, if◌then◌else◌}
use cf_masque_opnsense.Text.{Text, codes, text_eq}
use cf_masque_opnsense.Text.Number.{int}
use cf_masque_opnsense.Outcome.{Result, ok, value_error, require}
use cf_masque_opnsense.Process.{Os}
use cf_masque_opnsense.Diagnostics.{
  Probes, Probe, Report, Stats, cmd_ping, cmd_diagnostics, cmd_stats,
}
use cf_masque_opnsense.Logs.{LogTools, LogReply, cmd_logs}
use cf_masque_opnsense.Program.{Program, return, lift, ◌>>=◌}
use cf_masque_opnsense.Cli.{Exit, exit, with_arg}

-- What monitor.py prints.
pub data Printed : Type 0 where
  probes : List Probe → Printed
  diagnosis : Report → Printed
  interface_stats : Stats → Printed
  log_entries : LogReply → Printed
  failure : Text → Printed

-- int(args[1]) if len(args) > 1 else 100
unfoldable pub lines_arg : List Text → Result ℤ
lines_arg (uuid ∷ (n ∷ more)) = require value_error (int n)
lines_arg _ = ok (pos 100)

-- `depth` is how many more calls Python's limit on the recursion allows.
module _ (os : Os) (sockets : Probes os.Sys) (tools : LogTools) (depth : ℕ) where
  open os use {Sys}

  abbrev pub print_as : {A : Type 0} → (A → Printed) → Program Sys A → Program Sys (Exit Printed)
  print_as encode m = m >>= λ a. return (exit 0 (encode a))

  abbrev pub ping_program : Program Sys (List Probe)
  ping_program w = let (ps, s) = cmd_ping os sockets w.sys in (ok ps, record w { sys = s })

  -- The number of lines is read before the logs.
  abbrev pub logs_program : Text → List Text → Program Sys LogReply
  logs_program uuid args =
      lift (lines_arg args) >>= λ lines w. (cmd_logs tools uuid lines w.files, w)

  unfoldable pub probes_command : Text → List Text → Program Sys (Exit Printed)
  unfolding lines_arg with_arg
  probes_command cmd args =
      if text_eq cmd (codes "ping")
      then print_as probes ping_program
      else with_arg (text_eq cmd (codes "diagnostics")) args
          (λ uuid. print_as diagnosis (cmd_diagnostics os sockets depth uuid))
          (with_arg (text_eq cmd (codes "stats")) args
            (λ uuid. print_as interface_stats (cmd_stats os sockets uuid))
            (with_arg (text_eq cmd (codes "logs")) args
              (λ uuid. print_as log_entries (logs_program uuid args))
              (return (exit 1 (failure (codes "Unknown command: " ++ cmd))))))

  -- sys.argv[1:]
  unfoldable pub probes_main : List Text → Program Sys (Exit Printed)
  unfolding probes_command
  probes_main [] = return (exit 1 (failure (codes "No command")))
  probes_main (cmd ∷ args) = probes_command cmd args
