-- ===== src/Cli/Commands.antt =====
-- The tables of the commands of service.py, monitor.py, dns.py and cfzt_api.py, and the dispatch of
-- each.
use cf_masque_opnsense.Prelude.{ℕ, refl, Option, List, [], ◌∷◌, ◌++◌, inr}
use cf_masque_opnsense.Text.{Text, codes}
use cf_masque_opnsense.Outcome.{Failure, ok}
use cf_masque_opnsense.Secrets.{Crypto}
use cf_masque_opnsense.Process.{Os}
use cf_masque_opnsense.Json.Dumps.{dumps}
use cf_masque_opnsense.Api.{Net}
use cf_masque_opnsense.Diagnostics.{Probes}
use cf_masque_opnsense.Logs.{LogTools}
use cf_masque_opnsense.Program.{return, ◌>>=◌}
use cf_masque_opnsense.Cli.{exit, failed_dict}
use cf_masque_opnsense.Dns.{apply_dns, remove_dns}
use cf_masque_opnsense.Cli.Daemons.{dns_command, dns_main, dns_reply_text, api_main}
use cf_masque_opnsense.Cli.Probes.{
  probes, log_entries, failure, ping_program, logs_program, probes_command, probes_main,
}
use cf_masque_opnsense.Cli.Forms.{
  accepts, known, Serves, Dispatched, return-Dispatched, last-Dispatched, if-Dispatched,
  with_arg-Dispatched, with_args-Dispatched, printing-Serves,
}
use cf_masque_opnsense.Cli.Service.{
  service_main, service_command, secret_dict, set_secret_program, del_secret_program,
}

abbrev pub service_forms : List (Text × ℕ)
service_forms =
    (codes "start", 0)
    ∷ (codes "stop", 0)
    ∷ (codes "restart", 0)
    ∷ (codes "status", 0)
    ∷ (codes "allstatus", 0)
    ∷ (codes "startconn", 1)
    ∷ (codes "stopconn", 1)
    ∷ (codes "connstatus", 1)
    ∷ (codes "setsecret", 2)
    ∷ (codes "delsecret", 1)
    ∷ []

module _ (os : Os) (crypto : Crypto) (iv : List ℕ) (own : Failure → Text) where
  abbrev shown_secret : Option Failure → Text
  shown_secret e = dumps (secret_dict os crypto iv own e)

  service_command-Dispatched :
      (cmd : Text) (args : List Text)
      → Dispatched (known service_forms cmd args) (service_command os crypto iv own cmd args)
  unfolding service_command
  service_command-Dispatched cmd args = if-Dispatched cmd _ _ args _ _ (printing-Serves _ _) (
      if-Dispatched cmd _ _ args _ _ (printing-Serves _ _) (
        if-Dispatched cmd _ _ args _ _ (printing-Serves _ _) (
          if-Dispatched cmd _ _ args _ _ (printing-Serves _ _) (
            if-Dispatched cmd _ _ args _ _ (printing-Serves _ _) (
              with_arg-Dispatched cmd _ _ args _ _ (λ a. printing-Serves _ _)
                (with_arg-Dispatched cmd _ _ args _ _ (λ a. printing-Serves _ _)
                  (with_arg-Dispatched cmd _ _ args _ _ (λ a. printing-Serves _ _)
                    (with_args-Dispatched cmd _ _ args _ _
                      (λ key value_b64.
                        printing-Serves shown_secret
                          (set_secret_program os crypto iv own key value_b64))
                      (with_arg-Dispatched cmd _ _ args _ _
                        (λ key.
                          printing-Serves shown_secret (del_secret_program os crypto iv own key))
                        (last-Dispatched os.Sys cmd args
                          (dumps (failed_dict (codes "Unknown command: " ++ cmd)))))))))))))

  -- A command line of service.py that its table knows, with the arguments that the command asks
  -- for, runs to code 0 or raises; any other changes nothing and ends with code 1.
  pub service_main-Dispatched :
      (argv : List Text)
      → Dispatched (accepts service_forms argv) (service_main os crypto iv own argv)
  unfolding service_main accepts
  service_main-Dispatched [] = return-Dispatched os.Sys (codes "no command")
  service_main-Dispatched (cmd ∷ args) = service_command-Dispatched cmd args

abbrev pub probes_forms : List (Text × ℕ)
probes_forms =
    (codes "ping", 0) ∷ (codes "diagnostics", 1) ∷ (codes "stats", 1) ∷ (codes "logs", 1) ∷ []

module _ (os : Os) (sockets : Probes os.Sys) (tools : LogTools) (depth : ℕ) where
  probes_command-Dispatched :
      (cmd : Text) (args : List Text)
      → Dispatched (known probes_forms cmd args) (probes_command os sockets tools depth cmd args)
  unfolding probes_command
  probes_command-Dispatched cmd args =
      if-Dispatched cmd _ _ args _ _ (printing-Serves probes (ping_program os sockets tools depth))
        (with_arg-Dispatched cmd _ _ args _ _ (λ a. printing-Serves _ _)
          (with_arg-Dispatched cmd _ _ args _ _ (λ a. printing-Serves _ _)
            (with_arg-Dispatched cmd _ _ args _ _
              (λ a. printing-Serves log_entries (logs_program os sockets tools depth a args))
              (last-Dispatched os.Sys cmd args (failure (codes "Unknown command: " ++ cmd))))))

  -- A command line of monitor.py that its table knows runs to code 0 or raises; any other changes
  -- nothing and ends with code 1.
  pub probes_main-Dispatched :
      (argv : List Text)
      → Dispatched (accepts probes_forms argv) (probes_main os sockets tools depth argv)
  unfolding probes_main accepts
  probes_main-Dispatched [] = return-Dispatched os.Sys (failure (codes "No command"))
  probes_main-Dispatched (cmd ∷ args) = probes_command-Dispatched cmd args

abbrev pub dns_forms : List (Text × ℕ)
dns_forms = (codes "apply", 0) ∷ (codes "remove", 0) ∷ []

module _ (os : Os) where
  removed-Serves : Serves (λ w. (ok (exit 0 (codes "removed")), remove_dns os w))
  unfolding Serves
  removed-Serves w = inr (exit 0 (codes "removed"), refl, refl)

  dns_command-Dispatched :
      (cmd : Text) (args : List Text) → Dispatched (known dns_forms cmd args) (dns_command os cmd)
  unfolding dns_command
  dns_command-Dispatched cmd args =
      if-Dispatched cmd _ _ args _ _
        (printing-Serves (λ t. t) (apply_dns os >>= λ r. return (dns_reply_text r)))
        (if-Dispatched cmd _ _ args _ _ removed-Serves (
          last-Dispatched os.Sys cmd args (dumps (failed_dict (codes "Unknown command: " ++ cmd)))))

  -- `apply` and `remove` of dns.py run to code 0 or raise; any other command line changes nothing
  -- and ends with code 1.
  pub dns_main-Dispatched :
      (argv : List Text) → Dispatched (accepts dns_forms argv) (dns_main os argv)
  unfolding dns_main accepts
  dns_main-Dispatched [] = return-Dispatched os.Sys (codes "Usage: dns.py <apply|remove>")
  dns_main-Dispatched (cmd ∷ args) = dns_command-Dispatched cmd args

abbrev pub api_forms : List (Text × ℕ)
api_forms = (codes "validatetoken", 1) ∷ []

-- `validatetoken` of cfzt_api.py with an organization runs to code 0 or raises; any other command
-- line changes nothing and ends with code 1.
pub api_main-Dispatched :
    {S : Type 0} (net : Net S) (crypto : Crypto) (argv : List Text)
    → Dispatched (accepts api_forms argv) (api_main net crypto argv)
unfolding api_main accepts
api_main-Dispatched {S} net crypto [] =
    return-Dispatched S (dumps (failed_dict (codes "No command")))
api_main-Dispatched {S} net crypto (cmd ∷ args) =
    with_arg-Dispatched cmd _ [] args _ _ (λ a. printing-Serves _ _)
      (last-Dispatched S cmd args (dumps (failed_dict (codes "Unknown command: " ++ cmd))))
