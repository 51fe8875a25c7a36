-- ===== src/Cli/WarpCommands.antt =====
-- The table of the commands of warp.py, and its dispatch.
use cf_masque_opnsense.Prelude.{ℕ, ◌≡◌, true, false, List, [], ◌∷◌, ◌++◌, Bool-cases, inl, inr}
use cf_masque_opnsense.Text.{Text, codes, text_eq}
use cf_masque_opnsense.Text.Equality.{text_eq→eq, text_eq_sym}
use cf_masque_opnsense.Outcome.{Failure}
use cf_masque_opnsense.Secrets.{Crypto}
use cf_masque_opnsense.Dict.{lookup}
use cf_masque_opnsense.Json.Dumps.{dumps}
use cf_masque_opnsense.Keys.{Tools}
use cf_masque_opnsense.Api.{Net}
use cf_masque_opnsense.Program.{Program}
use cf_masque_opnsense.Cli.{Exit, failed_dict}
use cf_masque_opnsense.Cli.Warp.{warp_main, warp_run, warp_dispatch}
use cf_masque_opnsense.Cli.Forms.{accepts, known, Dispatched, return-Dispatched, printing-Serves}

abbrev pub warp_forms : List (Text × ℕ)
warp_forms =
    (codes "register", 1)
    ∷ (codes "enroll", 1)
    ∷ (codes "rotatekey", 1)
    ∷ (codes "rotatekeyscheck", 0)
    ∷ []

module _ (own : Failure → Text) (crypto : Crypto) (tools : Tools) (net : Net tools.Sys) where
  abbrev run_of : Text → List Text → Program tools.Sys (Exit Text)
  run_of cmd args =
      warp_run own crypto tools net cmd args (lookup cmd (warp_dispatch own crypto tools net args))

  register_run :
      (args : List Text)
      → Dispatched (known warp_forms (codes "register") args) (run_of (codes "register") args)
  unfolding known Dispatched lookup text_eq
  register_run [] = return-Dispatched tools.Sys _
  register_run (a ∷ more) = printing-Serves dumps _

  enroll_run :
      (args : List Text)
      → Dispatched (known warp_forms (codes "enroll") args) (run_of (codes "enroll") args)
  unfolding known Dispatched lookup text_eq
  enroll_run [] = return-Dispatched tools.Sys _
  enroll_run (a ∷ more) = printing-Serves dumps _

  rotatekey_run :
      (args : List Text)
      → Dispatched (known warp_forms (codes "rotatekey") args) (run_of (codes "rotatekey") args)
  unfolding known Dispatched lookup text_eq
  rotatekey_run [] = return-Dispatched tools.Sys _
  rotatekey_run (a ∷ more) = printing-Serves dumps _

  check_run :
      (args : List Text)
      → Dispatched
          (known warp_forms (codes "rotatekeyscheck") args)
          (run_of (codes "rotatekeyscheck") args)
  unfolding known Dispatched lookup text_eq
  check_run [] = printing-Serves dumps _
  check_run (a ∷ more) = printing-Serves dumps _

  -- What is said of a command by its name.
  by_name : (name cmd : Text) (P : Text → Type 0) → text_eq cmd name ≡ true → P name → P cmd
  by_name name cmd P e h = rw (text_eq→eq cmd name e) h

  unknown :
      (cmd : Text) (args : List Text)
      → text_eq cmd (codes "register") ≡ false
      → text_eq cmd (codes "enroll") ≡ false
      → text_eq cmd (codes "rotatekey") ≡ false
      → text_eq cmd (codes "rotatekeyscheck") ≡ false
      → Dispatched (known warp_forms cmd args) (run_of cmd args)
  unfolding known lookup
  unknown cmd args e1 e2 e3 e4 =
      rw
        (
          e1,
          e2,
          e3,
          e4,
          text_eq_sym (codes "register") cmd,
          e1,
          text_eq_sym (codes "enroll") cmd,
          e2,
          text_eq_sym (codes "rotatekey") cmd,
          e3,
          text_eq_sym (codes "rotatekeyscheck") cmd,
          e4,
        )
        (return-Dispatched tools.Sys
          (dumps (failed_dict (codes "Unknown command or missing args: " ++ cmd))))

  run_of-Dispatched :
      (cmd : Text) (args : List Text) → Dispatched (known warp_forms cmd args) (run_of cmd args)
  run_of-Dispatched cmd args = elim (Bool-cases (text_eq cmd (codes "register"))) [
    | inl e ↦
        by_name (codes "register") cmd (λ c. Dispatched (known warp_forms c args) (run_of c args)) e
          (register_run args)
    | inr e1 ↦ elim (Bool-cases (text_eq cmd (codes "enroll"))) [
      | inl e ↦
          by_name (codes "enroll") cmd (λ c. Dispatched (known warp_forms c args) (run_of c args)) e
            (enroll_run args)
      | inr e2 ↦ elim (Bool-cases (text_eq cmd (codes "rotatekey"))) [
        | inl e ↦
            by_name (codes "rotatekey") cmd
              (λ c. Dispatched (known warp_forms c args) (run_of c args)) e (rotatekey_run args)
        | inr e3 ↦ elim (Bool-cases (text_eq cmd (codes "rotatekeyscheck"))) [
          | inl e ↦
              by_name (codes "rotatekeyscheck") cmd
                (λ c. Dispatched (known warp_forms c args) (run_of c args)) e (check_run args)
          | inr e4 ↦ unknown cmd args e1 e2 e3 e4
        ]
      ]
    ]
  ]

  -- A command line of warp.py that its table knows runs to code 0 or raises; any other changes
  -- nothing and ends with code 1.
  pub warp_main-Dispatched :
      (argv : List Text)
      → Dispatched (accepts warp_forms argv) (warp_main own crypto tools net argv)
  unfolding warp_main accepts
  warp_main-Dispatched [] = return-Dispatched tools.Sys (dumps (failed_dict (codes "No command")))
  warp_main-Dispatched (cmd ∷ args) = run_of-Dispatched cmd args
