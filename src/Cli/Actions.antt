-- ===== src/Cli/Actions.antt =====
-- The actions of configd for the plugin, with the scripts that they run
-- (net/cloudflare-zt/src/opnsense/service/conf/actions.d/actions_cloudflarezt.conf).
use cf_masque_opnsense.Prelude.{
  ℕ, zero, suc, ◌≡◌, refl, Bool, true, false, List, [], ◌∷◌, ◌++◌, ◌||◌, All,
}
use mathlib.Core.List.{Memᴰ}
use cf_masque_opnsense.Text.{Text, codes, text_eq}
use cf_masque_opnsense.Cli.Forms.{accepts, known, enough}
use cf_masque_opnsense.Cli.Commands.{service_forms, probes_forms, dns_forms, api_forms}
use cf_masque_opnsense.Cli.WarpCommands.{warp_forms}
use cf_masque_opnsense.Cli.Daemons.{monitor_command}

pub data Script : Type 0 where
  service_py warp_py cfzt_api_py monitor_py dns_py cfzt_monitor_py : Script

-- An action: its script, the words before its parameters, and how many parameters it has.
pub record Action : Type 0 where
  pub name : Text
  pub script : Script
  pub words : List Text
  pub parameters : ℕ

abbrev action : Text → Script → Text → ℕ → Action
action n s word k = record { name = n; script = s; words = word ∷ []; parameters = k }

abbrev pub actions : List Action
actions =
    action (codes "start") service_py (codes "start") 0
    ∷ action (codes "stop") service_py (codes "stop") 0
    ∷ action (codes "restart") service_py (codes "restart") 0
    ∷ action (codes "status") service_py (codes "status") 0
    ∷ action (codes "allstatus") service_py (codes "allstatus") 0
    ∷ action (codes "startconn") service_py (codes "startconn") 1
    ∷ action (codes "stopconn") service_py (codes "stopconn") 1
    ∷ action (codes "connstatus") service_py (codes "connstatus") 1
    ∷ action (codes "register") warp_py (codes "register") 2
    ∷ action (codes "enroll") warp_py (codes "enroll") 1
    ∷ action (codes "rotatekey") warp_py (codes "rotatekey") 1
    ∷ action (codes "rotatekeyscheck") warp_py (codes "rotatekeyscheck") 0
    ∷ action (codes "setsecret") service_py (codes "setsecret") 2
    ∷ action (codes "delsecret") service_py (codes "delsecret") 1
    ∷ action (codes "validatetoken") cfzt_api_py (codes "validatetoken") 1
    ∷ action (codes "diagnostics") monitor_py (codes "diagnostics") 1
    ∷ action (codes "ping") monitor_py (codes "ping") 0
    ∷ action (codes "logs") monitor_py (codes "logs") 2
    ∷ action (codes "stats") monitor_py (codes "stats") 1
    ∷ action (codes "applydns") dns_py (codes "apply") 0
    ∷ action (codes "removedns") dns_py (codes "remove") 0
    ∷ record { name = codes "startmonitor"; script = cfzt_monitor_py; words = []; parameters = 0 }
    ∷ action (codes "stopmonitor") cfzt_monitor_py (codes "stop") 0
    ∷ action (codes "monitorstatus") cfzt_monitor_py (codes "status") 0
    ∷ []

abbrev monitor_forms : List (Text × ℕ)
monitor_forms = (codes "start", 0) ∷ (codes "status", 0) ∷ (codes "stop", 0) ∷ []

-- Whether a command line is one of a script's table; cfzt_monitor.py takes none for `start`.
unfoldable pub is_known : Script → List Text → Bool
unfolding accepts
is_known service_py argv = accepts service_forms argv
is_known warp_py argv = accepts warp_forms argv
is_known cfzt_api_py argv = accepts api_forms argv
is_known monitor_py argv = accepts probes_forms argv
is_known dns_py argv = accepts dns_forms argv
is_known cfzt_monitor_py argv = accepts monitor_forms (monitor_command argv ∷ [])

-- configd fills in each parameter of an action, and passes no more words.
abbrev pub exactly : ℕ → List Text → Bool
exactly zero [] = true
exactly zero (a ∷ more) = false
exactly (suc n) [] = false
exactly (suc n) (a ∷ more) = exactly n more

abbrev Taken : Action → Type 0
Taken a =
    (params : List Text)
    → exactly a.parameters params ≡ true
    → is_known a.script (a.words ++ params) ≡ true

one_given : (params : List Text) → exactly 1 params ≡ true → (enough 1 params || false) ≡ true
one_given [] h = cc
one_given (a ∷ more) h = refl

one_of_two : (params : List Text) → exactly 2 params ≡ true → (enough 1 params || false) ≡ true
one_of_two [] h = cc
one_of_two (a ∷ more) h = refl

two_given : (params : List Text) → exactly 2 params ≡ true → (enough 2 params || false) ≡ true
two_given [] h = cc
two_given (a ∷ []) h = cc
two_given (a ∷ (b ∷ more)) h = refl

none_given : (params : List Text) → exactly 0 params ≡ true → is_known cfzt_monitor_py params ≡ true
unfolding is_known accepts known text_eq
none_given [] h = refl
none_given (a ∷ more) h = cc

Taken-All : All Taken actions
unfolding is_known accepts known text_eq
Taken-All = (
  (λ ps h. refl),
  (
    (λ ps h. refl),
    (
      (λ ps h. refl),
      (
        (λ ps h. refl),
        (
          (λ ps h. refl),
          (
            (λ ps h. one_given ps h),
            (
              (λ ps h. one_given ps h),
              (
                (λ ps h. one_given ps h),
                (
                  (λ ps h. one_of_two ps h),
                  (
                    (λ ps h. one_given ps h),
                    (
                      (λ ps h. one_given ps h),
                      (
                        (λ ps h. refl),
                        (
                          (λ ps h. two_given ps h),
                          (
                            (λ ps h. one_given ps h),
                            (
                              (λ ps h. one_given ps h),
                              (
                                (λ ps h. one_given ps h),
                                (
                                  (λ ps h. refl),
                                  (
                                    (λ ps h. one_of_two ps h),
                                    (
                                      (λ ps h. one_given ps h),
                                      (
                                        (λ ps h. refl),
                                        (
                                          (λ ps h. refl),
                                          (
                                            (λ ps h. none_given ps h),
                                            ((λ ps h. refl), ((λ ps h. refl), tt)),
                                          ),
                                        ),
                                      ),
                                    ),
                                  ),
                                ),
                              ),
                            ),
                          ),
                        ),
                      ),
                    ),
                  ),
                ),
              ),
            ),
          ),
        ),
      ),
    ),
  ),
)

listed :
    (a : Action) (known_actions : List Action)
    → All Taken known_actions
    → Memᴰ a known_actions
    → Taken a
listed a [] h m = elim m [ ]
listed a (b ∷ bs) h (Memᴰ.head e) = rw e h.0
listed a (b ∷ bs) h (Memᴰ.tail m) = listed a bs h.1 m

-- Every action of configd, with as many parameters as it takes, gives its script a command line of
-- the script's table.
pub actions-known :
    (a : Action) (params : List Text)
    → Memᴰ a actions
    → exactly a.parameters params ≡ true
    → is_known a.script (a.words ++ params) ≡ true
actions-known a params m h = listed a actions Taken-All m params h
