-- ===== src/Health/Transitions.antt =====
-- What the monitor does about one connection over a run of checks.
use cf_masque_opnsense.Prelude.{
  ℕ, zero, suc, ◌+◌, ◌≤◌, ◌≡◌, refl, Bool, true, false, Option, none, some, List, [], ◌∷◌, ◌++◌,
  arith, ◌⊎◌,
}
use cf_masque_opnsense.Health.{
  Action, log_down, log_recovered, notify_down, notify_recovered, restart, actions_for,
}

-- The actions over the checks `seen`, each of which found the process running or not.
unfoldable pub watch : Bool → Bool → Bool → Option Bool → List Bool → List Action
watch fail recv registered was [] = []
watch fail recv registered was (running ∷ seen) =
    actions_for fail recv registered running was ++ watch fail recv registered (some running) seen

abbrev pub is_restart : Action → ℕ
is_restart restart = 1
is_restart _ = 0

abbrev pub restarts : List Action → ℕ
restarts [] = 0
restarts (a ∷ more) = is_restart a + restarts more

abbrev pub is_up : Bool → ℕ
is_up true = 1
is_up false = 0

-- How many checks found the process running.
abbrev pub ups : List Bool → ℕ
ups [] = 0
ups (r ∷ seen) = is_up r + ups seen

abbrev pub down_checks : ℕ → List Bool
down_checks zero = []
down_checks (suc n) = false ∷ down_checks n

-- Failure and recovery notifications take turns; `up` says which comes next.
abbrev pub TakeTurns : Bool → List Action → Type 0
TakeTurns up [] = Unit
TakeTurns true (notify_down ∷ more) = TakeTurns false more
TakeTurns true (notify_recovered ∷ more) = ⊥
TakeTurns false (notify_down ∷ more) = ⊥
TakeTurns false (notify_recovered ∷ more) = TakeTurns true more
TakeTurns up (log_down ∷ more) = TakeTurns up more
TakeTurns up (log_recovered ∷ more) = TakeTurns up more
TakeTurns up (restart ∷ more) = TakeTurns up more

turns_from : (up : Bool) (seen : List Bool) → TakeTurns up (watch true true true (some up) seen)
unfolding watch actions_for
turns_from up [] = tt
turns_from true (true ∷ seen) = turns_from true seen
turns_from true (false ∷ seen) = turns_from false seen
turns_from false (true ∷ seen) = turns_from true seen
turns_from false (false ∷ seen) = turns_from false seen

-- For a registered connection with both notifications on, failure and recovery notifications take
-- turns over any run of checks, starting with a failure if the first check finds it running and
-- with a recovery otherwise.
pub notifications-TakeTurns :
    (first : Bool) (seen : List Bool) → TakeTurns first (watch true true true none (first ∷ seen))
unfolding watch actions_for
notifications-TakeTurns true seen = turns_from true seen
notifications-TakeTurns false seen = turns_from false seen

restarts-append : (a b : List Action) → restarts (a ++ b) ≡ restarts a + restarts b
restarts-append [] b = omega arith
restarts-append (x ∷ a) b = omega (arith, restarts-append a b)

abbrev credit : Option Bool → ℕ
credit none = 1
credit (some true) = 1
credit (some false) = 0

restarts_paid :
    (fail recv registered running : Bool) (was : Option Bool)
    → restarts (actions_for fail recv registered running was) + credit (some running)
      ≤ credit was + is_up running
unfolding actions_for
restarts_paid true recv true false (some true) = omega arith
restarts_paid false recv true false (some true) = omega arith
restarts_paid fail recv true false (some false) = omega arith
restarts_paid fail recv true false none = omega arith
restarts_paid fail recv false false (some true) = omega arith
restarts_paid fail recv false false (some false) = omega arith
restarts_paid fail recv false false none = omega arith
restarts_paid fail true registered true (some false) = omega arith
restarts_paid fail false registered true (some false) = omega arith
restarts_paid fail recv registered true (some true) = omega arith
restarts_paid fail recv registered true none = omega arith

restarts_bounded :
    (fail recv registered : Bool) (was : Option Bool) (seen : List Bool)
    → restarts (watch fail recv registered was seen) ≤ credit was + ups seen
unfolding watch
restarts_bounded fail recv registered was [] = omega arith
restarts_bounded fail recv registered was (running ∷ seen) = omega (
  arith,
  restarts-append (actions_for fail recv registered running was)
      (watch fail recv registered (some running) seen),
  restarts_paid fail recv registered running was,
  restarts_bounded fail recv registered (some running) seen,
)

-- Whatever the settings, over any checks the restart attempts are at most one more than the checks
-- that found the connection running: a restart that fails is not tried again.
restarts-le-ups :
    (fail recv registered : Bool) (seen : List Bool)
    → restarts (watch fail recv registered none seen) ≤ 1 + ups seen
restarts-le-ups fail recv registered seen = restarts_bounded fail recv registered none seen

silent_while_down :
    (fail recv registered : Bool) (n : ℕ)
    → watch fail recv registered (some false) (down_checks n) ≡ []
unfolding watch actions_for
silent_while_down fail recv registered zero = refl
silent_while_down fail recv true (suc n) = silent_while_down fail recv true n
silent_while_down fail recv false (suc n) = silent_while_down fail recv false n

-- A registered connection that was running, or was not checked before, and is then found down in
-- every one of n + 1 checks gets exactly one restart attempt, at the first of them.
pub one_restart_per_outage :
    (fail recv : Bool) (was : Option Bool) (n : ℕ)
    → (was ≡ none) ⊎ (was ≡ some true)
    → restarts (watch fail recv true was (down_checks (suc n))) ≡ 1
unfolding watch actions_for
one_restart_per_outage true recv (some true) n h = rw (silent_while_down true recv true n)
one_restart_per_outage false recv (some true) n h = rw (silent_while_down false recv true n)
one_restart_per_outage fail recv none n h = rw (silent_while_down fail recv true n)
one_restart_per_outage fail recv (some false) n h = ground arith
