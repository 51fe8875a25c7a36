-- ===== src/Health/Checks.antt =====
-- A connection over a run of checks, each of which passes its `last_status` on to the next.
use cf_masque_opnsense.Prelude.{
  ◌≡◌, refl, ap, ◌∙◌, ◌⊎◌, Bool, true, false, none, some, List, [], ◌∷◌, ◌++◌, All, length, map,
}
use cf_masque_opnsense.Text.{Text}
use cf_masque_opnsense.Text.Equality.{text_eq_refl}
use cf_masque_opnsense.Dict.{Dict, lookup, insert, lookup-insert}
use cf_masque_opnsense.Config.{Connection}
use cf_masque_opnsense.Process.{Os, World, connection_running}
use cf_masque_opnsense.Health.{Action, actions_at, is_registered, check_connection}
use cf_masque_opnsense.Health.Transitions.{
  watch, TakeTurns, notifications-TakeTurns, restarts, down_checks, one_restart_per_outage,
}

module _ (os : Os) (fail recv : Bool) (uuid : Text) (conn : Connection) where
  open os use {Sys}

  abbrev runs : World Sys → Bool
  runs w = connection_running os uuid conn.protocol w

  -- The actions of the checks that find the system in the given states, one after the other.
  unfoldable pub trace : List (World Sys) → Dict Bool → List Action
  unfolding check_connection
  trace [] last_status = []
  trace (w ∷ ws) last_status =
      actions_at os fail recv uuid conn w last_status
      ++ trace ws (check_connection os fail recv uuid conn (w, last_status)).1

  trace-watch :
      (ws : List (World Sys)) (last_status : Dict Bool)
      → trace ws last_status
        ≡ watch fail recv
            (is_registered conn.registration_status)
            (lookup uuid last_status)
            (map runs ws)
  unfolding trace watch check_connection
  trace-watch [] last_status = refl
  trace-watch (w ∷ ws) last_status =
      let later = insert uuid (runs w) last_status in
      let known : lookup uuid later ≡ some (runs w) =
        (lookup-insert uuid uuid (runs w) last_status ∙ rw (text_eq_refl uuid) refl) in
      ap (λ l. actions_at os fail recv uuid conn w last_status ++ l)
        (trace-watch ws later ∙ rw known refl)

  -- The checks of a registered connection that was running, or not seen before, and is found down
  -- at every one of them make exactly one attempt to restart it.
  pub restarts-trace :
      (w : World Sys) (ws : List (World Sys)) (last_status : Dict Bool)
      → is_registered conn.registration_status ≡ true
      → (lookup uuid last_status ≡ none) ⊎ (lookup uuid last_status ≡ some true)
      → All (λ v. connection_running os uuid conn.protocol v ≡ false) (w ∷ ws)
      → restarts (trace (w ∷ ws) last_status) ≡ 1
  restarts-trace w ws last_status r h down =
      rw (trace-watch (w ∷ ws) last_status, r, all_down (w ∷ ws) down)
        (one_restart_per_outage fail recv (lookup uuid last_status) (length ws) h)
    where
      all_down :
          (vs : List (World Sys))
          → All (λ v. connection_running os uuid conn.protocol v ≡ false) vs
          → map runs vs ≡ down_checks (length vs)
      all_down [] d = refl
      all_down (v ∷ vs) d = rw (d.0, all_down vs d.1) refl

module _ (os : Os) (uuid : Text) (conn : Connection) where
  open os use {Sys}

  -- With both notifications on, the checks of a registered connection that was not seen before
  -- notify of failures and recoveries in turns, starting with a failure if the first check finds
  -- it running and with a recovery otherwise.
  pub trace-TakeTurns :
      (w : World Sys) (ws : List (World Sys)) (last_status : Dict Bool)
      → is_registered conn.registration_status ≡ true
      → lookup uuid last_status ≡ none
      → TakeTurns
          (connection_running os uuid conn.protocol w)
          (trace os true true uuid conn (w ∷ ws) last_status)
  trace-TakeTurns w ws last_status r h =
      rw (trace-watch os true true uuid conn (w ∷ ws) last_status, r, h)
        (notifications-TakeTurns (connection_running os uuid conn.protocol w)
          (map (runs os true true uuid conn) ws))
