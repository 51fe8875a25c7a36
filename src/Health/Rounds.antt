-- ===== src/Health/Rounds.antt =====
-- Whole rounds of the monitor, and its life from the pid file's writing to its removal.
use cf_masque_opnsense.Prelude.{
  ℕ, ◌≡◌, refl, ap, ◌∙◌, Bool, false, none, some, [], ◌∷◌, arith, Bool-cases, inl, inr, ◌⊎◌,
}
use cf_masque_opnsense.Text.{Text, text_eq}
use cf_masque_opnsense.Text.Equality.{text_eq_refl}
use cf_masque_opnsense.Dict.{Dict, lookup, lookup-insert}
use cf_masque_opnsense.Config.{Connection}
use cf_masque_opnsense.Files.Laws.{read-unlink_self}
use cf_masque_opnsense.Process.{Os, World, connection_running, read_pid, pid_of}
use cf_masque_opnsense.Health.{
  actions_for, is_registered, perform, check_connection, check_all, monitor_pid, run_monitor,
}

-- The enabled connections among those of the configuration.
abbrev pub Unlisted : Text → Dict Connection → Type 0
Unlisted u [] = Unit
Unlisted u ((v, conn) ∷ more) = ((conn.enabled ≡ false) ⊎ (text_eq v u ≡ false)) × Unlisted u more

module _ (os : Os) where
  open os use {Sys}

  -- A connection that was found down, and is found down again, has nothing done about it: the
  -- world is as it was and it stays recorded as down, registered or not.
  pub check_connection_still_down :
      (fail recv : Bool) (uuid : Text) (conn : Connection) (w : World Sys) (last : Dict Bool)
      → lookup uuid last ≡ some false
      → connection_running os uuid conn.protocol w ≡ false
      → ((check_connection os fail recv uuid conn (w, last)).0 ≡ w)
        × (lookup uuid (check_connection os fail recv uuid conn (w, last)).1 ≡ some false)
  unfolding check_connection actions_for perform
  check_connection_still_down fail recv uuid conn w last h down =
      elim (Bool-cases (is_registered conn.registration_status)) [
        | inl e ↦ (rw (h, down, e), rw (lookup-insert, text_eq_refl, down))
        | inr e ↦ (rw (h, down, e), rw (lookup-insert, text_eq_refl, down))
      ]

  -- A pass over the connections changes the record of enabled connections only.
  pub check_all-Unlisted :
      (fail recv : Bool) (conns : Dict Connection) (u : Text) (w : World Sys) (last : Dict Bool)
      → Unlisted u conns
      → lookup u (check_all os fail recv conns (w, last)).1 ≡ lookup u last
  unfolding check_all check_connection
  check_all-Unlisted fail recv [] u w last h = refl
  check_all-Unlisted fail recv ((v, conn) ∷ more) u w last h = elim (Bool-cases conn.enabled) [
    | inl e ↦
        rw e (check_all-Unlisted fail recv more u _ _ h.1 ∙ rw lookup-insert (ground (arith, h.0)))
    | inr e ↦ rw e (check_all-Unlisted fail recv more u w last h.1)
  ]

  -- However many rounds it ran, the monitor leaves no pid file behind.
  run_monitor_removes_pid :
      (fuel me : ℕ) (w : World Sys) → read_pid monitor_pid (run_monitor os fuel me w).files ≡ none
  unfolding run_monitor read_pid
  run_monitor_removes_pid fuel me w = ap pid_of (read-unlink_self monitor_pid _)
