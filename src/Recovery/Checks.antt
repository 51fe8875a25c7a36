-- ===== src/Recovery/Checks.antt =====
-- One pass of the monitor over the connections, with configd.
use cf_masque_opnsense.Prelude.{
  ℕ, zero, suc, ◌+◌, ◌-◌, ◌*◌, ◌≡◌, ◌≢◌, refl, ◌∙◌, Bool, true, false, not, ◌&&◌, Option, none,
  some, List, [], ◌∷◌, ◌++◌, ltb, if◌then◌else◌, Bool-cases, inl, inr,
}
use Prim.Native.Nat.{min}
use cf_masque_opnsense.Text.{Text, text_eq, one_of}
use cf_masque_opnsense.Text.Equality.{text_eq→eq}
use cf_masque_opnsense.Dict.{Dict, lookup, lookup-insert}
use cf_masque_opnsense.Outcome.{ok}
use cf_masque_opnsense.Config.{Config, Connection}
use cf_masque_opnsense.Files.{Content, read}
use cf_masque_opnsense.Secrets.{Crypto}
use cf_masque_opnsense.Process.{Os, World, config_of, is_running, is_warp, connection_running}
use cf_masque_opnsense.Health.{
  Action, log_down, log_recovered, notify_down, notify_recovered, restart, down_actions, when,
  actions_for, is_registered, command_of, run_all, perform, check_connection, check_all, nap,
}
use cf_masque_opnsense.Lifecycle.{cfzt_warp_bin}
use cf_masque_opnsense.Recovery.{with_configd}
use cf_masque_opnsense.Recovery.Steady.{Steady, Steady-refl, Steady-trans}
use cf_masque_opnsense.Recovery.Started.{Supports, notifier}
use cf_masque_opnsense.Recovery.Command.{cmd_startconn-Steady, cmd_startconn-Running}

-- The settings can be read, and the binary of the WARP daemon is there.
pub record IsReady (os : Os) (cfg : Config) (w : World os.Sys) : Type 0 where
  pub configured : config_of w.files ≡ ok cfg
  pub binary : Content
  pub installed : read cfzt_warp_bin w.files ≡ some binary

module _ (os : Os) (crypto : Crypto) (laws : Supports os) where
  open os use {Sys, run, sleep}

  abbrev M : Os
  M = with_configd os crypto

  pub Steady-IsReady :
      (cfg : Config) (w w' : World Sys) → Steady os w w' → IsReady os cfg w → IsReady os cfg w'
  Steady-IsReady cfg w w' s r = record {
    configured = s.config ∙ r.configured;
    binary = r.binary;
    installed = s.binary ∙ r.installed;
  }

  run_all-Steady :
      (uuid : Text) (conn : Connection) (a : Action) (w : World Sys)
      → Steady os w (run_all M (command_of uuid conn a) w)
  unfolding run_all command_of text_eq
  run_all-Steady uuid conn log_down w = Steady-refl os w
  run_all-Steady uuid conn log_recovered w = Steady-refl os w
  run_all-Steady uuid conn notify_down w =
      laws.run_steady notifier _ w (unfold one_of text_eq in refl)
  run_all-Steady uuid conn notify_recovered w =
      laws.run_steady notifier _ w (unfold one_of text_eq in refl)
  run_all-Steady uuid conn restart w = cmd_startconn-Steady os laws crypto uuid w

  perform-Steady :
      (uuid : Text) (conn : Connection) (actions : List Action) (w : World Sys)
      → Steady os w (perform M uuid conn actions w)
  unfolding perform
  perform-Steady uuid conn [] w = Steady-refl os w
  perform-Steady uuid conn (a ∷ more) w =
      Steady-trans os w _ _ (run_all-Steady uuid conn a w)
        (perform-Steady uuid conn more (run_all M (command_of uuid conn a) w))

  check_connection-Steady :
      (fail recv : Bool) (uuid : Text) (conn : Connection) (w : World Sys) (last : Dict Bool)
      → Steady os w (check_connection M fail recv uuid conn (w, last)).0
  unfolding check_connection
  check_connection-Steady fail recv uuid conn w last = perform-Steady uuid conn _ w

  -- One connection of the `for` loop, which is skipped if it is not enabled.
  abbrev visit :
      Bool → Bool → Text → Connection → Bool → World Sys × Dict Bool → World Sys × Dict Bool
  visit fail recv k conn b s = if b then check_connection M fail recv k conn s else s

  visit-Steady :
      (fail recv : Bool) (k : Text) (conn : Connection) (b : Bool) (s : World Sys × Dict Bool)
      → Steady os s.0 (visit fail recv k conn b s).0
  visit-Steady fail recv k conn true (w, last) = check_connection-Steady fail recv k conn w last
  visit-Steady fail recv k conn false s = Steady-refl os s.0

  pub check_all-Steady :
      (fail recv : Bool) (conns : Dict Connection) (s : World Sys × Dict Bool)
      → Steady os s.0 (check_all M fail recv conns s).0
  unfolding check_all
  check_all-Steady fail recv [] s = Steady-refl os s.0
  check_all-Steady fail recv ((k, conn) ∷ more) s =
      Steady-trans os s.0 _ _ (visit-Steady fail recv k conn conn.enabled s)
        (check_all-Steady fail recv more (visit fail recv k conn conn.enabled s))

  pub nap-Steady :
      (fuel elapsed interval : ℕ) (w : World Sys) → Steady os w (nap M fuel elapsed interval w)
  unfolding nap
  nap-Steady zero elapsed interval w = Steady-refl os w
  nap-Steady (suc fuel) elapsed interval w =
      elim (Bool-cases (not (os.terminated w.sys) && ltb elapsed interval)) [
        | inl e ↦ rw e (
            Steady-trans os w _ _ (laws.sleep_steady (min 5 (interval - elapsed) * 1000) w) (
              nap-Steady fuel (elapsed + 5) interval (sleep (min 5 (interval - elapsed) * 1000) w)))
        | inr e ↦ rw e (Steady-refl os w)
      ]

  -- The connection is set up for WARP, is registered and is one of the configuration.
  pub record IsWanted (cfg : Config) (uuid : Text) (conn : Connection) : Type 0 where
    pub listed : lookup uuid cfg.connections ≡ some conn
    pub enabled : conn.enabled ≡ true
    pub for_warp : is_warp conn.protocol ≡ true
    pub registered : is_registered conn.registration_status ≡ true

  module _ (cfg : Config) (uuid : Text) (conn : Connection) (wanted : IsWanted cfg uuid conn) where
    abbrev Up : World Sys → Type 0
    Up w = connection_running os uuid conn.protocol w ≡ true

    perform-Up :
        (actions : List Action) (w : World Sys)
        → IsReady os cfg w
        → Up (perform M uuid conn (actions ++ (restart ∷ [])) w)
    unfolding perform run_all command_of text_eq
    perform-Up [] w r =
        cmd_startconn-Running os laws crypto uuid conn w cfg r.binary r.configured wanted.listed
          r.installed wanted.registered wanted.for_warp
    perform-Up (a ∷ more) w r =
        perform-Up more (run_all M (command_of uuid conn a) w)
          (Steady-IsReady cfg w _ (run_all-Steady uuid conn a w) r)

    down-Up :
        (fail : Bool) (o : Option Bool) (w : World Sys)
        → IsReady os cfg w
        → o ≢ some false
        → Up (perform M uuid conn (down_actions fail o) w)
    down-Up fail none w r n = perform-Up [] w r
    down-Up fail (some true) w r n = perform-Up (log_down ∷ when fail notify_down) w r
    down-Up fail (some false) w r n = absurd (n refl)

    check_connection-Up :
        (fail recv : Bool) (s : World Sys × Dict Bool)
        → IsReady os cfg s.0
        → lookup uuid s.1 ≢ some false
        → Up (check_connection M fail recv uuid conn s).0
    unfolding check_connection actions_for connection_running is_running
    check_connection-Up fail recv (w, last) r n =
        elim (Bool-cases (connection_running os uuid conn.protocol w)) [
          | inl e ↦ (perform-Steady uuid conn _ w).running uuid conn.protocol e
          | inr e ↦ rw (e, wanted.registered) (down-Up fail (lookup uuid last) w r n)
        ]

    recorded :
        (fail recv : Bool) (k : Text) (v : Connection) (b : Bool) (s : World Sys × Dict Bool)
        → text_eq k uuid ≡ false
        → lookup uuid s.1 ≢ some false
        → lookup uuid (visit fail recv k v b s).1 ≢ some false
    unfolding check_connection
    recorded fail recv k v true (w, last) e n = rw lookup-insert (rw e n)
    recorded fail recv k v false s e n = n

    -- A pass starts the connection, unless it is recorded as down.
    pub check_all-Up :
        (fail recv : Bool) (conns : Dict Connection) (s : World Sys × Dict Bool)
        → lookup uuid conns ≡ some conn
        → IsReady os cfg s.0
        → lookup uuid s.1 ≢ some false
        → Up (check_all M fail recv conns s).0
    unfolding check_all lookup
    check_all-Up fail recv [] s l r n = cc
    check_all-Up fail recv ((k, v) ∷ more) s l r n = elim (Bool-cases (text_eq k uuid)) [
      | inl e ↦
          let same : v ≡ conn = (let h = rw e at l in cc) in
          let key : k ≡ uuid = text_eq→eq k uuid e in
          let on : v.enabled ≡ true = rw same wanted.enabled in
          (check_all-Steady fail recv more (visit fail recv k v v.enabled s)).running uuid
            conn.protocol (visited k v v.enabled s key same on r n)
      | inr e ↦
          check_all-Up fail recv more (visit fail recv k v v.enabled s) (rw e at l)
            (Steady-IsReady cfg s.0 _ (visit-Steady fail recv k v v.enabled s) r)
            (recorded fail recv k v v.enabled s e n)
    ]
      where
        visited :
            (k : Text) (v : Connection) (b : Bool) (s : World Sys × Dict Bool)
            → k ≡ uuid
            → v ≡ conn
            → b ≡ true
            → IsReady os cfg s.0
            → lookup uuid s.1 ≢ some false
            → Up (visit fail recv k v b s).0
        visited k v b s p q h r n = rw (p, q, h) (check_connection-Up fail recv s r n)
