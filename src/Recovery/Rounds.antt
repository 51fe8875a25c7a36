-- ===== src/Recovery/Rounds.antt =====
-- The rounds of the monitor, with configd.
use cf_masque_opnsense.Prelude.{
  ℕ, zero, suc, ◌≡◌, ◌≢◌, refl, ◌∙◌, Bool, true, false, some, [], if◌then◌else◌, Bool-cases, inl,
  inr,
}
use cf_masque_opnsense.Text.{Text}
use cf_masque_opnsense.Dict.{Dict, lookup}
use cf_masque_opnsense.Outcome.{Failure, ok, raise, Result-cases}
use cf_masque_opnsense.Config.{Config, Connection}
use cf_masque_opnsense.Files.{plain, write, chmod, unlink}
use cf_masque_opnsense.Files.Laws.{read-write, read-chmod, read-unlink}
use cf_masque_opnsense.Text.Number.{decimal}
use cf_masque_opnsense.Secrets.{Crypto}
use cf_masque_opnsense.Process.{Os, World, config_of, connection_running}
use cf_masque_opnsense.Health.{
  notify_fail_of, notify_recv_of, interval_of, at_least_five, check_all, nap, round, rounds,
  run_monitor, monitor_pid,
}
use cf_masque_opnsense.Recovery.{with_configd}
use cf_masque_opnsense.Recovery.Steady.{apart-Steady, Steady, Steady-refl, Steady-trans}
use cf_masque_opnsense.Recovery.Started.{Supports}
use cf_masque_opnsense.Recovery.Checks.{
  IsReady, Steady-IsReady, IsWanted, check_all-Steady, check_all-Up, nap-Steady,
}

module _ (os : Os) (crypto : Crypto) (laws : Supports os) where
  open os use {Sys, sleep}

  abbrev M : Os
  M = with_configd os crypto

  abbrev checked : Config → World Sys × Dict Bool → World Sys × Dict Bool
  checked cfg s =
      check_all M (notify_fail_of cfg.monitoring) (notify_recv_of cfg.monitoring) cfg.connections s

  abbrev after_checks : Config → Bool → World Sys × Dict Bool → World Sys × Dict Bool
  after_checks cfg b s =
      let interval = at_least_five (interval_of cfg.monitoring) in
      if b
      then (nap M (suc interval) 0 interval (checked cfg s).0, (checked cfg s).1)
      else (sleep 30_000 s.0, s.1)

  round-eq-ok :
      (w : World Sys) (last : Dict Bool) (cfg : Config)
      → config_of w.files ≡ ok cfg
      → round M (w, last) ≡ after_checks cfg cfg.enabled (w, last)
  unfolding round nap check_all
  round-eq-ok w last cfg h = rw (h, round) refl

  round-eq-raise :
      (w : World Sys) (last : Dict Bool) (e : Failure)
      → config_of w.files ≡ raise e
      → round M (w, last) ≡ (sleep 30_000 w, last)
  unfolding round
  round-eq-raise w last e h = rw (h, round) refl

  after_checks-Steady :
      (cfg : Config) (b : Bool) (s : World Sys × Dict Bool) → Steady os s.0 (after_checks cfg b s).0
  after_checks-Steady cfg true s =
      Steady-trans os s.0 _ _ (check_all-Steady os crypto laws _ _ cfg.connections s) (
        nap-Steady os crypto laws _ 0 (at_least_five (interval_of cfg.monitoring))
          (checked cfg s).0)
  after_checks-Steady cfg false s = laws.sleep_steady 30_000 s.0

  -- A round stops no daemon, and leaves the settings and the binary alone.
  round-Steady : (w : World Sys) (last : Dict Bool) → Steady os w (round M (w, last)).0
  round-Steady w last = elim (Result-cases (config_of w.files)) [
    | inl (e, h) ↦ rw (round-eq-raise w last e h) (laws.sleep_steady 30_000 w)
    | inr (cfg, h) ↦ rw (round-eq-ok w last cfg h) (after_checks-Steady cfg cfg.enabled (w, last))
  ]

  rounds-Steady : (n : ℕ) (w : World Sys) (last : Dict Bool) → Steady os w (rounds M n (w, last)).0
  unfolding rounds
  rounds-Steady zero w last = Steady-refl os w
  rounds-Steady (suc n) w last = elim (Bool-cases (os.terminated w.sys)) [
    | inl e ↦ rw e (Steady-refl os w)
    | inr e ↦ rw e (
        Steady-trans os w _ _ (round-Steady w last)
          (rounds-Steady n (round M (w, last)).0 (round M (w, last)).1))
  ]

  started-Steady :
      (me : ℕ) (w : World Sys)
      → Steady os w (record w {
        files = chmod monitor_pid 0o644 (write monitor_pid (plain (decimal me)) w.files);
      })
  started-Steady me w =
      apart-Steady os w _
        (λ p h. read-chmod monitor_pid p 0o644 _ ∙ rw (read-write monitor_pid p _ w.files, h) refl)

  module _ (cfg : Config) (uuid : Text) (conn : Connection)
      (wanted : IsWanted os crypto laws cfg uuid conn) (on : cfg.enabled ≡ true) where
    abbrev Up : World Sys → Type 0
    Up w = connection_running os uuid conn.protocol w ≡ true

    after_checks-Up :
        (b : Bool) (s : World Sys × Dict Bool)
        → b ≡ true
        → IsReady os cfg s.0
        → lookup uuid s.1 ≢ some false
        → Up (after_checks cfg b s).0
    after_checks-Up true s e r n =
        (nap-Steady os crypto laws _ 0 (at_least_five (interval_of cfg.monitoring))
            (checked cfg s).0).running
          uuid conn.protocol
          (check_all-Up os crypto laws cfg uuid conn wanted _ _ cfg.connections s wanted.listed r n)
    after_checks-Up false s e r n = cc

    rounds-Up :
        (n : ℕ) (w : World Sys) (last : Dict Bool)
        → IsReady os cfg w
        → os.terminated w.sys ≡ false
        → lookup uuid last ≢ some false
        → Up (rounds M (suc n) (w, last)).0
    unfolding rounds
    rounds-Up n w last r t m = rw t (
        (rounds-Steady n (round M (w, last)).0 (round M (w, last)).1).running uuid conn.protocol
          (rw (round-eq-ok w last cfg r.configured) (after_checks-Up cfg.enabled (w, last) on r m)))

    -- If daemons come up within half a second and stay up, the monitor brings every enabled and
    -- registered WARP connection up: however many rounds it does, at least one, the daemon of such
    -- a connection runs at its end, where the settings are readable, the plugin is enabled and the
    -- binary is there.
    pub run_monitor-Up :
        (n me : ℕ) (w : World Sys)
        → IsReady os cfg w
        → os.terminated w.sys ≡ false
        → Up (run_monitor M (suc n) me w)
    unfolding run_monitor lookup
    run_monitor-Up n me w r t =
        let v : World Sys = record w {
          files = chmod monitor_pid 0o644 (write monitor_pid (plain (decimal me)) w.files);
        } in
        let r' = Steady-IsReady os crypto laws cfg w v (started-Steady me w) r in
        (ended (rounds M (suc n) (v, [])).0).running uuid conn.protocol
          (rounds-Up n v [] r' t (λ h. cc))
      where
        ended : (v : World Sys) → Steady os v (record v { files = unlink monitor_pid v.files })
        ended v = apart-Steady os v _ (λ p h. rw (read-unlink monitor_pid p v.files, h) refl)
