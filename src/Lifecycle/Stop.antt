-- ===== src/Lifecycle/Stop.antt =====
-- What stop_connection guarantees when it reports success: how the process was ended, from SIGTERM
-- over the looks every 100 ms to SIGKILL, and the files that are removed.
use cf_masque_opnsense.Prelude.{
  ℕ, zero, suc, ℤ, ◌<◌, ◌≡◌, ◌⊎◌, ◌≢◌, refl, ap, inl, inr, Bool, true, false, Option, none, some,
  List, arith, if◌then◌else◌, Bool-cases, Option-cases, is_nil,
}
use cf_masque_opnsense.Text.{Text, codes}
use cf_masque_opnsense.Outcome.{Result, ok, raise}
use cf_masque_opnsense.Config.{Connection}
use cf_masque_opnsense.Files.{Content, read, unlink}
use cf_masque_opnsense.Files.Laws.{read-unlink, read-unlink_self}
use cf_masque_opnsense.Process.{
  Os, World, sigterm, sigkill, Delivery, delivered, no_such_process, not_permitted, pid_file,
  read_pid, is_running,
}
use cf_masque_opnsense.Lifecycle.{
  StopReply, stopped, not_running, iface_file, iface_of, destroy_iface, cleanup_stale_iface,
  after_sigterm, delivery_result, await_exit, terminate, clean_up, stop_pid, stop_connection,
}

module _ (os : Os) where
  open os use {Sys, sleep, kill, run, has_program}

  -- The world after k more tenths of a second.
  abbrev tenths : ℕ → World Sys → World Sys
  tenths zero w = w
  tenths (suc k) w = tenths k (sleep 100 w)

  abbrev up : ℤ → World Sys → Bool
  up pid w = is_running os (some pid) w.sys

  -- Whether the process is up at each of k looks, one every tenth of a second.
  abbrev stays_up : ℤ → ℕ → World Sys → Bool
  stays_up pid zero w = true
  stays_up pid (suc k) w = if up pid (sleep 100 w) then stays_up pid k (sleep 100 w) else false

  abbrev termed : ℤ → World Sys → World Sys
  termed pid w = (kill sigterm pid w).1

  -- How the process was ended: it was gone before SIGTERM; it got SIGTERM and was seen down at one
  -- of fifty looks; or it got SIGTERM, was up at all fifty, and was then sent SIGKILL.
  pub data Ended (pid : ℤ) (w : World Sys) : World Sys → Type 0 where
    missing : (kill sigterm pid w).0 ≡ no_such_process → Ended pid w (termed pid w)
    quit :
        (k : ℕ)
        → k < 50
        → (kill sigterm pid w).0 ≡ delivered
        → stays_up pid k (termed pid w) ≡ true
        → up pid (tenths (suc k) (termed pid w)) ≡ false
        → Ended pid w (tenths (suc k) (termed pid w))
    forced :
        (kill sigterm pid w).0 ≡ delivered
        → stays_up pid 50 (termed pid w) ≡ true
        → (kill sigkill pid (tenths 50 (termed pid w))).0 ≢ not_permitted
        → Ended pid w (kill sigkill pid (tenths 50 (termed pid w))).1

  -- What a stop from `w` to `end` did: the process of the pid file ran and was ended, the pid file
  -- is gone, and no interface is left in its state file, unless there is no ifconfig.
  pub record IsStopped (uuid path : Text) (w end : World Sys) : Type 0 where
    pub pid : ℤ
    pub named : read_pid path w.files ≡ some pid
    pub was_up : is_running os (some pid) w.sys ≡ true
    pub at_exit : World Sys
    pub ended : Ended pid w at_exit
    pub cleaned :
        end ≡ cleanup_stale_iface os uuid (record at_exit { files = unlink path at_exit.files })
    pub unlinked : read path end.files ≡ none
    pub released :
        (has_program (codes "ifconfig") at_exit.sys ≡ false)
        ⊎ (iface_of (read (iface_file uuid) end.files) ≡ none)

  permitted : (d : Delivery) → delivery_result d ≡ ok tt → d ≢ not_permitted
  permitted delivered e = ground arith
  permitted no_such_process e = ground arith
  permitted not_permitted e = ground arith

  -- A wait of n looks ends at the first at which the process is down, or with SIGKILL.
  await_exit-ends :
      (n : ℕ) (pid : ℤ) (w : World Sys)
      → (await_exit os n pid w).0 ≡ ok tt
      → ((k : ℕ) × (k < n)
          × (stays_up pid k w ≡ true)
          × (up pid (tenths (suc k) w) ≡ false)
          × ((await_exit os n pid w).1 ≡ tenths (suc k) w))
        ⊎ ((stays_up pid n w ≡ true)
            × ((kill sigkill pid (tenths n w)).0 ≢ not_permitted)
            × ((await_exit os n pid w).1 ≡ (kill sigkill pid (tenths n w)).1))
  unfolding await_exit
  await_exit-ends zero pid w h = inr (refl, permitted (kill sigkill pid w).0 h, refl)
  await_exit-ends (suc n) pid w h = elim (Bool-cases (up pid (sleep 100 w))) [
    | inl e ↦ (elim (await_exit-ends n pid (sleep 100 w) (rw e at h)) [
      | inl (k, less, ups, down, last) ↦ inl (suc k, omega arith, rw e ups, down, rw e last)
      | inr (ups, sent, last) ↦ inr (rw e ups, sent, rw e last)
    ])
    | inr e ↦ inl (zero, omega arith, refl, e, rw e refl)
  ]

  terminate-Ended :
      (pid : ℤ) (w : World Sys)
      → (terminate os pid w).0 ≡ ok tt
      → Ended pid w (terminate os pid w).1
  unfolding terminate
  terminate-Ended pid w h = after (kill sigterm pid w).0 refl h
    where
      after :
          (d : Delivery)
          → (kill sigterm pid w).0 ≡ d
          → (after_sigterm os d pid (termed pid w)).0 ≡ ok tt
          → Ended pid w (after_sigterm os d pid (termed pid w)).1
      after delivered e k = elim (await_exit-ends 50 pid (termed pid w) k) [
        | inl (j, less, ups, down, last) ↦ rw last (quit j less e ups down)
        | inr (ups, sent, last) ↦ rw last (forced e ups sent)
      ]
      after no_such_process e k = missing e
      after not_permitted e k = cc

  module _
      (run_files : (command : List Text) (w : World Sys) → (run command w).files ≡ w.files) where
    stays_unread : (b : Bool) (o : Option Content) → o ≡ none → (if b then none else o) ≡ none
    stays_unread true o e = refl
    stays_unread false o e = e

    destroy_iface-files :
        (state_file iface : Text) (w : World Sys)
        → ((destroy_iface os state_file iface w).files ≡ unlink state_file w.files)
          ⊎ ((has_program (codes "ifconfig") w.sys ≡ false)
              × ((destroy_iface os state_file iface w).files ≡ w.files))
    unfolding destroy_iface
    destroy_iface-files state_file iface w = elim (Bool-cases (is_nil iface)) [
      | inl e ↦ inl (rw e refl)
      | inr e ↦ (elim (Bool-cases (has_program (codes "ifconfig") w.sys)) [
        | inl f ↦ inl (rw (e, f, run_files) refl)
        | inr f ↦ inr (f, rw (e, f) refl)
      ])
    ]

    cleanup-files :
        (uuid path : Text) (w : World Sys)
        → read path w.files ≡ none
        → (read path (cleanup_stale_iface os uuid w).files ≡ none)
          × ((has_program (codes "ifconfig") w.sys ≡ false)
              ⊎ (iface_of (read (iface_file uuid) (cleanup_stale_iface os uuid w).files) ≡ none))
    unfolding cleanup_stale_iface
    cleanup-files uuid path w h = elim (Option-cases (iface_of (read (iface_file uuid) w.files))) [
      | inl e ↦ rw (e, cleanup_stale_iface) (h, inr e)
      | inr (iface, e) ↦
          rw (e, cleanup_stale_iface)
            (elim (destroy_iface-files (iface_file uuid) iface w) [
              | inl f ↦ rw f (
                rw read-unlink (stays_unread _ (read path w.files) h),
                inr (ap iface_of (read-unlink_self (iface_file uuid) w.files)),
              )
              | inr (absent, f) ↦ rw f (h, inl absent)
            ])
    ]

    clean_up-IsStopped :
        (uuid path : Text) (pid : ℤ) (w w' : World Sys) (r : Result (Unit {0}) × World Sys)
        → read_pid path w.files ≡ some pid
        → is_running os (some pid) w.sys ≡ true
        → (r.0 ≡ ok tt → Ended pid w r.1)
        → clean_up os uuid path r ≡ (ok stopped, w')
        → IsStopped uuid path w w'
    clean_up-IsStopped uuid path pid w w' (raise x, v) p q g h = cc
    clean_up-IsStopped uuid path pid w w' (ok u, v) p q g h =
        let v1 = record v { files = unlink path v.files } in
        let same : cleanup_stale_iface os uuid v1 ≡ w' =
          ap (λ (p : Result StopReply × World Sys). p.1) h in
        let files = cleanup-files uuid path v1 (read-unlink_self path v.files) in
        rw (← same) (record {
          pid = pid;
          named = p;
          was_up = q;
          at_exit = v;
          ended = g refl;
          cleaned = refl;
          unlinked = files.0;
          released = files.1;
        })

    stop_with-IsStopped :
        (uuid path : Text) (o : Option ℤ) (w w' : World Sys)
        → read_pid path w.files ≡ o
        → (if is_running os o w.sys then stop_pid os uuid path o w else (ok not_running, w))
          ≡ (ok stopped, w')
        → IsStopped uuid path w w'
    stop_with-IsStopped uuid path none w w' p h = unfold is_running in cc
    stop_with-IsStopped uuid path (some pid) w w' p h =
        elim (Bool-cases (is_running os (some pid) w.sys)) [
          | inl e ↦
              clean_up-IsStopped uuid path pid w w' (terminate os pid w) p e (terminate-Ended pid w)
                (rw e at h)
          | inr e ↦ let k = rw e at h in cc
        ]

    -- When stop_connection reports that it stopped the connection, where running a command leaves
    -- the scripts' files alone, the pid file named a process that ran. That process was gone before
    -- SIGTERM, or got SIGTERM and was then seen down at one of fifty looks, one every 100 ms, or
    -- was up at all fifty and was sent SIGKILL. Afterwards the pid file is gone, and so is the name
    -- of the interface from its state file, unless there is no ifconfig.
    pub stop_connection-IsStopped :
        (uuid : Text) (conn : Connection) (w w' : World Sys)
        → stop_connection os uuid conn w ≡ (ok stopped, w')
        → IsStopped uuid (pid_file uuid conn.protocol) w w'
    unfolding stop_connection
    stop_connection-IsStopped uuid conn w w' h =
        stop_with-IsStopped uuid (pid_file uuid conn.protocol)
          (read_pid (pid_file uuid conn.protocol) w.files) w w' refl h
