-- ===== src/Lifecycle/Start.antt =====
-- What start_connection guarantees.
use cf_masque_opnsense.Prelude.{
  ℤ, ◌≡◌, refl, ◌⊎◌, inl, inr, Bool, true, false, not, ◌&&◌, Option, none, some, List, arith,
  Bool-cases,
}
use cf_masque_opnsense.Text.{Text, codes, text_eq}
use cf_masque_opnsense.Dict.{has}
use cf_masque_opnsense.Outcome.{Result, ok, raise}
use cf_masque_opnsense.Config.{Connection}
use cf_masque_opnsense.Files.{Files}
use cf_masque_opnsense.Secrets.{Crypto}
use cf_masque_opnsense.Process.{
  Os, World, pid_file, read_pid, is_running, connection_running, is_warp,
}
use cf_masque_opnsense.Health.{is_registered}
use cf_masque_opnsense.Lifecycle.{
  StartFailure, unknown_protocol, launch_reply, started, failed, not_registered, launch,
  launch_with, start_warp, start_cloudflared, start_fresh, start_connection, cleanup_stale_iface,
  cfzt_warp_bin, cloudflared_bin, write_warp_config, write_cloudflared_config,
}

abbrev pub is_cloudflared : Text → Bool
is_cloudflared proto = text_eq proto (codes "cloudflared")

-- What must hold for a daemon to be started.
pub record MayStart (conn : Connection) : Type 0 where
  pub known : (is_warp conn.protocol ≡ true) ⊎ (is_cloudflared conn.protocol ≡ true)
  pub enrolled :
      (is_registered conn.registration_status ≡ true) ⊎ (is_cloudflared conn.protocol ≡ true)

module _ (os : Os) (crypto : Crypto) where
  open os use {Sys, poll, spawn, sleep}

  reply-started :
      (name : Text) (p pid : ℤ) (o : Option ℤ)
      → launch_reply name p o ≡ started pid
      → (o ≡ none) × (p ≡ pid)
  reply-started name p pid none h = ground arith
  reply-started name p pid (some code) h = cc

  -- The world `end` is half a second after a daemon was spawned as `pid`, and the daemon is alive.
  pub record Alive (pid : ℤ) (end : World Sys) : Type 0 where
    pub command : List Text
    pub before : World Sys
    pub spawned : (spawn command before).0 ≡ pid
    pub waited : end ≡ sleep 500 (spawn command before).1
    pub alive : poll pid end.sys ≡ none

  launch-started :
      (name : Text) (command : List Text) (w : World Sys) (pid : ℤ)
      → (launch os name command w).0 ≡ started pid
      → Alive pid (launch os name command w).1
  unfolding launch
  launch-started name command w pid h =
      let (p, w1) = spawn command w in
      let (e, f) = reply-started name p pid (poll p (sleep 500 w1).sys) h in
      record { command = command; before = w; spawned = f; waited = refl; alive = rw (← f) e }

  launch_with-started :
      (name : Text) (command : List Text) (w : World Sys) (pid : ℤ) (fs : Result Files)
      → (launch_with os crypto name command w fs).0 ≡ ok (started pid)
      → Alive pid (launch_with os crypto name command w fs).1
  launch_with-started name command w pid (raise e) h = cc
  launch_with-started name command w pid (ok fs) h =
      launch-started name command (record w { files = fs }) pid (cc)

  start_warp-started :
      (uuid : Text) (conn : Connection) (w : World Sys) (pid : ℤ)
      → (start_warp os crypto uuid conn w).0 ≡ ok (started pid)
      → Alive pid (start_warp os crypto uuid conn w).1
  unfolding start_warp
  start_warp-started uuid conn w pid h = elim (Bool-cases (has cfzt_warp_bin w.files)) [
    | inl e ↦
        rw e
          (launch_with-started _ _ w pid (write_warp_config crypto uuid conn w.files) (rw e at h))
    | inr e ↦ let k = rw e at h in cc
  ]

  start_cloudflared-started :
      (uuid : Text) (conn : Connection) (w : World Sys) (pid : ℤ)
      → (start_cloudflared os crypto uuid conn w).0 ≡ ok (started pid)
      → Alive pid (start_cloudflared os crypto uuid conn w).1
  unfolding start_cloudflared
  start_cloudflared-started uuid conn w pid h = elim (Bool-cases (has cloudflared_bin w.files)) [
    | inl e ↦ rw e (
        launch_with-started _ _ w pid (ok (write_cloudflared_config crypto uuid conn w.files))
          (rw e at h))
    | inr e ↦ let k = rw e at h in cc
  ]

  enrolled_of : (a b : Bool) → (not a && not b) ≡ false → (a ≡ true) ⊎ (b ≡ true)
  enrolled_of a b e = ground arith

  start_fresh-started :
      (uuid : Text) (conn : Connection) (w : World Sys) (pid : ℤ)
      → (start_fresh os crypto uuid conn w).0 ≡ ok (started pid)
      → MayStart conn × Alive pid (start_fresh os crypto uuid conn w).1
  unfolding start_fresh
  start_fresh-started uuid conn w pid h =
      elim (Bool-cases
        (not (is_registered conn.registration_status) && not (is_cloudflared conn.protocol))) [
          | inl e ↦ let k = rw e at h in cc
          | inr e ↦ elim (Bool-cases (is_warp conn.protocol)) [
            | inl f ↦ (
              record { known = inl f; enrolled = enrolled_of _ _ e },
              rw (e, f) (start_warp-started uuid conn w pid (rw (e, f) at h)),
            )
            | inr f ↦ elim (Bool-cases (is_cloudflared conn.protocol)) [
              | inl g ↦ (
                record { known = inr g; enrolled = inr g },
                rw (e, f, g) (start_cloudflared-started uuid conn w pid (rw (e, f, g) at h)),
              )
              | inr g ↦ let k = rw (e, f, g) at h in cc
            ]
          ]
        ]

  -- A daemon is reported as started only if none was running under the connection's pid file, the
  -- protocol is known, and the device is registered or the connection is a tunnel; the daemon was
  -- spawned, and half a second later it was still alive.
  pub start_connection-started :
      (uuid : Text) (conn : Connection) (w : World Sys) (pid : ℤ)
      → (start_connection os crypto uuid conn w).0 ≡ ok (started pid)
      → (connection_running os uuid conn.protocol w ≡ false)
        × MayStart conn
        × Alive pid (start_connection os crypto uuid conn w).1
  unfolding start_connection connection_running
  start_connection-started uuid conn w pid h =
      elim (Bool-cases (is_running os (read_pid (pid_file uuid conn.protocol) w.files) w.sys)) [
        | inl e ↦ let k = rw e at h in cc
        | inr e ↦
            let (may, alive) =
              start_fresh-started uuid conn (cleanup_stale_iface os uuid w) pid (rw e at h) in
            (e, may, rw e alive)
      ]

  -- A start of a connection that may not start, when nothing runs under its pid file, cleans up
  -- a leftover interface and does nothing else, and is reported as failed.
  start_connection_refused :
      (uuid : Text) (conn : Connection) (w : World Sys)
      → connection_running os uuid conn.protocol w ≡ false
      → ¬ MayStart conn
      → (why : StartFailure) × (start_connection os crypto uuid conn w
          ≡ (ok (failed why), cleanup_stale_iface os uuid w))
  unfolding start_connection connection_running start_fresh
  start_connection_refused uuid conn w e n =
      elim (Bool-cases
        (not (is_registered conn.registration_status) && not (is_cloudflared conn.protocol))) [
          | inl f ↦ (not_registered, rw (e, f))
          | inr f ↦ elim (Bool-cases (is_warp conn.protocol)) [
            | inl g ↦ absurd (n (record { known = inl g; enrolled = enrolled_of _ _ f }))
            | inr g ↦ elim (Bool-cases (is_cloudflared conn.protocol)) [
              | inl k ↦ absurd (n (record { known = inr k; enrolled = inr k }))
              | inr k ↦ (unknown_protocol conn.protocol, rw (e, f, g, k))
            ]
          ]
        ]
