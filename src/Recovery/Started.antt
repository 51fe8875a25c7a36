-- ===== src/Recovery/Started.antt =====
-- What a start of a connection does to it and to the others.
use cf_masque_opnsense.Prelude.{
  ℕ, ◌≡◌, refl, ◌∙◌, true, false, not, ◌&&◌, some, List, [], ◌∷◌, is_nil, Bool-cases, Option-cases,
  inl, inr,
}
use cf_masque_opnsense.Text.{Text, codes, text_eq, one_of}
use cf_masque_opnsense.Dict.{Dict, has, lookup}
use cf_masque_opnsense.Outcome.{Result, ok, raise}
use cf_masque_opnsense.Config.{Config, Connection}
use cf_masque_opnsense.Files.{Value, object, str, File, Files, Content, read, unlink}
use cf_masque_opnsense.Secrets.{Crypto}
use cf_masque_opnsense.Process.{
  Os, World, config_of, pid_file, read_pid, is_running, is_warp, connection_running,
}
use cf_masque_opnsense.Health.{is_registered}
use cf_masque_opnsense.Lifecycle.{
  cfzt_warp_bin, cloudflared_bin, warp_config_path, warp_config, write_warp_config,
  write_cloudflared_config, iface_file, iface_of, destroy_iface, cleanup_stale_iface, launch,
  launch_with, start_warp, start_cloudflared, start_fresh, start_connection,
}
use cf_masque_opnsense.Recovery.Steady.{
  is_lasting, Untouched, Steady, Steady-refl, Steady-trans, Untouched-Steady,
  write_warp_config-Untouched, write_cloudflared_config-Untouched, unlink-Untouched,
}

abbrev pub notifier : Text
notifier = codes "/usr/local/opnsense/scripts/OPNsense/Notifications/send.py"

abbrev pub warp_command : Text → List Text
warp_command uuid = cfzt_warp_bin ∷ codes "--config" ∷ warp_config_path uuid ∷ codes "--daemon" ∷ []

-- A daemon that is started with a configuration is up half a second later, under the pid file that
-- the configuration names, and daemons stay up: ifconfig, the notifier, new
-- daemons and time stop none of them, and these leave the settings and the binary alone.
pub record Supports (os : Os) : Type 0 where
  pub run_steady :
      (program : Text) (args : List Text) (w : World os.Sys)
      → one_of program (codes "ifconfig" ∷ notifier ∷ []) ≡ true
      → Steady os w (os.run (program ∷ args) w)
  pub spawn_steady : (command : List Text) (w : World os.Sys) → Steady os w (os.spawn command w).1
  pub sleep_steady : (ms : ℕ) (w : World os.Sys) → Steady os w (os.sleep ms w)
  pub comes_up :
      (uuid proto : Text) (w : World os.Sys) (d : Dict Value)
      → read (warp_config_path uuid) w.files ≡ some (object d)
      → lookup (codes "pid_file") d ≡ some (str (pid_file uuid proto))
      → connection_running os uuid proto (os.sleep 500 (os.spawn (warp_command uuid) w).1) ≡ true

iface_file-lasting : (uuid : Text) → is_lasting (iface_file uuid) ≡ false
unfolding iface_file
iface_file-lasting uuid = refl

has-lookup : (p : Text) (fs : Files) (f : File) → lookup p fs ≡ some f → has p fs ≡ true
unfolding has lookup
has-lookup p [] f h = cc
has-lookup p ((q, g) ∷ fs) f h = elim (Bool-cases (text_eq q p)) [
  | inl e ↦ rw e refl
  | inr e ↦ rw e (has-lookup p fs f (rw e at h))
]

has-read : (p : Text) (fs : Files) (c : Content) → read p fs ≡ some c → has p fs ≡ true
unfolding read
has-read p fs c h = elim (Option-cases (lookup p fs)) [
  | inl e ↦ let k = rw (e, read) at h in cc
  | inr (f, e) ↦ has-lookup p fs f e
]

warp_config-pid_file :
    (crypto : Crypto) (uuid : Text) (conn : Connection) (cfg : Config) (fs : Files)
    → lookup (codes "pid_file") (warp_config crypto uuid conn cfg fs)
      ≡ some (str (pid_file uuid conn.protocol))
unfolding warp_config lookup text_eq
warp_config-pid_file crypto uuid conn cfg fs = refl

write_warp_config-ok :
    (crypto : Crypto) (uuid : Text) (conn : Connection) (fs : Files) (cfg : Config)
    → config_of fs ≡ ok cfg
    → (fs' : Files) × (write_warp_config crypto uuid conn fs ≡ ok fs')
unfolding write_warp_config
write_warp_config-ok crypto uuid conn fs cfg h = rw h (_, refl)

module _ (os : Os) (laws : Supports os) where
  open os use {Sys, has_program, run, spawn, sleep}

  destroy_iface-Steady :
      (uuid iface : Text) (w : World Sys) → Steady os w (destroy_iface os (iface_file uuid) iface w)
  unfolding destroy_iface
  destroy_iface-Steady uuid iface w = elim (Bool-cases (is_nil iface)) [
    | inl e ↦ rw e (removed w)
    | inr e ↦ (elim (Bool-cases (has_program (codes "ifconfig") w.sys)) [
      | inl f ↦
          rw (e, f)
            (Steady-trans os w _ _
              (laws.run_steady (codes "ifconfig") (iface ∷ codes "destroy" ∷ []) w
                (unfold one_of text_eq in refl))
              (removed (run (codes "ifconfig" ∷ iface ∷ codes "destroy" ∷ []) w)))
      | inr f ↦ rw (e, f) (Steady-refl os w)
    ])
  ]
    where
      removed :
          (v : World Sys) → Steady os v (record v { files = unlink (iface_file uuid) v.files })
      removed v =
          Untouched-Steady os v _
            (unlink-Untouched (iface_file uuid) v.files (iface_file-lasting uuid))

  cleanup_stale_iface-Steady :
      (uuid : Text) (w : World Sys) → Steady os w (cleanup_stale_iface os uuid w)
  unfolding cleanup_stale_iface
  cleanup_stale_iface-Steady uuid w =
      elim (Option-cases (iface_of (read (iface_file uuid) w.files))) [
        | inl e ↦ rw (e, cleanup_stale_iface) (Steady-refl os w)
        | inr (iface, e) ↦ rw (e, cleanup_stale_iface) (destroy_iface-Steady uuid iface w)
      ]

  launch-Steady :
      (name : Text) (command : List Text) (w : World Sys) → Steady os w (launch os name command w).1
  unfolding launch
  launch-Steady name command w =
      Steady-trans os w (spawn command w).1 _ (laws.spawn_steady command w)
        (laws.sleep_steady 500 (spawn command w).1)

  module _ (crypto : Crypto) where
    launch_with-Steady :
        (name : Text) (command : List Text) (w : World Sys) (r : Result Files)
        → ((fs : Files) → r ≡ ok fs → Untouched w.files fs)
        → Steady os w (launch_with os crypto name command w r).1
    launch_with-Steady name command w (raise e) h = Steady-refl os w
    launch_with-Steady name command w (ok fs) h =
        Steady-trans os w (record w { files = fs }) _ (Untouched-Steady os w fs (h fs refl))
          (launch-Steady name command (record w { files = fs }))

    start_warp-Steady :
        (uuid : Text) (conn : Connection) (w : World Sys)
        → Steady os w (start_warp os crypto uuid conn w).1
    unfolding start_warp
    start_warp-Steady uuid conn w = elim (Bool-cases (has cfzt_warp_bin w.files)) [
      | inl e ↦ rw e (
          launch_with-Steady _ _ w (write_warp_config crypto uuid conn w.files)
            (λ fs k. (write_warp_config-Untouched crypto uuid conn w.files fs k).0))
      | inr e ↦ rw e (Steady-refl os w)
    ]

    start_cloudflared-Steady :
        (uuid : Text) (conn : Connection) (w : World Sys)
        → Steady os w (start_cloudflared os crypto uuid conn w).1
    unfolding start_cloudflared
    start_cloudflared-Steady uuid conn w = elim (Bool-cases (has cloudflared_bin w.files)) [
      | inl e ↦ rw e (
          launch_with-Steady _ _ w (ok (write_cloudflared_config crypto uuid conn w.files)) (λ fs k.
            let e' : write_cloudflared_config crypto uuid conn w.files ≡ fs = cc in
            rw (← e') (write_cloudflared_config-Untouched crypto uuid conn w.files)))
      | inr e ↦ rw e (Steady-refl os w)
    ]

    start_fresh-Steady :
        (uuid : Text) (conn : Connection) (w : World Sys)
        → Steady os w (start_fresh os crypto uuid conn w).1
    unfolding start_fresh
    start_fresh-Steady uuid conn w =
        elim (Bool-cases (
          not (is_registered conn.registration_status)
          && not (text_eq conn.protocol (codes "cloudflared")))) [
            | inl e ↦ rw e (Steady-refl os w)
            | inr e ↦ elim (Bool-cases (is_warp conn.protocol)) [
              | inl f ↦ rw (e, f) (start_warp-Steady uuid conn w)
              | inr f ↦ elim (Bool-cases (text_eq conn.protocol (codes "cloudflared"))) [
                | inl g ↦ rw (e, f, g) (start_cloudflared-Steady uuid conn w)
                | inr g ↦ rw (e, f, g) (Steady-refl os w)
              ]
            ]
          ]

    -- A start stops no daemon, and leaves the settings and the binary alone.
    pub start_connection-Steady :
        (uuid : Text) (conn : Connection) (w : World Sys)
        → Steady os w (start_connection os crypto uuid conn w).1
    unfolding start_connection
    start_connection-Steady uuid conn w =
        elim (Bool-cases (is_running os (read_pid (pid_file uuid conn.protocol) w.files) w.sys)) [
          | inl e ↦ rw e (Steady-refl os w)
          | inr e ↦ rw e (
              Steady-trans os w _ _ (cleanup_stale_iface-Steady uuid w)
                (start_fresh-Steady uuid conn (cleanup_stale_iface os uuid w)))
        ]

    start_warp-Running :
        (uuid : Text) (conn : Connection) (w : World Sys) (cfg : Config) (c : Content)
        → config_of w.files ≡ ok cfg
        → read cfzt_warp_bin w.files ≡ some c
        → is_warp conn.protocol ≡ true
        → connection_running os uuid conn.protocol (start_warp os crypto uuid conn w).1 ≡ true
    unfolding start_warp launch
    start_warp-Running uuid conn w cfg c h b p =
        let (fs, e) = write_warp_config-ok crypto uuid conn w.files cfg h in
        let (u, (g, r)) = write_warp_config-Untouched crypto uuid conn w.files fs e in
        rw (has-read cfzt_warp_bin w.files c b, e)
          (laws.comes_up uuid conn.protocol (record w { files = fs }) _ r
            (warp_config-pid_file crypto uuid conn g w.files))

    start_fresh-Running :
        (uuid : Text) (conn : Connection) (w : World Sys) (cfg : Config) (c : Content)
        → config_of w.files ≡ ok cfg
        → read cfzt_warp_bin w.files ≡ some c
        → is_registered conn.registration_status ≡ true
        → is_warp conn.protocol ≡ true
        → connection_running os uuid conn.protocol (start_fresh os crypto uuid conn w).1 ≡ true
    unfolding start_fresh
    start_fresh-Running uuid conn w cfg c h b g p =
        rw (g, p) (start_warp-Running uuid conn w cfg c h b p)

    -- After a start of a WARP connection that is registered, where the settings can be read and the
    -- binary is there, its daemon runs.
    pub start_connection-Running :
        (uuid : Text) (conn : Connection) (w : World Sys) (cfg : Config) (c : Content)
        → config_of w.files ≡ ok cfg
        → read cfzt_warp_bin w.files ≡ some c
        → is_registered conn.registration_status ≡ true
        → is_warp conn.protocol ≡ true
        → connection_running os uuid conn.protocol (start_connection os crypto uuid conn w).1 ≡ true
    unfolding start_connection connection_running
    start_connection-Running uuid conn w cfg c h b g p =
        elim (Bool-cases (is_running os (read_pid (pid_file uuid conn.protocol) w.files) w.sys)) [
          | inl e ↦ rw e e
          | inr e ↦
              let t = cleanup_stale_iface-Steady uuid w in
              rw e (
                start_fresh-Running uuid conn (cleanup_stale_iface os uuid w) cfg c (t.config ∙ h)
                  (t.binary ∙ b) g p)
        ]
