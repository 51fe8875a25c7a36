-- ===== src/Recovery/Steady.antt =====
-- What the start of a connection leaves alone: the settings, the binary and the daemons that run.
use cf_masque_opnsense.Prelude.{
  ℕ, ◌≡◌, refl, ◌∙◌, Bool, true, false, not, ◌&&◌, some, ◌++◌, if◌then◌else◌, Bool-cases, inl, inr,
}
use cf_masque_opnsense.Text.{Text, codes, text_eq, starts_with}
use cf_masque_opnsense.Text.Equality.{text_eq→eq, text_eq_refl}
use cf_masque_opnsense.Outcome.{ok, >>=-eq-ok}
use cf_masque_opnsense.Config.{Config, Connection}
use cf_masque_opnsense.Files.{Files, Content, read, write, chmod, unlink, write_private, object}
use cf_masque_opnsense.Files.Laws.{read-write, read-chmod, read-unlink, read-write_private}
use cf_masque_opnsense.Secrets.{Crypto, get_secret}
use cf_masque_opnsense.Process.{
  Os, World, config_file, config_of, pid_file, read_pid, is_warp, connection_running,
}
use cf_masque_opnsense.Health.{monitor_pid}
use cf_masque_opnsense.Lifecycle.{
  cfzt_warp_bin, warp_config_path, tunnel_config_path, creds_path, warp_config, creds, is_set,
  or_empty, write_warp_config, write_cloudflared_config,
}

-- Not one of the files that the start of a connection writes or removes.
abbrev pub is_lasting : Text → Bool
is_lasting p =
    not (starts_with (codes "/usr/local/etc/") p)
    && not (starts_with (codes "/var/run/cfzt-iface-") p)

lasting_apart :
    (written p : Text)
    → is_lasting written ≡ false
    → is_lasting p ≡ true
    → text_eq written p ≡ false
lasting_apart written p h k = elim (Bool-cases (text_eq written p)) [
  | inl e ↦ let q : written ≡ p = text_eq→eq written p e in let h' = rw q at h in cc
  | inr e ↦ e
]

pid_file-lasting : (uuid proto : Text) → is_lasting (pid_file uuid proto) ≡ true
unfolding pid_file
pid_file-lasting uuid proto = elim (Bool-cases (is_warp proto)) [ inl e ↦ rw e | inr e ↦ rw e ]

monitor_apart : (uuid proto : Text) → text_eq monitor_pid (pid_file uuid proto) ≡ false
unfolding pid_file text_eq
monitor_apart uuid proto = elim (Bool-cases (is_warp proto)) [ inl e ↦ rw e | inr e ↦ rw e ]

-- The lasting files are as they were.
pub record Untouched (fs fs' : Files) : Type 0 where
  pub at : (p : Text) → is_lasting p ≡ true → read p fs' ≡ read p fs

Untouched-refl : (fs : Files) → Untouched fs fs
Untouched-refl fs = record { at = λ p h. refl }

Untouched-trans : (a b c : Files) → Untouched a b → Untouched b c → Untouched a c
Untouched-trans a b c u v = record { at = λ p h. v.at p h ∙ u.at p h }

pub unlink-Untouched : (p : Text) (fs : Files) → is_lasting p ≡ false → Untouched fs (unlink p fs)
unlink-Untouched p fs h = record { at = λ q k. rw (read-unlink p q fs, lasting_apart p q h k) refl }

write-Untouched :
    (p : Text) (c : Content) (fs : Files) → is_lasting p ≡ false → Untouched fs (write p c fs)
write-Untouched p c fs h = record {
  at = λ q k. rw (read-write p q c fs, lasting_apart p q h k) refl;
}

chmod-Untouched : (p : Text) (m : ℕ) (fs : Files) → Untouched fs (chmod p m fs)
chmod-Untouched p m fs = record { at = λ q k. read-chmod p q m fs }

write_private-Untouched :
    (tmp path : Text) (c : Content) (fs : Files)
    → is_lasting tmp ≡ false
    → is_lasting path ≡ false
    → Untouched fs (write_private tmp path c fs)
write_private-Untouched tmp path c fs h k = record {
  at = λ q l.
      rw (read-write_private tmp path q c fs, lasting_apart path q k l, lasting_apart tmp q h l)
        refl;
}

warp_files-lasting :
    (uuid : Text)
    → (is_lasting (warp_config_path uuid ++ codes ".tmp") ≡ false)
      × (is_lasting (warp_config_path uuid) ≡ false)
unfolding warp_config_path
warp_files-lasting uuid = (refl, refl)

tunnel_files-lasting :
    (uuid : Text)
    → (is_lasting (tunnel_config_path uuid ++ codes ".tmp") ≡ false)
      × (is_lasting (tunnel_config_path uuid) ≡ false)
      × (is_lasting (creds_path uuid) ≡ false)
unfolding tunnel_config_path creds_path
tunnel_files-lasting uuid = (refl, refl, refl)

written :
    (tmp path : Text) (c : Content) (fs fs' : Files)
    → is_lasting tmp ≡ false
    → is_lasting path ≡ false
    → write_private tmp path c fs ≡ fs'
    → Untouched fs fs' × (read path fs' ≡ some c)
written tmp path c fs fs' h k e = rw (← e) (
  write_private-Untouched tmp path c fs h k,
  rw (read-write_private tmp path path c fs, text_eq_refl path) refl,
)

module _ (crypto : Crypto) where
  -- The configuration of a WARP daemon is written, and no lasting file is touched.
  pub write_warp_config-Untouched :
      (uuid : Text) (conn : Connection) (fs fs' : Files)
      → write_warp_config crypto uuid conn fs ≡ ok fs'
      → Untouched fs fs'
        × ((cfg : Config) × (read (warp_config_path uuid) fs'
              ≡ some (object (warp_config crypto uuid conn cfg fs))))
  unfolding write_warp_config
  write_warp_config-Untouched uuid conn fs fs' h =
      let (cfg, p, q) = >>=-eq-ok (config_of fs) _ h in
      let (a, b) = warp_files-lasting uuid in
      let (u, r) =
        written (warp_config_path uuid ++ codes ".tmp") (warp_config_path uuid)
          (object (warp_config crypto uuid conn cfg fs)) fs fs' a b (cc) in
      (u, (cfg, r))

  pub write_cloudflared_config-Untouched :
      (uuid : Text) (conn : Connection) (fs : Files)
      → Untouched fs (write_cloudflared_config crypto uuid conn fs)
  unfolding write_cloudflared_config
  write_cloudflared_config-Untouched uuid conn fs =
      let (a, b, d) = tunnel_files-lasting uuid in
      Untouched-trans fs _ _
        (creds-Untouched (is_set (get_secret crypto (codes "tunnel_token_" ++ uuid) fs)) d)
        (write_private-Untouched _ _ _ _ a b)
    where
      creds-Untouched :
          (b : Bool)
          → is_lasting (creds_path uuid) ≡ false
          → Untouched fs (
              if b
              then chmod (creds_path uuid) 0o600 (
                  write
                    (creds_path uuid)
                    (creds conn (or_empty (get_secret crypto (codes "tunnel_token_" ++ uuid) fs)))
                    fs)
              else fs)
      creds-Untouched true d =
          Untouched-trans fs _ _ (write-Untouched (creds_path uuid) _ fs d)
            (chmod-Untouched (creds_path uuid) 0o600 _)
      creds-Untouched false d = Untouched-refl fs

module _ (os : Os) where
  open os use {Sys, run}

  -- The settings and the binary are as they were, and every daemon that ran still runs.
  pub record Steady (w w' : World Sys) : Type 0 where
    pub config : config_of w'.files ≡ config_of w.files
    pub binary : read cfzt_warp_bin w'.files ≡ read cfzt_warp_bin w.files
    pub running :
        (uuid proto : Text)
        → connection_running os uuid proto w ≡ true
        → connection_running os uuid proto w' ≡ true

  pub Steady-refl : (w : World Sys) → Steady w w
  Steady-refl w = record { config = refl; binary = refl; running = λ u p h. h }

  pub Steady-trans : (a b c : World Sys) → Steady a b → Steady b c → Steady a c
  Steady-trans a b c s t = record {
    config = t.config ∙ s.config;
    binary = t.binary ∙ s.binary;
    running = λ u p h. t.running u p (s.running u p h);
  }

  pub Untouched-Steady :
      (w : World Sys) (fs : Files) → Untouched w.files fs → Steady w (record w { files = fs })
  unfolding config_of connection_running read_pid
  Untouched-Steady w fs u = record {
    config = rw (u.at config_file refl) refl;
    binary = u.at cfzt_warp_bin refl;
    running = λ uuid proto h. rw (u.at (pid_file uuid proto) (pid_file-lasting uuid proto)) h;
  }

  -- A change of files that keeps every file but the monitor's pid file.
  pub apart-Steady :
      (w : World Sys) (fs : Files)
      → ((p : Text) → text_eq monitor_pid p ≡ false → read p fs ≡ read p w.files)
      → Steady w (record w { files = fs })
  unfolding config_of connection_running read_pid
  apart-Steady w fs u = record {
    config = rw (u config_file (unfold text_eq in refl)) refl;
    binary = u cfzt_warp_bin (unfold text_eq in refl);
    running = λ uuid proto h. rw (u (pid_file uuid proto) (monitor_apart uuid proto)) h;
  }
