-- ===== src/Recovery/Command.antt =====
-- What service.py's cmd_startconn does to the connections.
use cf_masque_opnsense.Prelude.{◌≡◌, refl, true, Option, none, some}
use cf_masque_opnsense.Text.{Text}
use cf_masque_opnsense.Dict.{lookup}
use cf_masque_opnsense.Outcome.{Result, ok, raise}
use cf_masque_opnsense.Config.{Config, Connection}
use cf_masque_opnsense.Files.{Content, read}
use cf_masque_opnsense.Secrets.{Crypto}
use cf_masque_opnsense.Process.{Os, World, config_of, is_warp, connection_running}
use cf_masque_opnsense.Health.{is_registered}
use cf_masque_opnsense.Lifecycle.{StartReply, cfzt_warp_bin, start_connection}
use cf_masque_opnsense.Service.{cmd_startconn, start_found, on_config, and_then}
use cf_masque_opnsense.Recovery.Steady.{Steady, Steady-refl}
use cf_masque_opnsense.Recovery.Started.{
  Supports, start_connection-Steady, start_connection-Running,
}

module _ (os : Os) (laws : Supports os) (crypto : Crypto) where
  open os use {Sys}

  and_then-world :
      (x : Result StartReply × World Sys)
      (f : StartReply → World Sys → Result (Option StartReply) × World Sys)
      → ((r : StartReply) (v : World Sys) → (f r v).1 ≡ v)
      → (and_then x f).1 ≡ x.1
  and_then-world (ok r, w) f h = h r w
  and_then-world (raise e, w) f h = refl

  start_found-world :
      (uuid : Text) (conn : Connection) (w : World Sys)
      → (start_found os crypto uuid (some conn) w).1 ≡ (start_connection os crypto uuid conn w).1
  start_found-world uuid conn w =
      and_then-world (start_connection os crypto uuid conn w) _ (λ r v. refl)

  start_found-Steady :
      (uuid : Text) (o : Option Connection) (w : World Sys)
      → Steady os w (start_found os crypto uuid o w).1
  start_found-Steady uuid none w = Steady-refl os w
  start_found-Steady uuid (some conn) w =
      rw (start_found-world uuid conn w) (start_connection-Steady os laws crypto uuid conn w)

  pub cmd_startconn-Steady :
      (uuid : Text) (w : World Sys) → Steady os w (cmd_startconn os crypto uuid w).1
  unfolding cmd_startconn
  cmd_startconn-Steady uuid w = from (config_of w.files)
    where
      from :
          (r : Result Config)
          → Steady os w
              (on_config os r w
                (λ cfg w1. start_found os crypto uuid (lookup uuid cfg.connections) w1)).1
      from (raise e) = Steady-refl os w
      from (ok cfg) = start_found-Steady uuid (lookup uuid cfg.connections) w

  pub cmd_startconn-Running :
      (uuid : Text) (conn : Connection) (w : World Sys) (cfg : Config) (c : Content)
      → config_of w.files ≡ ok cfg
      → lookup uuid cfg.connections ≡ some conn
      → read cfzt_warp_bin w.files ≡ some c
      → is_registered conn.registration_status ≡ true
      → is_warp conn.protocol ≡ true
      → connection_running os uuid conn.protocol (cmd_startconn os crypto uuid w).1 ≡ true
  unfolding cmd_startconn
  cmd_startconn-Running uuid conn w cfg c h l b g p =
      rw (h, l)
        (rw (start_found-world uuid conn w)
          (start_connection-Running os laws crypto uuid conn w cfg c h b g p))
