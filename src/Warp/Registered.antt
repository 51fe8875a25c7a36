-- ===== src/Warp/Registered.antt =====
-- What a success of cmd_register went through and left behind.
use cf_masque_opnsense.Prelude.{◌≡◌, true, some, []}
use cf_masque_opnsense.Text.{Text, codes}
use cf_masque_opnsense.Dict.{lookup}
use cf_masque_opnsense.Outcome.{Result, ok}
use cf_masque_opnsense.Config.{Config, Connection}
use cf_masque_opnsense.Files.{Files, read}
use cf_masque_opnsense.Secrets.{Crypto}
use cf_masque_opnsense.Secrets.Laws.{CryptoLaws}
use cf_masque_opnsense.Json.{Json, str, get}
use cf_masque_opnsense.Process.{World, is_warp, config_of, config_file}
use cf_masque_opnsense.Keys.{Tools, generate_wireguard_keypair}
use cf_masque_opnsense.Api.{Net, register_device}
use cf_masque_opnsense.Program.Keeps.{Keeps}
use cf_masque_opnsense.Warp.{Acquired, Attempt, acquired}
use cf_masque_opnsense.Warp.Register.{acquire}
use cf_masque_opnsense.Warp.Generation.{ToolsKeep}
use cf_masque_opnsense.Warp.Storing.{IsRandom}
use cf_masque_opnsense.Warp.Recorded.{IsRecorded}

module _ (c : Crypto) (laws : CryptoLaws c) (tools : Tools) (keep : ToolsKeep tools)
    (net : Net tools.Sys) (random : IsRandom net) (uuid : Text) where
  open tools use {Sys}

  -- The device `a` is what the API answered to a registration of a fresh WireGuard key.
  pub record Obtained (jwt : Text) (w : World Sys) (a : Acquired) : Type 0 where
    pub generated : (generate_wireguard_keypair tools w).0 ≡ ok (a.wg_priv, a.wg_pub)
    pub account : Json
    pub answered :
        (register_device net a.wg_pub
          (codes "PC")
          (codes "en_US")
          jwt
          []
          []
          (generate_wireguard_keypair tools w).1).0
        ≡ ok account
    pub has_id : get account (codes "id") (str []) ≡ ok a.device_id
    pub has_token : get account (codes "token") (str []) ≡ ok a.device_token

  -- The device carries the keys it is made from and the id and token of the account.
  abbrev Carries : Text × Text → Json → Acquired → Type 0
  Carries wg account a =
      (wg ≡ (a.wg_priv, a.wg_pub))
      × (get account (codes "id") (str []) ≡ ok a.device_id)
      × (get account (codes "token") (str []) ≡ ok a.device_token)

  abbrev device_or : Acquired → Result Attempt → Acquired
  device_or a (ok (acquired b)) = b
  device_or a _ = a

  -- What a success went through.
  pub record IsRegistered (jwt : Text) (w end : World Sys) : Type 0 where
    pub cfg : Config
    pub configured : config_of w.files ≡ ok cfg
    pub conn : Connection
    pub listed : lookup uuid cfg.connections ≡ some conn
    pub for_warp : is_warp conn.protocol ≡ true
    pub device : Acquired
    pub accepted : (acquire c tools net conn jwt w).0 ≡ ok (acquired device)
    pub obtained : Obtained jwt w device
    pub recorded :
        IsRecorded c laws tools keep net random uuid device (read config_file w.files) end
