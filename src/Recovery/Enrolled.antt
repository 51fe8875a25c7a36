-- ===== src/Recovery/Enrolled.antt =====
-- warp.py and service.py together: an enrolment, and a start of the connection after it.
use cf_masque_opnsense.Prelude.{◌≡◌, refl, ◌∙◌, true, some}
use cf_masque_opnsense.Text.{Text, text_eq, one_of}
use cf_masque_opnsense.Dict.{lookup}
use cf_masque_opnsense.Outcome.{ok}
use cf_masque_opnsense.Config.{Config, Connection}
use cf_masque_opnsense.Config.Xml.{Element}
use cf_masque_opnsense.Files.{Content, xml, read}
use cf_masque_opnsense.Secrets.{Crypto}
use cf_masque_opnsense.Secrets.Laws.{CryptoLaws}
use cf_masque_opnsense.Process.{Os, World, is_warp, config_of, config_file, connection_running}
use cf_masque_opnsense.Keys.{Tools}
use cf_masque_opnsense.Api.{Net}
use cf_masque_opnsense.Health.{is_registered}
use cf_masque_opnsense.Lifecycle.{cfzt_warp_bin}
use cf_masque_opnsense.Service.{cmd_startconn}
use cf_masque_opnsense.Update.Reading.{once}
use cf_masque_opnsense.Update.Reloaded.{connection_nodes}
use cf_masque_opnsense.Warp.{enrolled, cmd_enroll}
use cf_masque_opnsense.Warp.Generation.{ToolsKeep}
use cf_masque_opnsense.Warp.Storing.{IsRandom}
use cf_masque_opnsense.Warp.Reread.{enrolled_as}
use cf_masque_opnsense.Warp.Reloaded.{cmd_enroll-Renewed}
use cf_masque_opnsense.Recovery.Started.{Supports}
use cf_masque_opnsense.Recovery.Command.{cmd_startconn-Running}

module _ (c : Crypto) (laws : CryptoLaws c) (tools : Tools) (keep : ToolsKeep tools)
    (net : Net tools.Sys) (random : IsRandom net) (os : Os) (supports : Supports os)
    (uuid : Text) where
  -- After an enrolment that answers that it is done, of the one connection of the uuid in
  -- config.xml, which is for WARP, `startconn` brings the connection's daemon up, in any system that
  -- reads the configuration that the enrolment left and has the WARP binary, if daemons that are
  -- started come up and daemons that run stay up, and the cipher, openssl and the random bytes keep
  -- their contracts.
  pub cmd_startconn-cmd_enroll :
      (w : World tools.Sys) (cfg : Config) (root : Element) (conn : Connection) (v : World os.Sys)
      (binary : Content)
      → config_of w.files ≡ ok cfg
      → read config_file w.files ≡ some (xml root)
      → once uuid (connection_nodes root) ≡ true
      → lookup uuid cfg.connections ≡ some conn
      → is_warp conn.protocol ≡ true
      → (cmd_enroll c tools net uuid w).0 ≡ ok enrolled
      → config_of v.files ≡ config_of (cmd_enroll c tools net uuid w).1.files
      → read cfzt_warp_bin v.files ≡ some binary
      → connection_running os uuid conn.protocol (cmd_startconn os c uuid v).1 ≡ true
  unfolding is_registered one_of text_eq
  cmd_startconn-cmd_enroll w cfg root conn v binary h r o l p e same installed =
      let (found, listed, renewed) =
        cmd_enroll-Renewed c laws tools keep net random uuid w cfg root h r o e in
      let is_found : found ≡ conn = cc in
      cmd_startconn-Running os supports c uuid
        (enrolled_as uuid (net.now (cmd_enroll c tools net uuid w).1.sys) conn) v
        (record cfg { connections = renewed.connections' }) binary (same ∙ renewed.result_ok)
        (rw (← is_found) renewed.renewed) installed refl p
