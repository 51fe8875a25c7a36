-- ===== src/Warp/Reloaded.antt =====
-- The configuration that the scripts read after a successful cmd_enroll.
use cf_masque_opnsense.Prelude.{◌≡◌, refl, sym, ◌∙◌, true, false, some, [], ◌∷◌, is_nil}
use cf_masque_opnsense.Text.{Text, text_eq}
use cf_masque_opnsense.Text.Equality.{text_eq_refl}
use cf_masque_opnsense.Dict.{Dict, lookup}
use cf_masque_opnsense.Outcome.{Result, ok}
use cf_masque_opnsense.Calendar.{Stamp}
use cf_masque_opnsense.Config.{Config, Connection, get_config}
use cf_masque_opnsense.Config.Xml.{Element}
use cf_masque_opnsense.Files.{Files, xml, read}
use cf_masque_opnsense.Secrets.{Crypto}
use cf_masque_opnsense.Secrets.Laws.{CryptoLaws}
use cf_masque_opnsense.Process.{World, config_of, config_file}
use cf_masque_opnsense.Keys.{Tools}
use cf_masque_opnsense.Api.{Net}
use cf_masque_opnsense.Update.{matches, uuid_pattern}
use cf_masque_opnsense.Update.Written.{Written, Written-config}
use cf_masque_opnsense.Update.Reading.{once}
use cf_masque_opnsense.Update.Reloaded.{Reloaded, connection_nodes, get_config-Reloaded}
use cf_masque_opnsense.Warp.{enrolled, enrol_updates, cmd_enroll}
use cf_masque_opnsense.Warp.Generation.{ToolsKeep}
use cf_masque_opnsense.Warp.Storing.{IsRandom}
use cf_masque_opnsense.Warp.Success.{cmd_enroll-IsDone}
use cf_masque_opnsense.Warp.Reread.{enrolled_as, read_connection-enrolled_as}

uuid_filled : (uuid : Text) → matches uuid_pattern uuid ≡ true → is_nil uuid ≡ false
unfolding matches
uuid_filled [] h = cc
uuid_filled (x ∷ t) h = refl

config_of-xml :
    (fs : Files) (root : Element)
    → read config_file fs ≡ some (xml root)
    → config_of fs ≡ get_config (some root)
unfolding config_of
config_of-xml fs root h = rw h refl

same_root :
    (fs : Files) (a b : Element)
    → read config_file fs ≡ some (xml a)
    → read config_file fs ≡ some (xml b)
    → a ≡ b
same_root fs a b h k = cc

module _ (uuid : Text) (fs0 fs fs' : Files) (time : Stamp)
    (before : read config_file fs ≡ read config_file fs0)
    (written : Written uuid (enrol_updates uuid time) fs fs') where
  written-Reloaded :
      (cfg : Config) (root : Element)
      → config_of fs0 ≡ ok cfg
      → read config_file fs0 ≡ some (xml root)
      → once uuid (connection_nodes root) ≡ true
      → Reloaded uuid
          (enrol_updates uuid time)
          (enrolled_as uuid time)
          (uuid_filled uuid written.valid)
          (read_connection-enrolled_as uuid time)
          cfg
          (config_of fs')
  written-Reloaded cfg root c d o =
      let e : written.root ≡ root =
        same_root fs0 written.root root (sym before ∙ written.before) d in
      rw (config_of-xml fs' written.root' (Written-config written)) (
        get_config-Reloaded uuid (enrol_updates uuid time) (enrolled_as uuid time)
          (uuid_filled uuid written.valid) (read_connection-enrolled_as uuid time) written.root
          written.root' cfg (rw e (sym (config_of-xml fs0 root d) ∙ c)) (rw e o) written.updated)

-- A configuration in which the connection of one uuid is enrolled, and all else as before.
pub record Renewed (uuid : Text) (time : Stamp) (cfg : Config) (conn : Connection)
    (result : Result Config) : Type 0 where
  pub connections' : Dict Connection
  pub result_ok : result ≡ ok (record cfg { connections = connections' })
  pub renewed : lookup uuid connections' ≡ some (enrolled_as uuid time conn)
  pub others :
      (v : Text) → text_eq uuid v ≡ false → lookup v connections' ≡ lookup v cfg.connections

module _ (uuid : Text) (time : Stamp) (filled : is_nil uuid ≡ false) (cfg : Config)
    (conn : Connection) (listed : lookup uuid cfg.connections ≡ some conn) where
  Reloaded-Renewed :
      (result : Result Config)
      → Reloaded uuid
          (enrol_updates uuid time)
          (enrolled_as uuid time)
          filled
          (read_connection-enrolled_as uuid time)
          cfg
          result
      → Renewed uuid time cfg conn result
  Reloaded-Renewed result r = record {
    connections' = r.connections';
    result_ok = r.reloaded;
    renewed = r.changed uuid ∙ rw (text_eq_refl uuid, listed) refl;
    others = λ v n. r.changed v ∙ rw n refl;
  }

module _ (c : Crypto) (laws : CryptoLaws c) (tools : Tools) (keep : ToolsKeep tools)
    (net : Net tools.Sys) (random : IsRandom net) (uuid : Text) where
  open tools use {Sys}
  open net use {now}

  -- After an enrolment that answers that it is done, where config.xml had exactly one connection
  -- with the uuid, the scripts read the same configuration as before, but that this connection has
  -- the references to its new key, the state "enrolled" and, as the time of the rotation, the
  -- clock's.
  pub cmd_enroll-Renewed :
      (w : World Sys) (cfg : Config) (root : Element)
      → config_of w.files ≡ ok cfg
      → read config_file w.files ≡ some (xml root)
      → once uuid (connection_nodes root) ≡ true
      → (cmd_enroll c tools net uuid w).0 ≡ ok enrolled
      → (conn : Connection) × (lookup uuid cfg.connections ≡ some conn)
        × Renewed uuid
            (now (cmd_enroll c tools net uuid w).1.sys)
            cfg
            conn
            (config_of (cmd_enroll c tools net uuid w).1.files)
  cmd_enroll-Renewed w cfg root h d o e =
      let done = cmd_enroll-IsDone c laws tools keep net random uuid w e in
      let kept = done.kept in
      let same : done.cfg ≡ cfg = (let k = done.configured in cc) in
      let listed : lookup uuid cfg.connections ≡ some done.conn = rw (← same) done.listed in
      (
        done.conn,
        listed,
        Reloaded-Renewed uuid (now (cmd_enroll c tools net uuid w).1.sys)
            (uuid_filled uuid kept.written.valid) cfg done.conn listed _
            (written-Reloaded uuid w.files kept.earlier _
              (now (cmd_enroll c tools net uuid w).1.sys) kept.document_before kept.written cfg root
              h d o),
      )
