-- ===== src/Warp/Fresh.antt =====
-- When the key of an enrolment is due again: the composition of warp.py's `cmd_enroll`, the reader
-- of cfzt_config.py and the check of `cmd_rotatekeyscheck`.
use cf_masque_opnsense.Prelude.{
  ℕ, ◌+◌, ◌*◌, ◌/◌, ◌<◌, ◌≡◌, refl, ◌∙◌, pos, true, false, none, some, ltb, arith, if◌then◌else◌,
}
use cf_masque_opnsense.Text.{
  Text, text_eq, one_of, strip, is_space, strip_left, strip_right, strip_by,
}
use cf_masque_opnsense.Dict.{lookup}
use cf_masque_opnsense.Outcome.{ok}
use cf_masque_opnsense.Calendar.{Stamp, is_valid, strftime, instant}
use cf_masque_opnsense.Config.{Config, Connection}
use cf_masque_opnsense.Config.Xml.{Element}
use cf_masque_opnsense.Files.{xml, read}
use cf_masque_opnsense.Health.{is_registered}
use cf_masque_opnsense.Secrets.{Crypto}
use cf_masque_opnsense.Secrets.Laws.{CryptoLaws}
use cf_masque_opnsense.Process.{World, config_of, config_file}
use cf_masque_opnsense.Keys.{Tools}
use cf_masque_opnsense.Api.{Net}
use cf_masque_opnsense.Update.Reading.{once}
use cf_masque_opnsense.Update.Reloaded.{connection_nodes}
use cf_masque_opnsense.Rotation.{days_since, due_reason}
use cf_masque_opnsense.Rotation.Due.{due_reason-strftime}
use cf_masque_opnsense.Warp.{enrolled, cmd_enroll}
use cf_masque_opnsense.Warp.Generation.{ToolsKeep}
use cf_masque_opnsense.Warp.Storing.{IsRandom}
use cf_masque_opnsense.Warp.Reloaded.{cmd_enroll-Renewed}
use cf_masque_opnsense.Warp.Reread.{enrolled_as}

digit_no_space : (n : ℕ) → n < 10 → is_space (48 + n) ≡ false
unfolding is_space
digit_no_space n h = ground arith

strip-strftime : (s : Stamp) → s.year < 10_000 → strip (strftime s) ≡ strftime s
unfolding strip strip_by strip_left strip_right strftime
strip-strftime s y = rw (digit_no_space (s.year / 1000) (omega arith)) refl

-- The clock gives moments with a year of at most four digits.
pub record IsClock {Sys : Type 0} (now : Sys → Stamp) : Type 0 where
  pub valid : (s : Sys) → is_valid (now s) ≡ true
  pub four_digits : (s : Sys) → (now s).year < 10_000

module _ (c : Crypto) (laws : CryptoLaws c) (tools : Tools) (keep : ToolsKeep tools)
    (net : Net tools.Sys) (random : IsRandom net) (uuid : Text) where
  open tools use {Sys}
  open net use {now}

  enrolled_as-due :
      (time : Stamp) (conn : Connection) (d k : ℕ)
      → is_valid time ≡ true
      → time.year < 10_000
      → conn.auto_rotate_keys ≡ true
      → conn.key_rotation_days ≡ pos d
      → due_reason (instant time + k) (enrolled_as uuid time conn)
        ≡ (if ltb k (d * 86_400) then none else some (days_since (pos (k / 86_400))))
  unfolding is_registered one_of text_eq
  enrolled_as-due time conn d k v y a r =
      due_reason-strftime (instant time + k) d time (enrolled_as uuid time conn) a refl r
        (strip-strftime time y) v y (omega arith)
      ∙ ground arith

  -- After an enrolment that answers that it is done, where config.xml has one connection of the uuid
  -- that rotates keys every `d` days, the scripts read a connection whose key is not due `k` seconds
  -- after the clock's moment at the end of the enrolment where `k` is below `d` days, and is due,
  -- with the whole days passed, from there on; if the clock gives valid moments with a year of at
  -- most four digits, and the cipher, openssl and the random bytes keep their contracts.
  pub cmd_enroll-due :
      (clock : IsClock now) (w : World Sys) (cfg : Config) (root : Element) (conn : Connection)
      (d k : ℕ)
      → config_of w.files ≡ ok cfg
      → read config_file w.files ≡ some (xml root)
      → once uuid (connection_nodes root) ≡ true
      → lookup uuid cfg.connections ≡ some conn
      → conn.auto_rotate_keys ≡ true
      → conn.key_rotation_days ≡ pos d
      → (cmd_enroll c tools net uuid w).0 ≡ ok enrolled
      → (cfg' : Config) × (conn' : Connection) × (config_of (cmd_enroll c tools net uuid w).1.files
          ≡ ok cfg')
        × (lookup uuid cfg'.connections ≡ some conn')
        × (due_reason (instant (now (cmd_enroll c tools net uuid w).1.sys) + k) conn'
            ≡ (if ltb k (d * 86_400) then none else some (days_since (pos (k / 86_400)))))
  cmd_enroll-due clock w cfg root conn d k h r o l a days e =
      let (found, listed, renewed) =
        cmd_enroll-Renewed c laws tools keep net random uuid w cfg root h r o e in
      let same : found ≡ conn = cc in
      (
        record cfg { connections = renewed.connections' },
        enrolled_as uuid (now (cmd_enroll c tools net uuid w).1.sys) conn,
        renewed.result_ok,
        rw (← same) renewed.renewed,
        enrolled_as-due (now (cmd_enroll c tools net uuid w).1.sys) conn d k (clock.valid _)
            (clock.four_digits _) a days,
      )
