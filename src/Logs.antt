-- ===== src/Logs.antt =====
-- monitor.py: `_syslog_entries` and `cmd_logs`.
pub mod Bounds
use cf_masque_opnsense.Prelude.{
  ℕ, zero, suc, ◌-◌, ℤ, pos, negsuc, Bool, true, false, ◌||◌, ◌&&◌, Option, none, some, List, [],
  ◌∷◌, ◌++◌, leb, ◌==◌, if◌then◌else◌, drop, length,
}
use cf_masque_opnsense.Text.{Text, codes, text_eq}
use cf_masque_opnsense.Dict.{lookup}
use cf_masque_opnsense.Outcome.{Failure, Result, ok, raise, ◌>>=◌}
use cf_masque_opnsense.Config.{Connection}
use cf_masque_opnsense.Files.{Files}
use cf_masque_opnsense.Process.{config_of}

-- What the scripts call: the output in text mode, where each line ends in '\n'.
pub record LogTools : Type 0 where
  -- grep -a pattern file; `none` for FileNotFoundError and TimeoutExpired, which are caught
  pub grep : Text → Text → Option Text
  -- tail -n lines file: `none` for FileNotFoundError, which is caught
  pub tail : ℤ → Text → Result (Option Text)

-- Where `str.splitlines` splits.
unfoldable pub is_line_end : ℕ → Bool
is_line_end c =
    (leb 10 c && leb c 13) || (leb 28 c && leb c 30) || (c == 133) || (c == 8232) || (c == 8233)

abbrev pub onto_first : ℕ → List Text → List Text
onto_first c [] = (c ∷ []) ∷ []
onto_first c (l ∷ ls) = (c ∷ l) ∷ ls

-- out.splitlines(), for a text without '\r\n'
unfoldable pub splitlines : Text → List Text
unfolding is_line_end
splitlines [] = []
splitlines (c ∷ t) =
    let rest = splitlines t in if is_line_end c then [] ∷ rest else onto_first c rest

-- entries[-lines:]
unfoldable pub last_entries : ℤ → List Text → List Text
last_entries (pos zero) entries = entries
last_entries (pos (suc n)) entries = drop (length entries - suc n) entries
last_entries (negsuc n) entries = drop (suc n) entries

abbrev pub lines_of : Option Text → List Text
lines_of none = []
lines_of (some out) = splitlines out

abbrev pub log_files : List Text
log_files = codes "/var/log/system.log" ∷ codes "/var/log/messages" ∷ []

-- The answer of cmd_logs.
pub data LogReply : Type 0 where
  not_found : LogReply
  all_entries : List Text → LogReply
  entries_of : Text → List Text → LogReply

abbrev pub with_tail : ℤ → List Text → Option Text → List Text
with_tail lines entries none = entries
with_tail lines entries (some out) = last_entries lines (entries ++ splitlines out)

abbrev pub ident_of : Text → Connection → Text
ident_of uuid conn = codes "cfzt-warp\\[" ++ (conn.name ++ (codes "\\]\\|cloudflared-" ++ uuid))

module _ (tools : LogTools) where
  open tools use {grep, tail}

  -- The loop over the log files.
  unfoldable pub grep_all : Text → List Text → List Text
  grep_all pattern_text [] = []
  grep_all pattern_text (lf ∷ more) = lines_of (grep pattern_text lf) ++ grep_all pattern_text more

  -- _syslog_entries
  unfoldable pub syslog_entries : Text → ℤ → List Text
  syslog_entries pattern_text lines = last_entries lines (grep_all pattern_text log_files)

  -- The entries of one connection.
  unfoldable pub connection_entries : Text → Connection → ℤ → Result (List Text)
  connection_entries uuid conn lines =
      let entries = syslog_entries (ident_of uuid conn) lines in
      if text_eq conn.protocol (codes "cloudflared")
      then (do
        out ← tail lines (codes "/var/log/cloudflared-" ++ (uuid ++ codes ".log"))
        ok (with_tail lines entries out))
      else ok entries

  abbrev pub found_entries : Text → ℤ → Option Connection → Result LogReply
  found_entries uuid lines none = ok not_found
  found_entries uuid lines (some conn) = do
    entries ← connection_entries uuid conn lines
    ok (entries_of conn.name entries)

  unfoldable pub cmd_logs : Text → ℤ → Files → Result LogReply
  cmd_logs uuid lines fs =
      if text_eq uuid (codes "all")
      then ok (all_entries (syslog_entries (codes "cfzt-warp\\|cloudflared") lines))
      else (do cfg ← config_of fs; found_entries uuid lines (lookup uuid cfg.connections))

abbrev pub entries_in : LogReply → List Text
entries_in not_found = []
entries_in (all_entries entries) = entries
entries_in (entries_of name entries) = entries
