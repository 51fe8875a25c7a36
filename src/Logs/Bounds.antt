-- ===== src/Logs/Bounds.antt =====
-- How many entries `cmd_logs` answers with.
use cf_masque_opnsense.Prelude.{
  ℕ, suc, ◌-◌, ◌≤◌, ◌≡◌, pos, Bool-cases, Option, none, some, List, ◌++◌, arith, inl, inr, length,
  length-drop,
}
use cf_masque_opnsense.Text.{Text, codes, text_eq}
use cf_masque_opnsense.Dict.{lookup}
use cf_masque_opnsense.Outcome.{Result, ok, raise, ◌>>=◌}
use cf_masque_opnsense.Config.{Config, Connection}
use cf_masque_opnsense.Files.{Files}
use cf_masque_opnsense.Process.{config_of}
use cf_masque_opnsense.Logs.{
  LogTools, LogReply, entries_of, entries_in, last_entries, splitlines, syslog_entries,
  connection_entries, found_entries, with_tail, cmd_logs,
}

length-last_entries : (n : ℕ) (es : List Text) → length (last_entries (pos (suc n)) es) ≤ suc n
unfolding last_entries
length-last_entries n es = omega (arith, length-drop (length es - suc n) es)

module _ (tools : LogTools) (n : ℕ) where
  length-syslog_entries : (p : Text) → length (syslog_entries tools p (pos (suc n))) ≤ suc n
  unfolding syslog_entries
  length-syslog_entries p = length-last_entries n _

  -- A result, if there is one, of at most n + 1 entries.
  abbrev Within : Result (List Text) → Type 0
  Within (ok es) = length es ≤ suc n
  Within (raise e) = Unit

  abbrev WithinReply : Result LogReply → Type 0
  WithinReply (ok reply) = length (entries_in reply) ≤ suc n
  WithinReply (raise e) = Unit

  with_tail-Within :
      (es : List Text) (r : Result (Option Text))
      → length es ≤ suc n
      → Within (r >>= λ out. ok (with_tail (pos (suc n)) es out))
  with_tail-Within es (raise e) h = tt
  with_tail-Within es (ok none) h = h
  with_tail-Within es (ok (some out)) h = length-last_entries n (es ++ splitlines out)

  connection_entries-Within :
      (uuid : Text) (conn : Connection) → Within (connection_entries tools uuid conn (pos (suc n)))
  unfolding connection_entries
  connection_entries-Within uuid conn =
      elim (Bool-cases (text_eq conn.protocol (codes "cloudflared"))) [
        | inl h ↦ rw h (with_tail-Within _ _ (length-syslog_entries _))
        | inr h ↦ rw h (length-syslog_entries _)
      ]

  named-WithinReply :
      (name : Text) (r : Result (List Text))
      → Within r
      → WithinReply (r >>= λ es. ok (entries_of name es))
  named-WithinReply name (raise e) h = tt
  named-WithinReply name (ok es) h = h

  found_entries-WithinReply :
      (uuid : Text) (o : Option Connection) → WithinReply (found_entries tools uuid (pos (suc n)) o)
  found_entries-WithinReply uuid none = omega arith
  found_entries-WithinReply uuid (some conn) =
      named-WithinReply conn.name _ (connection_entries-Within uuid conn)

  configured-WithinReply :
      (uuid : Text) (r : Result Config)
      → WithinReply
          (r >>= λ cfg. found_entries tools uuid (pos (suc n)) (lookup uuid cfg.connections))
  configured-WithinReply uuid (raise e) = tt
  configured-WithinReply uuid (ok cfg) =
      found_entries-WithinReply uuid (lookup uuid cfg.connections)

  cmd_logs-WithinReply :
      (uuid : Text) (fs : Files) → WithinReply (cmd_logs tools uuid (pos (suc n)) fs)
  unfolding cmd_logs
  cmd_logs-WithinReply uuid fs = elim (Bool-cases (text_eq uuid (codes "all"))) [
    | inl h ↦ rw h (length-syslog_entries _)
    | inr h ↦ rw h (configured-WithinReply uuid (config_of fs))
  ]

  -- `logs` answers with at most as many entries as it is asked for, for a number from one on.
  pub length-cmd_logs :
      (uuid : Text) (fs : Files) (reply : LogReply)
      → cmd_logs tools uuid (pos (suc n)) fs ≡ ok reply
      → length (entries_in reply) ≤ suc n
  length-cmd_logs uuid fs reply e = let s = cmd_logs-WithinReply uuid fs in rw e at s
