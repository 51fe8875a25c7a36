-- ===== src/Service/Counts.antt =====
-- The two status commands agree.
use cf_masque_opnsense.Prelude.{
  ℕ, suc, ◌≡◌, refl, Bool, true, false, [], ◌∷◌, arith, if◌then◌else◌, Bool-cases, inl, inr, length,
}
use cf_masque_opnsense.Text.{Text, codes, text_eq}
use cf_masque_opnsense.Dict.{Dict}
use cf_masque_opnsense.Config.{Connection}
use cf_masque_opnsense.Process.{Os, World, pid_file, read_pid, is_running, connection_running}
use cf_masque_opnsense.Service.{Status, count_running, status_of, statuses}

-- The enabled connections.
abbrev pub enabled_only : Dict Connection → Dict Connection
enabled_only [] = []
enabled_only ((uuid, conn) ∷ more) =
    let rest = enabled_only more in if conn.enabled then (uuid, conn) ∷ rest else rest

-- How many of the answers say `connected`.
abbrev pub connected : Dict Status → ℕ
connected [] = 0
connected ((uuid, s) ∷ more) =
    let rest = connected more in if text_eq s.status (codes "connected") then suc rest else rest

pair : {a b c d : ℕ} → a ≡ c → b ≡ d → ◌≡◌ {A = ℕ × ℕ} (a, b) (c, d)
pair e f = λ i. (e i, f i)

module _ (os : Os) (w : World os.Sys) where
  connected-status_of :
      (uuid : Text) (conn : Connection)
      → text_eq (status_of os uuid conn w).status (codes "connected")
        ≡ connection_running os uuid conn.protocol w
  unfolding status_of connection_running
  connected-status_of uuid conn =
      elim (Bool-cases (is_running os (read_pid (pid_file uuid conn.protocol) w.files) w.sys)) [
        | inl e ↦ rw e (unfold text_eq in refl)
        | inr e ↦ rw e (off conn.enabled)
      ]
    where
      off :
          (b : Bool)
          → text_eq (if b then codes "stopped" else codes "disabled") (codes "connected") ≡ false
      off true = unfold text_eq in refl
      off false = unfold text_eq in refl

  -- `status` counts as active the enabled connections that `allstatus` calls connected, out of all
  -- the enabled ones.
  pub count_running-statuses :
      (conns : Dict Connection)
      → count_running os conns w
        ≡ (connected (statuses os (enabled_only conns) w), length (enabled_only conns))
  unfolding count_running statuses
  count_running-statuses [] = refl
  count_running-statuses ((uuid, conn) ∷ more) = elim (Bool-cases conn.enabled) [
    | inl e ↦ elim (Bool-cases (connection_running os uuid conn.protocol w)) [
      | inl f ↦
          simp (e, f, connected-status_of uuid conn, count_running-statuses more)
            (pair (omega arith) (omega arith))
      | inr f ↦
          simp (e, f, connected-status_of uuid conn, count_running-statuses more)
            (pair (omega arith) (omega arith))
    ]
    | inr e ↦ simp e (count_running-statuses more)
  ]
