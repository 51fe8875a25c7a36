-- ===== src/Rotation.antt =====
-- warp.py: the part of `cmd_rotatekeyscheck` that finds the connections whose key is due.
pub mod Due
use cf_masque_opnsense.Prelude.{
  ℕ, ◌-◌, ◌/◌, ℤ, pos, negsuc, Bool, true, false, not, ◌||◌, Option, none, some, List, [], ◌∷◌, leb,
  leb_ℤ, if◌then◌else◌, is_nil,
}
use cf_masque_opnsense.Text.{Text}
use cf_masque_opnsense.Dict.{Dict}
use cf_masque_opnsense.Config.{Connection}
use cf_masque_opnsense.Health.{is_registered}
use cf_masque_opnsense.Calendar.{Stamp, strptime, instant}

-- The entry of a connection in `due`, without its uuid and name.
pub data Reason : Type 0 where
  never_rotated invalid_date : Reason
  days_since : ℤ → Reason

pub record DueKey : Type 0 where
  pub uuid : Text
  pub name : Text
  pub reason : Reason

-- (now - last_dt).days, for two moments in seconds; Python rounds towards minus infinity.
unfoldable pub days_between : ℕ → ℕ → ℤ
days_between now last =
    if leb last now then pos ((now - last) / 86400) else negsuc ((last - now - 1) / 86400)

-- The `try` of the loop body.
abbrev pub reason_since : ℕ → ℤ → Option Stamp → Option Reason
reason_since now days none = some invalid_date
reason_since now days (some last_dt) =
    let since = days_between now (instant last_dt) in
    if leb_ℤ days since then some (days_since since) else none

-- The loop body: why the key of a connection is due, `none` where it is not.
unfoldable pub due_reason : ℕ → Connection → Option Reason
due_reason now conn =
    if not conn.auto_rotate_keys
    then none
    else if not (is_registered conn.registration_status)
    then none
    else if is_nil conn.last_key_rotation
    then some never_rotated
    else reason_since now conn.key_rotation_days (strptime conn.last_key_rotation)

abbrev pub listed : Text → Text → Option Reason → List DueKey → List DueKey
listed u n none rest = rest
listed u n (some r) rest = record { uuid = u; name = n; reason = r } ∷ rest

-- The list `due`.
unfoldable pub due_connections : ℕ → Dict Connection → List DueKey
due_connections now [] = []
due_connections now ((uuid, conn) ∷ more) =
    listed uuid conn.name (due_reason now conn) (due_connections now more)
