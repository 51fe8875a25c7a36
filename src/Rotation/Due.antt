-- ===== src/Rotation/Due.antt =====
-- When a key is due.
use cf_masque_opnsense.Prelude.{
  false, ℕ, ◌+◌, ◌-◌, ◌*◌, ◌/◌, ◌<◌, ◌≤◌, ◌≡◌, refl, pos, true, false, none, some, arith, ltb,
  if◌then◌else◌, is_nil,
}
use cf_masque_opnsense.Config.{Connection}
use cf_masque_opnsense.Health.{is_registered}
use cf_masque_opnsense.Calendar.{Stamp, is_valid, strftime, instant}
use cf_masque_opnsense.Calendar.Laws.{strptime-strftime}
use cf_masque_opnsense.Rotation.{days_since, due_reason, reason_since, days_between}

pub is_nil-strftime : (s : Stamp) → is_nil (strftime s) ≡ false
unfolding strftime
is_nil-strftime s = refl

reason_since-pos :
    (now d : ℕ) (s : Stamp)
    → instant s ≤ now
    → reason_since now (pos d) (some s) ≡ (
        if ltb now (instant s + d * 86400)
        then none
        else some (days_since (pos ((now - instant s) / 86400))))
unfolding days_between
reason_since-pos now d s h = ground arith

-- A key whose rotation was recorded by `strftime` is due from `d` days after it on, and not
-- before, for a registered connection that rotates keys.
pub due_reason-strftime :
    (now d : ℕ) (s : Stamp) (conn : Connection)
    → conn.auto_rotate_keys ≡ true
    → is_registered conn.registration_status ≡ true
    → conn.key_rotation_days ≡ pos d
    → conn.last_key_rotation ≡ strftime s
    → is_valid s ≡ true
    → s.year < 10_000
    → instant s ≤ now
    → due_reason now conn ≡ (
        if ltb now (instant s + d * 86400)
        then none
        else some (days_since (pos ((now - instant s) / 86400))))
unfolding due_reason
due_reason-strftime now d s conn a r k l v y h =
    simp (a, r, k, l, is_nil-strftime s, strptime-strftime s v y, reason_since-pos now d s h)
