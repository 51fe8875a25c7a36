-- ===== src/Process/Laws.antt =====
-- Pid files: no two connections share one, and a written pid reads back.
use mathlib.Core.List.{append_cancel_right}
use cf_masque_opnsense.Prelude.{
  ℕ, zero, suc, ap, ◌^◌, ◌≤◌, ◌<◌, ◌≡◌, refl, Bool, true, false, some, [], ◌∷◌, ◌++◌, arith, pos,
  if◌then◌else◌,
}
use cf_masque_opnsense.Text.{Text, codes}
use cf_masque_opnsense.Text.Number.{decimal}
use cf_masque_opnsense.Text.Decimal.{int-strip-decimal}
use cf_masque_opnsense.Text.Equality.{text_eq_refl}
use cf_masque_opnsense.Files.{Files, plain, write, read}
use cf_masque_opnsense.Files.Laws.{lookup-write}
use cf_masque_opnsense.Process.{pid_file, is_warp, read_pid}

abbrev char_at : ℕ → Text → ℕ
char_at n [] = 0
char_at zero (c ∷ t) = c
char_at (suc n) (c ∷ t) = char_at n t

path_of : Bool → Text → Text
path_of warp uuid =
    codes "/var/run/"
    ++ ((if warp then codes "cfzt-warp" else codes "cloudflared")
        ++ (codes "-" ++ (uuid ++ codes ".pid")))

path_of_injective : (a b : Bool) (u v : Text) → path_of a u ≡ path_of b v → (a ≡ b) × (u ≡ v)
unfolding path_of
path_of_injective true true u v h = (refl, append_cancel_right u v (codes ".pid") (cc))
path_of_injective false false u v h = (refl, append_cancel_right u v (codes ".pid") (cc))
path_of_injective true false u v h = absurd (omega (arith, ap (char_at 10) h))
path_of_injective false true u v h = absurd (omega (arith, ap (char_at 10) h))

-- Two connections with the same pid file have the same uuid and the same kind of daemon.
pub pid_file_injective :
    (u v p q : Text) → pid_file u p ≡ pid_file v q → (is_warp p ≡ is_warp q) × (u ≡ v)
unfolding pid_file path_of
pid_file_injective u v p q h = path_of_injective (is_warp p) (is_warp q) u v h

-- A pid written in decimal, of at most 4300 digits, is the pid read.
read_pid-write :
    (path : Text) (n k : ℕ) (fs : Files)
    → k ≤ 4300
    → 0 < k
    → n < 10 ^ k
    → read_pid path (write path (plain (decimal n)) fs) ≡ some (pos n)
unfolding read_pid read
read_pid-write path n k fs l p h =
    rw (lookup-write path path (plain (decimal n)) fs, read, text_eq_refl)
      (int-strip-decimal k n l p h)
