-- ===== src/Health/Naps.antt =====
-- The sleep between two rounds: how long it lasts, and that it ends early only when told to stop.
use cf_masque_opnsense.Prelude.{
  ℕ, zero, suc, ◌+◌, ◌-◌, ◌*◌, ◌<◌, ◌≤◌, ◌≡◌, true, false, arith, ltb, Bool-cases, inl, inr,
}
use Prim.Native.Nat.{min}
use cf_masque_opnsense.Process.{Os, World}
use cf_masque_opnsense.Health.{nap}

module _ (os : Os) where
  open os use {Sys, sleep, terminated}

  module _ (clock : World Sys → ℕ)
      (sleep_takes : (ms : ℕ) (w : World Sys) → clock (sleep ms w) ≡ clock w + ms) where
    -- With a signal handler that is never called, the naps take the seconds that are left, however
    -- much fuel above that is given.
    pub clock-nap :
        (never : (w : World Sys) → terminated w.sys ≡ false) (fuel elapsed interval : ℕ)
        (w : World Sys)
        → interval < fuel + elapsed
        → clock (nap os fuel elapsed interval w) ≡ clock w + (interval - elapsed) * 1000
    unfolding nap
    clock-nap never zero elapsed interval w h = omega arith
    clock-nap never (suc fuel) elapsed interval w h = elim (Bool-cases (ltb elapsed interval)) [
      | inl more ↦
          rw (never w, more)
            (omega (
              arith,
              clock-nap never fuel (elapsed + 5) interval
                  (sleep (min 5 (interval - elapsed) * 1000) w) (omega arith),
              sleep_takes (min 5 (interval - elapsed) * 1000) w,
              later more,
            ))
      | inr done ↦ rw (never w, done) (omega (arith, over done))
    ]
      where
        later : ltb elapsed interval ≡ true → elapsed < interval
        later e = ground arith

        over : ltb elapsed interval ≡ false → interval ≤ elapsed
        over e = ground arith
