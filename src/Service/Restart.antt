-- ===== src/Service/Restart.antt =====
-- What `start` and `restart` do about the enabled flags.
use cf_masque_opnsense.Prelude.{
  ◌≡◌, refl, fun_ext, ap, ◌∙◌, [], ◌∷◌, ◌++◌, List, Bool-cases, inl, inr,
}
use cf_masque_opnsense.Text.{Text}
use cf_masque_opnsense.Dict.{Dict}
use cf_masque_opnsense.Outcome.{Result, ok, raise}
use cf_masque_opnsense.Config.{Connection}
use cf_masque_opnsense.Process.{Os, World}
use cf_masque_opnsense.Secrets.{Crypto}
use cf_masque_opnsense.Service.{and_then, start_one, start_all}
use cf_masque_opnsense.Service.Counts.{enabled_only}

module _ (os : Os) (crypto : Crypto) where
  and_then_nothing :
      (r : Result (List Text) × World os.Sys) → and_then r (λ rs w2. (ok ([] ++ rs), w2)) ≡ r
  and_then_nothing (ok rs, w) = refl
  and_then_nothing (raise e, w) = refl

  -- `start` passes over disabled connections: it does what it would do if they were not there.
  start_all-enabled_only :
      (conns : Dict Connection) (w : World os.Sys)
      → start_all os crypto conns w ≡ start_all os crypto (enabled_only conns) w
  unfolding start_all
  start_all-enabled_only [] w = refl
  start_all-enabled_only ((uuid, conn) ∷ more) w = elim (Bool-cases conn.enabled) [
    | inl e ↦ simp e (
        ap
          (λ (k : World os.Sys → Result (List Text) × World os.Sys).
            and_then (start_one os crypto uuid conn w)
              (λ r w1. and_then (k w1) (λ rs w2. (ok (r ++ rs), w2))))
          (fun_ext (start_all-enabled_only more)))
    | inr e ↦ simp e (and_then_nothing (start_all os crypto more w) ∙ start_all-enabled_only more w)
  ]
