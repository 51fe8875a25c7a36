-- ===== src/Warp/Rotating.antt =====
-- cmd_rotatekeyscheck tries each key that is due, once and in order.
use cf_masque_opnsense.Prelude.{◌≤◌, ◌≡◌, List, [], ◌∷◌, map, length}
use cf_masque_opnsense.Text.{Text}
use cf_masque_opnsense.Outcome.{Result, ok}
use cf_masque_opnsense.Config.{Config}
use cf_masque_opnsense.Secrets.{Crypto}
use cf_masque_opnsense.Process.{World}
use cf_masque_opnsense.Keys.{Tools}
use cf_masque_opnsense.Api.{Net}
use cf_masque_opnsense.Program.{return, continue}
use cf_masque_opnsense.Rotation.{DueKey}
use cf_masque_opnsense.Warp.{Answer, Rotated, RotationReport, count_ok, cmd_enroll}

-- Which connection an entry is about.
abbrev pub due_tag : DueKey → Text × Text
due_tag d = (d.uuid, d.name)

abbrev pub rotated_tag : Rotated → Text × Text
rotated_tag r = (r.uuid, r.name)

module _ (c : Crypto) (tools : Tools) (net : Net tools.Sys) where
  open tools use {Sys}

  abbrev after_first :
      DueKey → Answer → Result (List Rotated) × World Sys → Result (List Rotated) × World Sys
  after_first item result x =
      continue
        (λ results.
          return (record { uuid = item.uuid; name = item.name; result = result } ∷ results))
        x

  -- The results `rs` of enrolments, each from the world that the one before it left.
  pub data Chain : World Sys → List Rotated → World Sys → Type 0 where
    done : {w : World Sys} → Chain w [] w
    next :
        {w end : World Sys} {r : Rotated} {rs : List Rotated}
        → (cmd_enroll c tools net r.uuid w).0 ≡ ok r.result
        → Chain (cmd_enroll c tools net r.uuid w).1 rs end
        → Chain w (r ∷ rs) end

  -- Results `rs` that account for `items`, from `w` to `end`.
  record Tries (items : List DueKey) (w : World Sys) (rs : List Rotated) (end : World Sys)
      : Type 0 where
    tags : map rotated_tag rs ≡ map due_tag items
    chain : Chain w rs end

  -- The report accounts for the connections `cfg`, of which the keys `due` are enrolled anew.
  pub record Accounts (cfg : Config) (due : List DueKey) (w end : World Sys) (r : RotationReport)
      : Type 0 where
    pub checked : r.checked ≡ length cfg.connections
    pub tried : map rotated_tag r.results ≡ map due_tag due
    pub enrolled : Chain w r.results end
    pub counted : r.rotated ≡ count_ok r.results
    pub bounded : r.rotated ≤ length r.results
