-- ===== src/Cli/Rotation.antt =====
-- The shape of what warp.py prints, and its counts.
use cf_masque_opnsense.Prelude.{
  ℕ, ◌+◌, ◌≡◌, refl, Bool, false, Option, none, some, List, [], ◌∷◌, ◌++◌, if◌then◌else◌, not, ◌&&◌,
  is_nil, Bool-cases, inl, inr,
}
use cf_masque_opnsense.Text.{Text, codes, text_eq}
use cf_masque_opnsense.Outcome.{Failure, Result, ok, raise}
use cf_masque_opnsense.Dict.{lookup}
use cf_masque_opnsense.Json.{Json, Items, str, obj, nil, cons, find_member}
use cf_masque_opnsense.Json.Dumps.{dumps}
use cf_masque_opnsense.Json.Printed.{IsLine, dumps-IsLine}
use cf_masque_opnsense.Secrets.{Crypto}
use cf_masque_opnsense.Keys.{Tools}
use cf_masque_opnsense.Api.{Net}
use cf_masque_opnsense.Process.{World}
use cf_masque_opnsense.Program.{Program, continue, return}
use cf_masque_opnsense.Warp.{
  Answer, connection_missing, no_registration_for, incomplete_response, not_registered,
  no_device_token, api_error, unexpected_error, cert_failed, update_failed, enrolled, registered,
  Rotated, count_ok, is_ok,
}
use cf_masque_opnsense.Cli.{Exit, exit, failed_dict}
use cf_masque_opnsense.Cli.Warp.{answer_json, rotated_items, warp_main, warp_run, warp_dispatch}

abbrev is_ok_text : Option Json → Bool
is_ok_text (some (str t)) = text_eq t (codes "ok")
is_ok_text _ = false

-- A member `name` of an object.
abbrev member_of : Text → Json → Option Json
member_of name (obj ms) = find_member name ms
member_of name _ = none

abbrev says_ok : Option Json → Bool
says_ok none = false
says_ok (some v) = is_ok_text (member_of (codes "result") v)

-- How many of the printed entries have a result whose own result is "ok".
unfoldable pub printed_ok : Items → ℕ
printed_ok nil = 0
printed_ok (cons v vs) =
    if says_ok (member_of (codes "result") v) then printed_ok vs + 1 else printed_ok vs

module _ (own : Failure → Text) where
  says_ok-answer : (a : Answer) → says_ok (some (answer_json own a)) ≡ is_ok a
  unfolding answer_json is_ok text_eq find_member
  says_ok-answer (connection_missing u) = refl
  says_ok-answer (no_registration_for p) = refl
  says_ok-answer incomplete_response = refl
  says_ok-answer not_registered = refl
  says_ok-answer no_device_token = refl
  says_ok-answer (api_error s m) = refl
  says_ok-answer (unexpected_error e) = refl
  says_ok-answer (cert_failed e) = refl
  says_ok-answer (update_failed e) = refl
  says_ok-answer enrolled = refl
  says_ok-answer (registered r) = refl

  -- The count of the successful rotations is the number of the printed entries whose result says
  -- "ok".
  pub count_ok-printed_ok : (rs : List Rotated) → count_ok rs ≡ printed_ok (rotated_items own rs)
  unfolding count_ok printed_ok text_eq find_member
  count_ok-printed_ok [] = refl
  count_ok-printed_ok (r ∷ rs) = rw (says_ok-answer r.result, count_ok-printed_ok rs) refl

  module _ (crypto : Crypto) (tools : Tools) (net : Net tools.Sys) where
    open tools use {Sys}

    abbrev Lined : Result (Exit Text) × World Sys → Type 0
    Lined x = (e : Exit Text) → x.0 ≡ ok e → IsLine e.printed

    exit-Lined : (code : ℕ) (v : Json) (w : World Sys) → Lined (ok (exit code (dumps v)), w)
    exit-Lined code v w e h = let q : exit code (dumps v) ≡ e = cc in rw (← q) (dumps-IsLine v)

    print-Lined :
        (x : Result Json × World Sys) → Lined (continue (λ a. return (exit 0 (dumps a))) x)
    print-Lined (ok v, w) = exit-Lined 0 v w
    print-Lined (raise f, w) = λ e h. cc

    run-Lined :
        (cmd : Text) (args : List Text) (o : Option (Program Sys Json)) (w : World Sys)
        → Lined (warp_run own crypto tools net cmd args o w)
    run-Lined cmd args none w = exit-Lined 1 _ w
    run-Lined cmd args (some p) w =
        elim (Bool-cases (not (text_eq cmd (codes "rotatekeyscheck")) && is_nil args)) [
          | inl e ↦
              rw e (exit-Lined 1 (failed_dict (codes "Unknown command or missing args: " ++ cmd)) w)
          | inr e ↦ rw e (print-Lined (p w))
        ]

    -- Whatever the command line and whatever the API answers, a run of warp.py that ends prints one
    -- line of printable ASCII.
    pub warp_main-IsLine :
        (argv : List Text) (w : World Sys) (e : Exit Text)
        → (warp_main own crypto tools net argv w).0 ≡ ok e
        → IsLine e.printed
    unfolding warp_main
    warp_main-IsLine [] w e h = exit-Lined 1 (failed_dict (codes "No command")) w e h
    warp_main-IsLine (cmd ∷ args) w e h =
        run-Lined cmd args (lookup cmd (warp_dispatch own crypto tools net args)) w e h
