-- ===== src/Witness/Tokens.antt =====
-- The validation of an API token against concrete answers.
use cf_masque_opnsense.Prelude.{pos, ◌≡◌, refl, Bool, true, false, []}
use cf_masque_opnsense.Text.{codes, text_eq}
use cf_masque_opnsense.Outcome.{ok}
use cf_masque_opnsense.Json.{
  Json, Members, null, bool, int, str, arr, obj, nil, cons, end, member, get, is_true, find_member,
}
use cf_masque_opnsense.Process.{World}
use cf_masque_opnsense.Api.{
  Reply, answered, rejected, valid, validate_api_token, cf_request, verdict_of, valid_token,
}
use cf_masque_opnsense.Api.Errors.{verification, validate_api_token-valid}
use cf_masque_opnsense.Witness.Enrolment.{toy_net}

abbrev idle : World Bool
idle = record { files = []; sys = true }

-- {"success": true, "result": {"status": "active"}}
abbrev passed : Json
passed = obj (
    member (codes "success") (bool true)
      (member (codes "result") (obj (member (codes "status") (str (codes "active")) end)) end))

token_passes :
    (validate_api_token (toy_net (answered passed)) (codes "t") idle).0
    ≡ ok (valid (str (codes "active")))
unfolding validate_api_token cf_request verdict_of valid_token get is_true find_member text_eq
token_passes = refl

validate_api_token-valid_example :
    (v : Json) × (verification (toy_net (answered passed)) (codes "t") idle ≡ answered v)
    × ((success : Json) × (get v (codes "success") null ≡ ok success) × (is_true success ≡ true))
validate_api_token-valid_example =
    validate_api_token-valid (toy_net (answered passed)) (codes "t") idle (str (codes "active"))
      token_passes

-- The body that the API sends with the status 403.
abbrev bad : Members
bad = member (codes "code") (int (pos 1000)) (member (codes "message") (str (codes "bad")) end)

abbrev forbidden_body : Members
forbidden_body = member (codes "success") (bool false) (
    member (codes "errors") (arr (cons (obj bad) nil))
      (member (codes "messages") (arr nil) (member (codes "result") null end)))

abbrev forbidden : Reply
forbidden = rejected (pos 403) (obj forbidden_body)
