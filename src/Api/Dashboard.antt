-- ===== src/Api/Dashboard.antt =====
-- cfzt_api.py: the calls of the Zero Trust dashboard API.
use cf_masque_opnsense.Prelude.{ℤ, Option, none, some, [], ◌∷◌, ◌++◌, if◌then◌else◌}
use cf_masque_opnsense.Text.{Text, codes, lstrip}
use cf_masque_opnsense.Base64.{b64encode}
use cf_masque_opnsense.Dict.{lookup}
use cf_masque_opnsense.Config.{Organization}
use cf_masque_opnsense.Secrets.{Crypto, get_secret}
use cf_masque_opnsense.Outcome.{Failure, Result, ok, raise, warp_api_error, value_error, os_error}
use cf_masque_opnsense.Json.{Json, null, str, arr, obj, nil, end, members, is_true, get}
use cf_masque_opnsense.Json.Shown.{shown}
use cf_masque_opnsense.Process.{config_of}
use cf_masque_opnsense.Program.{Program, on_system, lift, return, fail, from_files, try_with, ◌>>=◌}
use cf_masque_opnsense.Api.Messages.{dashboard_error, text_errors}
use cf_masque_opnsense.Api.Requests.{
  Request, Reply, Net, answered, answered_other, rejected, rejected_text, no_answer,
}

abbrev pub cf_api_base : Text
cf_api_base = codes "https://api.cloudflare.com/client/v4"

unfoldable pub cf_request_for : Text → Text → Text → Option Json → Request
unfolding lstrip
cf_request_for method path api_token body = record {
  url = cf_api_base ++ (codes "/" ++ lstrip b'/' path);
  method = method;
  headers =
      (codes "Authorization", codes "Bearer " ++ api_token)
      ∷ (codes "Content-Type", codes "application/json")
      ∷ [];
  body = body;
}

-- What validate_api_token returns: the status of a valid token; what the API calls its errors; or
-- the status and message of a WarpAPIError.
pub data TokenAnswer : Type 0 where
  valid : Json → TokenAnswer
  invalid : Text → TokenAnswer
  refused : ℤ → Text → TokenAnswer

-- What cmd_validatetoken prints.
pub data TokenReport : Type 0 where
  no_organization no_token : TokenReport
  token_report : TokenAnswer → TokenReport

abbrev pub account_path : Text → Text → Text
account_path account_id rest = codes "/accounts/" ++ (account_id ++ rest)

abbrev pub tunnel_path : Text → Text → Text → Text
tunnel_path account_id tunnel_id rest =
    account_path account_id (codes "/cfd_tunnel/" ++ (tunnel_id ++ rest))

module _ {S : Type 0} (net : Net S) where
  open net use {urlopen, random_bytes, is_printable}

  -- The answer of urlopen for _cf_request.
  abbrev pub cf_answer : Reply → Result Json
  cf_answer (answered v) = ok v
  cf_answer answered_other = raise value_error
  cf_answer (rejected status err) = raise (dashboard_error is_printable status err)
  cf_answer (rejected_text status t) = raise (dashboard_error is_printable status (text_errors t))
  cf_answer no_answer = raise os_error

  -- _cf_request
  unfoldable pub cf_request : Text → Text → Text → Option Json → Program S Json
  unfolding cf_request_for
  cf_request method path api_token body = do
    reply ← on_system (urlopen (cf_request_for method path api_token body))
    lift (cf_answer reply)

  unfoldable pub valid_token : Json → Program S TokenAnswer
  unfolding get
  valid_token result = do
    inner ← lift (get result (codes "result") (obj end))
    status ← lift (get inner (codes "status") null)
    return (valid status)

  unfoldable pub invalid_token : Json → Program S TokenAnswer
  unfolding get shown
  invalid_token result = do
    errors ← lift (get result (codes "errors") (str []))
    return (invalid (shown is_printable errors))

  -- What validate_api_token makes of an answer.
  unfoldable pub verdict_of : Json → Program S TokenAnswer
  unfolding is_true get valid_token invalid_token
  verdict_of result = do
    success ← lift (get result (codes "success") null)
    (if is_true success then valid_token result else invalid_token result)

  -- except WarpAPIError
  abbrev pub on_refusal : Failure → Program S TokenAnswer
  on_refusal (warp_api_error status message) = return (refused status message)
  on_refusal e = fail e

  unfoldable pub validate_api_token : Text → Program S TokenAnswer
  validate_api_token api_token w =
      try_with return on_refusal
        ((cf_request (codes "GET") (codes "/user/tokens/verify") api_token none >>= verdict_of) w)

  -- _cf_request(…).get('result', default)
  unfoldable pub result_of : Json → Text → Text → Text → Option Json → Program S Json
  result_of default method path api_token body = do
    result ← cf_request method path api_token body
    lift (get result (codes "result") default)

  unfoldable pub list_tunnels : Text → Text → Program S Json
  list_tunnels account_id api_token =
      result_of (arr nil) (codes "GET") (account_path account_id (codes "/cfd_tunnel")) api_token
        none

  -- base64.b64encode(secrets.token_bytes(32)).decode()
  unfoldable pub tunnel_secret : S → Text × S
  tunnel_secret s = let (b, s') = random_bytes 32 s in (b64encode b, s')

  unfoldable pub create_tunnel : Text → Text → Text → Program S Json
  create_tunnel account_id api_token name = do
    secret ← on_system tunnel_secret
    result_of (obj end) (codes "POST") (account_path account_id (codes "/cfd_tunnel")) api_token
        (some (obj (members ((codes "name", str name) ∷ (codes "tunnel_secret", str secret) ∷ []))))

  unfoldable pub get_tunnel_token : Text → Text → Text → Program S Json
  get_tunnel_token account_id api_token tunnel_id =
      result_of (str []) (codes "GET") (tunnel_path account_id tunnel_id (codes "/token")) api_token
        none

  unfoldable pub delete_tunnel : Text → Text → Text → Program S Json
  delete_tunnel account_id api_token tunnel_id =
      result_of (obj end) (codes "DELETE") (tunnel_path account_id tunnel_id []) api_token none

  unfoldable pub rotate_tunnel_secret : Text → Text → Text → Program S Json
  rotate_tunnel_secret account_id api_token tunnel_id = do
    secret ← on_system tunnel_secret
    result_of (obj end) (codes "PATCH") (tunnel_path account_id tunnel_id []) api_token
        (some (obj (members ((codes "tunnel_secret", str secret) ∷ []))))

  unfoldable pub list_tunnel_connections : Text → Text → Text → Program S Json
  list_tunnel_connections account_id api_token tunnel_id =
      result_of (arr nil) (codes "GET") (tunnel_path account_id tunnel_id (codes "/connections"))
        api_token none

  unfoldable pub list_registrations : Text → Text → Program S Json
  list_registrations account_id api_token =
      result_of (arr nil) (codes "GET") (account_path account_id (codes "/devices/registrations"))
        api_token none

  unfoldable pub delete_registration : Text → Text → Text → Program S Json
  delete_registration account_id api_token registration_id =
      result_of (obj end) (codes "DELETE")
        (account_path account_id (codes "/devices/registrations/" ++ registration_id)) api_token
        none

  unfoldable pub list_physical_devices : Text → Text → Program S Json
  list_physical_devices account_id api_token =
      result_of (arr nil) (codes "GET")
        (account_path account_id (codes "/devices/physical-devices")) api_token none

  unfoldable pub revoke_device : Text → Text → Text → Program S Json
  revoke_device account_id api_token device_id =
      result_of (obj end) (codes "POST")
        (account_path account_id
          (codes "/devices/physical-devices/" ++ (device_id ++ codes "/revoke")))
        api_token none

  -- The end of cmd_validatetoken: an empty token counts as none.
  abbrev pub report_for : Option Text → Program S TokenReport
  report_for none = return no_token
  report_for (some []) = return no_token
  report_for (some (c ∷ t)) = do result ← validate_api_token (c ∷ t); return (token_report result)

  abbrev pub with_organization : Crypto → Option Organization → Program S TokenReport
  with_organization crypto none = return no_organization
  with_organization crypto (some org) = do
    api_token ← from_files (get_secret crypto org.api_token_ref)
    report_for api_token

  unfoldable pub cmd_validatetoken : Crypto → Text → Program S TokenReport
  unfolding lookup
  cmd_validatetoken crypto uuid = do
    cfg ← (λ w. (config_of w.files, w))
    with_organization crypto (lookup uuid cfg.organizations)
