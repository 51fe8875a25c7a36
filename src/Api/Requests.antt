-- ===== src/Api/Requests.antt =====
-- cfzt_api.py: WarpAPIError, the requests of the WARP client and its calls.
use cf_masque_opnsense.Prelude.{
  ℕ, ℤ, Bool, not, Option, none, some, List, [], ◌∷◌, ◌++◌, if◌then◌else◌, is_nil, ◌&&◌,
}
use cf_masque_opnsense.Text.{Text, codes, lstrip}
use cf_masque_opnsense.Bytes.{Bytes}
use cf_masque_opnsense.Calendar.{Stamp, date_text}
use cf_masque_opnsense.Outcome.{Result, ok, raise, value_error, os_error}
use cf_masque_opnsense.Api.Messages.{new_error, text_error}
use cf_masque_opnsense.Json.{Json, Items, str, arr, obj, nil, members}
use cf_masque_opnsense.Program.{Program, on_system, lift, return, ◌>>=◌}

-- A urllib Request: the headers in the order of the calls of add_header, and the value that
-- json.dumps turned into the body.
pub record Request : Type 0 where
  pub url : Text
  pub method : Text
  pub headers : List (Text × Text)
  pub body : Option Json

-- What urlopen gives: an answer, whose body is JSON or not; an HTTPError, whose body is JSON or a
-- text; or no answer, which is an OSError.
pub data Reply : Type 0 where
  answered : Json → Reply
  answered_other : Reply
  rejected : ℤ → Json → Reply
  rejected_text : ℤ → Text → Reply
  no_answer : Reply

pub record Net (S : Type 0) : Type 0 where
  pub urlopen : Request → S → Reply × S
  -- str(uuid.uuid4())
  pub uuid4 : S → Text × S
  -- ''.join(random.choices(chars, k=length))
  pub choices : Text → ℕ → S → Text × S
  -- os.urandom(n) and secrets.token_bytes(n)
  pub random_bytes : ℕ → S → Bytes × S
  -- the time in UTC
  pub now : S → Stamp
  -- str.isprintable of a character outside ASCII
  pub is_printable : ℕ → Bool

abbrev pub warp_api_base : Text
warp_api_base = codes "https://api.cloudflareclient.com"

abbrev pub warp_api_version : Text
warp_api_version = codes "v0a4471"

abbrev pub warp_headers : List (Text × Text)
warp_headers =
    (codes "User-Agent", codes "WARP for Android")
    ∷ (codes "CF-Client-Version", codes "a-6.35-4471")
    ∷ (codes "Content-Type", codes "application/json; charset=UTF-8")
    ∷ (codes "Connection", codes "Keep-Alive")
    ∷ []

-- The header of a credential: none for the empty one.
abbrev pub header_for : Text → Text → Text → List (Text × Text)
header_for name prefix [] = []
header_for name prefix (c ∷ t) = (name, prefix ++ (c ∷ t)) ∷ []

unfoldable pub warp_request_for : Text → Text → Option Json → Text → Text → Request
unfolding lstrip
warp_request_for method path body token jwt = record {
  url = warp_api_base ++ (codes "/" ++ (warp_api_version ++ (codes "/" ++ lstrip b'/' path)));
  method = method;
  headers =
      warp_headers
      ++ (header_for (codes "Authorization") (codes "Bearer ") token
          ++ header_for (codes "CF-Access-Jwt-Assertion") [] jwt);
  body = body;
}

abbrev pub random_serial_chars : Text
random_serial_chars = codes "ABCDEFGHIJKLMNOPQRSTUVWXYZ0123456789"

module _ {S : Type 0} (net : Net S) where
  open net use {urlopen, uuid4, choices, now, is_printable}

  -- The answer of urlopen for _warp_request.
  abbrev pub warp_answer : Reply → Result Json
  warp_answer (answered v) = ok v
  warp_answer answered_other = raise value_error
  warp_answer (rejected status err) = raise (new_error is_printable status err)
  warp_answer (rejected_text status t) = raise (new_error is_printable status (text_error t))
  warp_answer no_answer = raise os_error

  -- _warp_request
  unfoldable pub warp_request : Text → Text → Option Json → Text → Text → Program S Json
  unfolding warp_request_for
  warp_request method path body token jwt = do
    reply ← on_system (urlopen (warp_request_for method path body token jwt))
    lift (warp_answer reply)

  -- _random_android_serial
  unfoldable pub random_android_serial : S → Text × S
  random_android_serial s = choices random_serial_chars 16 s

  abbrev pub service_token : Text → Text → List (Text × Json)
  service_token id secret =
      if not (is_nil id) && not (is_nil secret)
      then (codes "auth_client_id", str id) ∷ (codes "auth_client_secret", str secret) ∷ []
      else []

  -- The payload of register_device.
  unfoldable pub registration : Text → Text → Text → Text → Text → Text → Text → Stamp → Json
  registration key model locale id secret install_id serial time = obj (
      members (
        ((codes "key", str key)
          ∷ (codes "install_id", str install_id)
          ∷ (codes "fcm_token", str [])
          ∷ (codes "tos", str (date_text time (codes ".000Z")))
          ∷ (codes "model", str model)
          ∷ (codes "serial_number", str serial)
          ∷ (codes "os_version", str (codes "FreeBSD"))
          ∷ (codes "key_type", str (codes "curve25519"))
          ∷ (codes "tunnel_type", str (codes "wireguard"))
          ∷ (codes "locale", str locale)
          ∷ [])
        ++ service_token id secret))

  unfoldable pub register_device : Text → Text → Text → Text → Text → Text → Program S Json
  unfolding random_android_serial registration
  register_device key model locale jwt id secret = do
    install_id ← on_system uuid4
    time ← (λ w. (ok (now w.sys), w))
    serial ← on_system random_android_serial
    warp_request (codes "POST") (codes "/reg")
        (some (registration key model locale id secret install_id serial time)) [] jwt

  abbrev pub named : Text → List (Text × Json)
  named name = if is_nil name then [] else (codes "name", str name) ∷ []

  -- The payload of enroll_masque_key.
  unfoldable pub enrolment : Text → Text → Json
  enrolment key device_name = obj (
      members (
        ((codes "key", str key)
          ∷ (codes "key_type", str (codes "secp256r1"))
          ∷ (codes "tunnel_type", str (codes "masque"))
          ∷ [])
        ++ named device_name))

  unfoldable pub enroll_masque_key : Text → Text → Text → Text → Program S Json
  unfolding enrolment
  enroll_masque_key device_id device_token key device_name =
      warp_request (codes "PATCH") (codes "/reg/" ++ device_id) (some (enrolment key device_name))
        device_token []

  unfoldable pub get_account : Text → Text → Program S Json
  get_account device_id device_token =
      warp_request (codes "GET") (codes "/reg/" ++ (device_id ++ codes "/account")) none
        device_token []

  unfoldable pub update_license_key : Text → Text → Text → Program S Json
  update_license_key device_id device_token license_key =
      warp_request (codes "PUT") (codes "/reg/" ++ (device_id ++ codes "/account"))
        (some (obj (members ((codes "license", str license_key) ∷ [])))) device_token []

  -- result if isinstance(result, list) else []
  abbrev pub only_list : Json → Items
  only_list (arr vs) = vs
  only_list v = nil

  unfoldable pub get_devices : Text → Text → Program S Items
  get_devices device_id device_token = do
    result ←
        warp_request (codes "GET") (codes "/reg/" ++ (device_id ++ codes "/account/devices")) none
          device_token []
    return (only_list result)
