-- ===== src/Api/Messages.antt =====
-- cfzt_api.py: the message of a WarpAPIError.
use cf_masque_opnsense.Prelude.{ℕ, ℤ, Bool, [], ◌∷◌, if◌then◌else◌}
use cf_masque_opnsense.Text.{Text, codes}
use cf_masque_opnsense.Outcome.{Failure, Result, ok, raise, warp_api_error, ◌>>=◌}
use cf_masque_opnsense.Json.{Json, str, arr, obj, nil, members, cons, is_true, get, first}
use cf_masque_opnsense.Json.Shown.{shown}

-- The body of an HTTPError that is not JSON, for _warp_request.
abbrev pub text_error : Text → Json
text_error t = obj (members ((codes "message", str t) ∷ []))

-- The same for _cf_request, without its member `success`, which nothing reads.
abbrev pub text_errors : Text → Json
text_errors t = obj (members ((codes "errors", arr (cons (text_error t) nil)) ∷ []))

-- errors[0].get('message', '')
unfoldable pub first_error : Json → Result Json
unfolding first get
first_error errors = do e ← first errors; get e (codes "message") (str [])

-- msg of WarpAPIError, before its `str`
unfoldable pub message_of : Json → Result Json
unfolding first_error get is_true
message_of body = do
  errors ← get body (codes "errors") (arr nil)
  message ← get body (codes "message") (str [])
  (if is_true message
      then ok message
      else if is_true errors
      then first_error errors
      else ok (str (codes "API error")))

module _ (is_printable : ℕ → Bool) where
  abbrev pub error_with : ℤ → Result Json → Failure
  error_with status (ok message) = warp_api_error status (shown is_printable message)
  error_with status (raise e) = e

  -- WarpAPIError(status, body): what is raised, since its constructor may raise itself
  unfoldable pub new_error : ℤ → Json → Failure
  unfolding message_of
  new_error status body = error_with status (message_of body)

  -- str(err.get('errors', [{'message': ''}])[0].get('message', ''))
  unfoldable pub dashboard_message : Json → Result Json
  unfolding first_error get
  dashboard_message err = do
    errors ← get err (codes "errors") (arr (cons (text_error []) nil))
    message ← first_error errors
    ok (str (shown is_printable message))

  abbrev pub dashboard_error_with : ℤ → Result Json → Failure
  dashboard_error_with status (ok message) =
      new_error status (obj (members ((codes "message", message) ∷ [])))
  dashboard_error_with status (raise e) = e

  -- What _cf_request raises for an HTTPError with the body `err`.
  unfoldable pub dashboard_error : ℤ → Json → Failure
  unfolding dashboard_message
  dashboard_error status err = dashboard_error_with status (dashboard_message err)
