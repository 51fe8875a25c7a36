-- ===== src/Api/Errors.antt =====
-- validate_api_token on each kind of answer.
use cf_masque_opnsense.Prelude.{
  ℤ, ◌≡◌, ◌≢◌, sym, refl, true, none, some, [], if◌then◌else◌, is_nil, Bool-cases, inl, inr, arith,
}
use cf_masque_opnsense.Text.{Text, codes, text_eq}
use cf_masque_opnsense.Outcome.{Failure, Result, ok, raise, index_error}
use cf_masque_opnsense.Json.{
  Json, Members, Items, null, str, arr, obj, nil, cons, end, member, find_member, first, get,
  is_true,
}
use cf_masque_opnsense.Process.{World}
use cf_masque_opnsense.Program.{continue, try_with, return}
use cf_masque_opnsense.Api.{
  Net, Reply, answered, answered_other, rejected, rejected_text, no_answer, cf_request_for,
  cf_request, cf_answer, TokenAnswer, valid, validate_api_token, dashboard_error, dashboard_message,
  verdict_of, valid_token, invalid_token, on_refusal, first_error,
}

-- The message of a refusal, for the text that the API gave.
abbrev pub said : Text → Text
said t = if is_nil t then codes "API error" else t

-- An HTTPError with a status whose body says a text: it is that text, or a JSON object whose list
-- of errors begins with an object that has that message; or says none, since the object has no
-- list of errors or its first error no message.
pub data Says : Reply → ℤ → Text → Type 0 where
  in_text : {status : ℤ} {t : Text} → Says (rejected_text status t) status t
  in_json :
      {status : ℤ} {t : Text} {body error : Members} {more : Items}
      → find_member (codes "errors") body ≡ some (arr (cons (obj error) more))
      → find_member (codes "message") error ≡ some (str t)
      → Says (rejected status (obj body)) status t
  no_message :
      {status : ℤ} {body error : Members} {more : Items}
      → find_member (codes "errors") body ≡ some (arr (cons (obj error) more))
      → find_member (codes "message") error ≡ none
      → Says (rejected status (obj body)) status []
  no_errors :
      {status : ℤ} {body : Members}
      → find_member (codes "errors") body ≡ none
      → Says (rejected status (obj body)) status []

module _ {S : Type 0} (net : Net S) where
  open net use {urlopen, is_printable}

  -- What a verdict that says valid came from.
  abbrev Passed : Json → Type 0
  Passed v =
      (success : Json) × (get v (codes "success") null ≡ ok success) × (is_true success ≡ true)

  refusal-not_valid : (e : Failure) (s : Json) (w : World S) → (on_refusal net e w).0 ≢ ok (valid s)
  refusal-not_valid e s w = ground arith

  invalid_token-not_valid : (v s : Json) (w : World S) → (invalid_token net v w).0 ≢ ok (valid s)
  unfolding invalid_token
  invalid_token-not_valid v s w = ground arith

  Passed-by :
      (v s : Json) (w : World S) (r : Result Json)
      → r ≡ get v (codes "success") null
      → (continue
          (λ success. if is_true success then valid_token net v else invalid_token net v)
          (r, w)).0
        ≡ ok (valid s)
      → Passed v
  Passed-by v s w (raise e) r h = cc
  Passed-by v s w (ok success) r h = elim (Bool-cases (is_true success)) [
    | inl b ↦ (success, sym r, b)
    | inr b ↦ let k = rw b at h in absurd (invalid_token-not_valid v s w k)
  ]

  verdict_of-Passed : (v s : Json) (w : World S) → (verdict_of net v w).0 ≡ ok (valid s) → Passed v
  unfolding verdict_of
  verdict_of-Passed v s w h = Passed-by v s w (get v (codes "success") null) refl h

  settled_verdict :
      (s : Json) (x : Result TokenAnswer × World S)
      → (try_with return (on_refusal net) x).0 ≡ ok (valid s)
      → x.0 ≡ ok (valid s)
  settled_verdict s (ok a, w) h = h
  settled_verdict s (raise e, w) h = absurd (refusal-not_valid e s w h)

  verified :
      (s : Json) (r : Reply) (w : World S)
      → (continue (verdict_of net) (cf_answer net r, w)).0 ≡ ok (valid s)
      → (v : Json) × (r ≡ answered v) × Passed v
  verified s (answered v) w h = (v, refl, verdict_of-Passed v s w h)
  verified s answered_other w h = cc
  verified s (rejected status err) w h = cc
  verified s (rejected_text status t) w h = cc
  verified s no_answer w h = cc

  module _ (api_token : Text) (w : World S) where
    -- What the network answers to the request for the token's verification.
    abbrev pub verification : Reply
    verification =
        (urlopen (cf_request_for (codes "GET") (codes "/user/tokens/verify") api_token none)
          w.sys).0

    -- An HTTP error whose list of errors is empty raises an IndexError in place of an answer.
    pub validate_api_token_raises :
        (status : ℤ)
        → verification ≡ rejected status (obj (member (codes "errors") (arr nil) end))
        → (validate_api_token net api_token w).0 ≡ raise index_error
    unfolding validate_api_token cf_request dashboard_error dashboard_message first_error get first
        find_member text_eq
    validate_api_token_raises status h = rw h refl

    -- A token is called valid only where the API answered its verification with an object whose
    -- `success` is true.
    pub validate_api_token-valid :
        (s : Json)
        → (validate_api_token net api_token w).0 ≡ ok (valid s)
        → (v : Json) × (verification ≡ answered v)
          × ((success : Json) × (get v (codes "success") null ≡ ok success)
              × (is_true success ≡ true))
    unfolding validate_api_token cf_request
    validate_api_token-valid s h = verified s verification _ (settled_verdict s _ h)
