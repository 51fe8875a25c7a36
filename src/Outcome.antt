-- ===== src/Outcome.antt =====
-- Python's exceptions as values: a call returns, or raises a `Failure`.
use cf_masque_opnsense.Prelude.{ℤ, ◌≡◌, ◌⊎◌, inl, inr, refl, Option, none, some}
use cf_masque_opnsense.Text.{Text}

pub data Failure : Type 0 where
  -- the exceptions that the scripts raise, with their text
  runtime_error invalid_value : Text → Failure
  -- cfzt_api.WarpAPIError: the status and the message
  warp_api_error : ℤ → Text → Failure
  -- the library's own
  value_error type_error attribute_error key_error index_error os_error process_error : Failure

pub data Result {ℓ} (A : Type ℓ) : Type ℓ where
  ok : A → Result A
  raise : Failure → Result A

infixl 5 ◌>>=◌ ◌>>◌
abbrev pub ◌>>=◌ {κ ℓ} : {R : Type κ} {A : Type ℓ} → Result A → (A → Result R) → Result R
raise e >>= rest = raise e
ok x >>= rest = rest x

-- A step whose result nothing uses.
abbrev pub ◌>>◌ {κ} : {R : Type κ} → Result (Unit {0}) → Result R → Result R
first >> second = first >>= λ _. second

-- A value that must be there, or the failure.
abbrev pub require {ℓ} : {A : Type ℓ} → Failure → Option A → Result A
require e none = raise e
require e (some a) = ok a

-- What a chain that returns went through.
pub >>=-eq-ok {κ ℓ} :
    {R : Type κ} {A : Type ℓ} (first : Result A) (rest : A → Result R) {r : R}
    → first >>= rest ≡ ok r
    → (x : A) × (first ≡ ok x) × (rest x ≡ ok r)
>>=-eq-ok (raise e) rest h = cc
>>=-eq-ok (ok x) rest h = (x, refl, h)

pub Result-cases {ℓ} :
    {A : Type ℓ} (r : Result A) → ((e : Failure) × (r ≡ raise e)) ⊎ ((a : A) × (r ≡ ok a))
Result-cases (raise e) = inl (e, refl)
Result-cases (ok a) = inr (a, refl)
