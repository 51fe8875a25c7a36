-- ===== src/Cli.antt =====
-- The `if __name__ == '__main__'` blocks of the scripts: from the command line to what is printed
-- and the exit code. The working directory is left out: every path that the scripts use is absolute.
pub mod Service
pub mod Warp
pub mod Daemons
pub mod Probes
pub mod Forms
pub mod Commands
pub mod WarpCommands
pub mod Actions
pub mod Configd
pub mod Rotation
use cf_masque_opnsense.Prelude.{ℕ, ℤ, Bool, true, false, Option, none, some, List, [], ◌∷◌, ◌++◌}
use cf_masque_opnsense.Text.{Text, codes}
use cf_masque_opnsense.Text.Number.{int_text}
use cf_masque_opnsense.Outcome.{Failure, runtime_error, invalid_value, warp_api_error}
use cf_masque_opnsense.Json.{Json, null, int, str, bool, arr, obj, Items, nil, cons, members}
use cf_masque_opnsense.Json.Dumps.{dumps}
use cf_masque_opnsense.Process.{World}
use cf_masque_opnsense.Program.{Program, return, ◌>>=◌}

-- What a run that ends without an exception prints, without the last newline, and its exit code.
pub record Exit (A : Type 0) : Type 0 where
  pub printed : A
  pub code : ℕ

abbrev pub exit : {A : Type 0} → ℕ → A → Exit A
exit code printed = record { printed = printed; code = code }

-- A dict literal that is printed.
abbrev pub dict : List (Text × Json) → Json
dict kvs = obj (members kvs)

abbrev pub result_dict : Text → List (Text × Json) → Json
result_dict result more = dict ((codes "result", str result) ∷ more)

abbrev pub failed_dict : Text → Json
failed_dict message = result_dict (codes "failed") ((codes "message", str message) ∷ [])

-- An optional number or text, with None as null.
abbrev pub int_or_null : Option ℤ → Json
int_or_null none = null
int_or_null (some n) = int n

abbrev pub str_or_null : Option Text → Json
str_or_null none = null
str_or_null (some t) = str t

abbrev pub answer_dict : {S : Type 0} → Json → Program S (Exit Text)
answer_dict v w = return (exit 0 (dumps v)) w

-- print(json.dumps(f()))
abbrev pub print_dict : {S A : Type 0} → (A → Json) → Program S A → Program S (Exit Text)
print_dict encode m = m >>= λ a. answer_dict (encode a)

-- print(f())
abbrev pub print_text : {S : Type 0} → Program S Text → Program S (Exit Text)
print_text m = m >>= λ t. return (exit 0 t)

-- `cmd == name and args`, with the branch for args[0] and the rest of the chain.
unfoldable pub with_arg : {B : Type 0} → Bool → List Text → (Text → B) → B → B
with_arg true (a ∷ more) f rest = f a
with_arg _ args f rest = rest

-- `cmd == name and len(args) >= 2`
unfoldable pub with_args : {B : Type 0} → Bool → List Text → (Text → Text → B) → B → B
with_args true (a ∷ (b ∷ more)) f rest = f a b
with_args _ args f rest = rest

abbrev pub no_command : {S : Type 0} → Program S (Exit Text)
no_command = return (exit 1 (dumps (failed_dict (codes "No command"))))

abbrev pub unknown_command : {S : Type 0} → Text → Program S (Exit Text)
unknown_command cmd = return (exit 1 (dumps (failed_dict (codes "Unknown command: " ++ cmd))))

-- str(e), where `own` is the text of Python's own exceptions.
abbrev pub message_of : (Failure → Text) → Failure → Text
message_of own (runtime_error t) = t
message_of own (invalid_value t) = t
message_of own (warp_api_error status message) =
    codes "HTTP " ++ (int_text status ++ (codes ": " ++ message))
message_of own e = own e
