-- ===== src/Witness/Keys.antt =====
-- Key pairs and the dates of rotations at concrete inputs.
use cf_masque_opnsense.Prelude.{
  ℕ, zero, suc, ◌+◌, ◌*◌, ◌≡◌, refl, ap, Bool, true, Option, none, some, List, [], ◌∷◌, arith, All,
  length, if◌then◌else◌,
}
use cf_masque_opnsense.Text.{Text, codes, text_eq}
use cf_masque_opnsense.Bytes.{Bytes, IsByte}
use cf_masque_opnsense.Base64.{b64encode}
use cf_masque_opnsense.Outcome.{ok}
use cf_masque_opnsense.Config.{Connection}
use cf_masque_opnsense.Files.{plain, read, write}
use cf_masque_opnsense.Process.{World}
use cf_masque_opnsense.Keys.{
  Tools, last_32, generate_wireguard_keypair, generate_masque_keypair, cert_for,
}
use cf_masque_opnsense.Keys.Removal.{key_files_removed}
use cf_masque_opnsense.Keys.Wireguard.{ToolLaws}
use cf_masque_opnsense.Calendar.{
  Stamp, is_valid, strptime, strftime, instant, days_in_month, read_year, read_two, read_day,
}
use cf_masque_opnsense.Witness.Toys.{zeros, toy_connection}

pub zeros-IsByte : (n : ℕ) → All IsByte (zeros n)
zeros-IsByte zero = tt
zeros-IsByte (suc n) = (omega arith, zeros-IsByte n)

length-zeros : (n : ℕ) → length (zeros n) ≡ n
length-zeros zero = refl
length-zeros (suc n) = ap suc (length-zeros n)

zeros_out :
    (n : ℕ) (out : Bytes)
    → ◌≡◌ {A = Option Bytes} (some (zeros n)) (some out)
    → All IsByte out × (length out ≡ n)
zeros_out n out e = let p : zeros n ≡ out = cc in rw (← p) (zeros-IsByte n, length-zeros n)

abbrev toy_size : List Text → ℕ
toy_size [] = 0
toy_size (arg ∷ args) = if text_eq arg (codes "genpkey") then 48 else 44

-- An openssl whose keys are all zero, and temporary files of one name.
abbrev pub toy_tools : Tools
toy_tools = record {
  Sys = Bool;
  openssl = λ args input w. (some (zeros (toy_size args)), w);
  named_temp = λ suffix w.
      (codes "/tmp/key", record w { files = write (codes "/tmp/key") (plain []) w.files });
}

toy_tool_laws : ToolLaws toy_tools
unfolding text_eq
toy_tool_laws = record {
  private_der = λ w out e. zeros_out 48 out e;
  public_der = λ key w out e. zeros_out 44 out e;
}

abbrev key_world : World Bool
key_world = record { files = []; sys = true }

abbrev toy_key : Text
toy_key = b64encode (zeros 32)

pair_made : (generate_wireguard_keypair toy_tools key_world).0 ≡ ok (toy_key, toy_key)
unfolding generate_wireguard_keypair last_32 text_eq
pair_made = refl

key_files_removed_example :
    (read (codes "/tmp/key") (generate_masque_keypair toy_tools key_world).1.files ≡ none)
    × (read (codes "/tmp/key") (cert_for toy_tools (codes "pem") key_world).1.files ≡ none)
key_files_removed_example = key_files_removed toy_tools key_world (codes "pem")

-- The leap day of 2024.
abbrev leap_day : Stamp
leap_day = record { year = 2024; month = 2; day = 29; hour = 23; minute = 5; second = 9 }

leap_day_valid : is_valid leap_day ≡ true
unfolding is_valid days_in_month
leap_day_valid = refl

stamp_tests :
    (strftime leap_day ≡ codes "2024-02-29T23:05:09Z")
    × (strptime (codes "2024-2-9t3:05:9Z")
        ≡ some (record { year = 2024; month = 2; day = 9; hour = 3; minute = 5; second = 9 }))
    × (strptime (codes "2023-02-29T00:00:00Z") ≡ none)
    × (strptime (codes "2023-02-09") ≡ none)
unfolding strftime strptime read_year read_two read_day is_valid
stamp_tests = (refl, refl, refl, refl)

-- A connection whose key was changed on the leap day.
abbrev rotated : Connection
rotated = record toy_connection { last_key_rotation = strftime leap_day }

abbrev later : ℕ
later = instant leap_day + 31 * 86400
