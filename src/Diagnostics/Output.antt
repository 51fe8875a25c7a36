-- ===== src/Diagnostics/Output.antt =====
-- monitor.py: what is found in the output of ifconfig and netstat.
use cf_masque_opnsense.Prelude.{
  ℕ, zero, suc, ◌-◌, Bool, ◌||◌, ◌&&◌, Option, none, some, List, [], ◌∷◌, leb, ◌==◌, length,
  if◌then◌else◌, is_nil,
}
use cf_masque_opnsense.Text.{Text, codes, starts_with, strip, strip_left, is_space}

-- part in t
unfoldable pub occurs_in : Text → Text → Bool
occurs_in part [] = is_nil part
occurs_in part (c ∷ cs) = let more = occurs_in part cs in starts_with part (c ∷ cs) || more

-- [l for l in lines if ifname in l]
unfoldable pub lines_with : Text → List Text → List Text
unfolding occurs_in
lines_with ifname [] = []
lines_with ifname (l ∷ ls) =
    let more = lines_with ifname ls in if occurs_in ifname l then l ∷ more else more

abbrev pub stripped_all : List Text → List Text
stripped_all [] = []
stripped_all (l ∷ ls) = strip l ∷ stripped_all ls

-- The class [\da-f\.:], for ASCII.
abbrev pub is_address_char : ℕ → Bool
is_address_char c =
    (leb b'0' c && leb c b'9') || (leb b'a' c && leb c b'f') || (c == b'.') || (c == b':')

abbrev address_run : Text → Text
address_run [] = []
address_run (c ∷ cs) = let more = c ∷ address_run cs in if is_address_char c then more else []

-- after_prefix prefix t
abbrev after_prefix : Text → Text → Option Text
after_prefix [] t = some t
after_prefix (p ∷ ps) [] = none
after_prefix (p ∷ ps) (c ∷ cs) = let more = after_prefix ps cs in if c == p then more else none

abbrev optional_six : Text → Text
optional_six [] = []
optional_six (c ∷ cs) = if c == b'6' then cs else c ∷ cs

-- \s+([\da-f\.:]+): the group, and the length of what is left behind the match
unfoldable pub spaced_address : Text → Option (Text × ℕ)
unfolding strip_left is_space
spaced_address t =
    let rest = strip_left is_space t in
    let run = address_run rest in
    if (length rest == length t) || is_nil run then none else some (run, length rest - length run)

abbrev address_after : Option Text → Option (Text × ℕ)
address_after none = none
address_after (some t) = spaced_address (optional_six t)

-- re.findall(r'inet6?\s+([\da-f\.:]+)', out); the first argument is how much of the last match is
-- still ahead.
unfoldable pub find_addresses : ℕ → Text → List Text
unfolding spaced_address
find_addresses skip [] = []
find_addresses (suc skip) (c ∷ cs) = find_addresses skip cs
find_addresses zero (c ∷ cs) = elim (address_after (after_prefix (codes "inet") (c ∷ cs))) [
  | none ↦ find_addresses zero cs
  | some (address, left) ↦ address ∷ find_addresses (length cs - left) cs
]
