-- ===== src/Witness/Reports.antt =====
-- Diagnoses at concrete inputs.
use cf_masque_opnsense.Prelude.{◌≡◌, refl, Bool, true, some, [], ◌∷◌}
use cf_masque_opnsense.Text.{codes, strip_left, is_space}
use cf_masque_opnsense.Outcome.{ok}
use cf_masque_opnsense.Diagnostics.{
  Probes, replied, find_addresses, spaced_address, lines_with, occurs_in,
}

-- Every host answers at once.
abbrev pub toy_probes : Probes Bool
toy_probes = record {
  monotonic = λ s. 0;
  connect = λ host port s. (true, s);
  exchange = λ host port s. (replied, s);
  ifconfig = λ name s. (ok (some []), s);
  netstat = λ args s. (ok [], s);
}

address_tests :
    (find_addresses 0 (codes "x inet 10.0.0.1 mask inet6 fe80::1%c0")
      ≡ codes "10.0.0.1" ∷ codes "fe80::1" ∷ [])
    × (find_addresses 0 (codes "inet6x inet") ≡ [])
unfolding find_addresses spaced_address strip_left is_space
address_tests = (refl, refl)

line_tests :
    lines_with (codes "c1") (codes "a c1" ∷ (codes "b" ∷ (codes "c10" ∷ [])))
    ≡ codes "a c1" ∷ codes "c10" ∷ []
unfolding lines_with occurs_in
line_tests = refl
