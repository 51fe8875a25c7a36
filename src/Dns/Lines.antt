-- ===== src/Dns/Lines.antt =====
-- The override file holds the lines that were generated, whatever the settings are.
use cf_masque_opnsense.Prelude.{
  ◌≡◌, refl, List, [], ◌∷◌, ◌++◌, map, All, All-append, is_nil, Bool-cases, inl, inr,
}
use cf_masque_opnsense.Text.{Text, codes, split, contains, strip, remove_char}
use cf_masque_opnsense.Text.Split.{
  Without, Without-append, remove_char-Without, remove_char-Without_other, split-lines,
}
use cf_masque_opnsense.Config.{DnsConfig}
use cf_masque_opnsense.Dns.{
  one_line, forward_line, forward_lines, domain_line, insecure_lines, domain_lines, servers_of,
  header_line, conf_lines, build_unbound_conf,
}

abbrev pub OneLine : Text → Type 0
OneLine = Without b'\n'

pub one_line-OneLine : (t : Text) → OneLine (one_line t)
unfolding one_line
one_line-OneLine t =
    remove_char-Without_other b'\n' b'\r' (remove_char b'\n' t) (remove_char-Without b'\n' t)

forward_line-OneLine : (s : Text) → OneLine (forward_line s)
unfolding forward_line
forward_line-OneLine s =
    Without-append b'\n' (codes "    forward-addr: ") (one_line s) (unfold contains in refl)
      (one_line-OneLine s)

forward_line-All : (ss : List Text) → All OneLine (map forward_line ss)
forward_line-All [] = tt
forward_line-All (s ∷ ss) = (forward_line-OneLine s, forward_line-All ss)

forward_lines-All : (ss : List Text) → All OneLine (forward_lines ss)
unfolding forward_lines
forward_lines-All [] = tt
forward_lines-All (s ∷ ss) =
    (unfold contains in refl, (unfold contains in refl, forward_line-All (s ∷ ss)))

domain_line-OneLine : (d : Text) → OneLine d → OneLine (domain_line d)
unfolding domain_line
domain_line-OneLine d h =
    Without-append b'\n' (codes "    domain-insecure: \"") (d ++ codes "\"")
      (unfold contains in refl) (Without-append b'\n' d (codes "\"") h (unfold contains in refl))

insecure_lines-All : (ds : List Text) → All OneLine (insecure_lines ds)
unfolding insecure_lines
insecure_lines-All [] = tt
insecure_lines-All (d ∷ ds) = elim (Bool-cases (is_nil (one_line (strip d)))) [
  | inl e ↦ rw e (insecure_lines-All ds)
  | inr e ↦ rw e (domain_line-OneLine _ (one_line-OneLine (strip d)), insecure_lines-All ds)
]

domain_lines-All : (t : Text) → All OneLine (domain_lines t)
unfolding domain_lines
domain_lines-All t = elim (Bool-cases (is_nil t)) [
  | inl e ↦ rw e tt
  | inr e ↦ rw e (unfold contains in refl, insecure_lines-All (split b',' t))
]

-- Whatever the mode, the servers and the search domains, line breaks in them included, the file's
-- lines are exactly the generated ones, and an empty text after the last line break.
pub split-build_unbound_conf :
    (dns : DnsConfig) → split b'\n' (build_unbound_conf dns) ≡ conf_lines dns ++ ([] ∷ [])
unfolding build_unbound_conf conf_lines
split-build_unbound_conf dns =
    split-lines b'\n' header_line
      (forward_lines (servers_of dns) ++ domain_lines dns.search_domains)
      (
        unfold header_line contains in refl,
        All-append OneLine (forward_lines (servers_of dns)) (domain_lines dns.search_domains)
            (forward_lines-All (servers_of dns)) (domain_lines-All dns.search_domains),
      )
