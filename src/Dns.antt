-- ===== src/Dns.antt =====
-- dns.py: the override file for Unbound and the commands that apply and remove it.
pub mod Lines
pub mod Apply
use cf_masque_opnsense.Prelude.{
  ℕ, Bool, true, false, not, ◌||◌, Option, none, some, List, [], ◌∷◌, ◌++◌, map, if◌then◌else◌,
  is_nil,
}
use cf_masque_opnsense.Text.{Text, codes, text_eq, strip, split, join, remove_char}
use cf_masque_opnsense.Outcome.{Result, ok, raise}
use cf_masque_opnsense.Config.{Config, DnsConfig}
use cf_masque_opnsense.Files.{Files, Content, plain, read, write, replace, unlink}
use cf_masque_opnsense.Process.{Os, World, config_of}

abbrev pub unbound_conf : Text
unbound_conf = codes "/var/unbound/conf.d/cloudflarezt.conf"

abbrev pub unbound_tmp : Text
unbound_tmp = codes "/var/unbound/conf.d/cloudflarezt.conf.tmp"

-- addr.replace('\n', '').replace('\r', '')
unfoldable pub one_line : Text → Text
unfolding remove_char
one_line t = remove_char b'\r' (remove_char b'\n' t)

-- [s.strip() for s in parts if s.strip()]
unfoldable pub stripped : List Text → List Text
stripped [] = []
stripped (s ∷ ss) = let rest = stripped ss in if is_nil (strip s) then rest else strip s ∷ rest

unfoldable pub servers_of : DnsConfig → List Text
servers_of dns =
    if text_eq dns.dns_mode (codes "cloudflare_gateway")
    then codes "162.159.36.1" ∷ codes "2606:4700:4700::1111" ∷ []
    else if text_eq dns.dns_mode (codes "custom")
    then stripped (split b',' dns.custom_servers)
    else []

unfoldable pub forward_line : Text → Text
forward_line addr = codes "    forward-addr: " ++ one_line addr

unfoldable pub forward_lines : List Text → List Text
forward_lines [] = []
forward_lines (s ∷ ss) = codes "forward-zone:" ∷ codes "    name: \".\"" ∷ map forward_line (s ∷ ss)

unfoldable pub domain_line : Text → Text
domain_line domain = codes "    domain-insecure: \"" ++ (domain ++ codes "\"")

-- The lines of the loop over the search domains.
unfoldable pub insecure_lines : List Text → List Text
insecure_lines [] = []
insecure_lines (d ∷ ds) =
    let rest = insecure_lines ds in
    let domain = one_line (strip d) in if is_nil domain then rest else domain_line domain ∷ rest

unfoldable pub domain_lines : Text → List Text
domain_lines search_domains =
    if is_nil search_domains
    then []
    else codes "server:" ∷ insecure_lines (split b',' search_domains)

unfoldable pub header_line : Text
header_line = codes "# Generated by cloudflarezt — do not edit manually"

unfoldable pub conf_lines : DnsConfig → List Text
conf_lines dns = header_line ∷ (forward_lines (servers_of dns) ++ domain_lines dns.search_domains)

-- _build_unbound_conf
unfoldable pub build_unbound_conf : DnsConfig → Text
build_unbound_conf dns = join (codes "\n") (conf_lines dns) ++ codes "\n"

pub data DnsReply : Type 0 where
  override_disabled no_change applied : DnsReply

abbrev pub is_text : Option Content → Text → Bool
is_text (some (plain t)) content = text_eq content t
is_text _ content = false

-- The configuration to write: none where the override is off.
unfoldable pub wanted : Config → Option DnsConfig
wanted cfg = elim cfg.dns [
  | none ↦ none
  | some dns ↦ if not cfg.enabled || text_eq dns.dns_mode (codes "system") then none else some dns
]

module _ (os : Os) where
  open os use {Sys, run}

  -- _reload_unbound
  unfoldable pub reload_unbound : World Sys → World Sys
  reload_unbound w = run (codes "/usr/sbin/unbound-control" ∷ codes "reload" ∷ []) w

  -- _remove_conf
  unfoldable pub remove_conf : World Sys → World Sys
  remove_conf w = record w { files = unlink unbound_conf w.files }

  unfoldable pub install : Text → World Sys → DnsReply × World Sys
  install content w = if is_text (read unbound_conf w.files) content then (no_change, w) else (
    applied,
    reload_unbound (record w {
      files = replace unbound_tmp unbound_conf (write unbound_tmp (plain content) w.files);
    }),
  )

  abbrev pub apply_wanted : Option DnsConfig → World Sys → DnsReply × World Sys
  apply_wanted none w = (override_disabled, remove_conf w)
  apply_wanted (some dns) w = install (build_unbound_conf dns) w

  -- cmd_apply_dns
  unfoldable pub apply_dns : World Sys → Result DnsReply × World Sys
  apply_dns w = elim (config_of w.files) [
    | raise e ↦ (raise e, w)
    | ok cfg ↦ let (reply, w') = apply_wanted (wanted cfg) w in (ok reply, w')
  ]

  -- cmd_remove_dns
  unfoldable pub remove_dns : World Sys → World Sys
  remove_dns w = reload_unbound (remove_conf w)
