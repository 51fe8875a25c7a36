-- ===== src/Witness/Settings.antt =====
-- The resolver's override and the update of a connection at concrete inputs.
use cf_masque_opnsense.Prelude.{
  if◌then◌else◌, ◌≡◌, refl, Bool, true, false, none, some, [], ◌∷◌, ◌++◌,
}
use cf_masque_opnsense.Text.{Text, codes, text_eq, split}
use cf_masque_opnsense.Dict.{Dict, lookup}
use cf_masque_opnsense.Outcome.{ok}
use cf_masque_opnsense.Config.{uuid_of, Config, DnsConfig, get_config}
use cf_masque_opnsense.Config.Xml.{Elements, attributes, tag, Element, element, nil, cons}
use cf_masque_opnsense.Files.{plain, xml, read}
use cf_masque_opnsense.Process.{World, config_of}
use cf_masque_opnsense.Dns.{
  no_change, unbound_conf, wanted, apply_dns, conf_lines, build_unbound_conf,
}
use cf_masque_opnsense.Dns.Lines.{split-build_unbound_conf}
use cf_masque_opnsense.Dns.Apply.{apply_dns_settles}
use cf_masque_opnsense.Update.{update_first, set_children, set_child, is_connection, update_element}
use cf_masque_opnsense.Update.Others.{connection_of, updated, connection_of-update_first}
use cf_masque_opnsense.Witness.Toys.{toy_os}

abbrev pub leaf : Text → Text → Element
leaf name x = element name [] x nil

-- The plugin's settings with the resolver in the given mode.
abbrev settings : Text → Element
settings mode = element (codes "opnsense") [] [] (
    cons
      (element (codes "CloudflareZT") [] [] (
        cons (element (codes "general") [] [] (cons (leaf (codes "enabled") (codes "1")) nil)) (
          cons
            (element (codes "dns") [] [] (
              cons (leaf (codes "dns_mode") mode) (
                cons (leaf (codes "custom_servers") (codes " 9.9.9.9 ,,1.1.1.1"))
                  (cons (leaf (codes "search_domains") (codes "corp.example, lan")) nil))))
            nil)))
      nil)

abbrev settings_world : Text → World Bool
settings_world mode = record {
  files =
      (codes "/conf/config.xml", record { content = xml (settings mode); mode = 0o644 })
      ∷ (codes "/var/unbound/conf.d/cloudflarezt.conf", record { content = plain []; mode = 0o644 })
      ∷ [];
  sys = false;
}

abbrev toy_dns : Text → DnsConfig
toy_dns mode = record {
  dns_mode = mode;
  custom_servers = codes "9.9.9.9 ,,1.1.1.1";
  search_domains = codes "corp.example, lan";
}

abbrev toy_config : Text → Config
toy_config mode = record {
  enabled = true;
  organizations = [];
  connections = [];
  split_tunnel_rules = [];
  dns = some (toy_dns mode);
  monitoring = none;
}

config_custom : config_of (settings_world (codes "custom")).files ≡ ok (toy_config (codes "custom"))
unfolding config_of get_config read text_eq tag
config_custom = refl

config_system : config_of (settings_world (codes "system")).files ≡ ok (toy_config (codes "system"))
unfolding config_of get_config read text_eq tag
config_system = refl

split-build_unbound_conf_example :
    split b'\n' (build_unbound_conf (toy_dns (codes "custom")))
    ≡ conf_lines (toy_dns (codes "custom")) ++ ([] ∷ [])
split-build_unbound_conf_example = split-build_unbound_conf (toy_dns (codes "custom"))

apply_dns_settles_example :
    (read unbound_conf (apply_dns toy_os (settings_world (codes "custom"))).1.files
      ≡ some (plain (build_unbound_conf (toy_dns (codes "custom")))))
    × (apply_dns toy_os (apply_dns toy_os (settings_world (codes "custom"))).1
        ≡ (ok no_change, (apply_dns toy_os (settings_world (codes "custom"))).1))
apply_dns_settles_example =
    apply_dns_settles toy_os (λ command w. refl) (settings_world (codes "custom"))
      (toy_config (codes "custom")) (toy_dns (codes "custom")) config_custom
      (unfold wanted text_eq in refl)

abbrev rotation : Dict Text
rotation =
    (codes "registration_status", codes "enrolled")
    ∷ (codes "last_key_rotation", codes "2026-01-02T03:04:05Z")
    ∷ []

abbrev stored : Element
stored = element (codes "connection") [] [] (cons (leaf (codes "name") (codes "office")) nil)

abbrev two_connections : Elements
two_connections =
    cons (element (codes "connection") ((codes "uuid", codes "0a") ∷ []) [] nil)
      (cons (element (codes "connection") ((codes "uuid", codes "0b") ∷ []) [] nil) nil)

abbrev two_updated : Elements
two_updated = cons (element (codes "connection") ((codes "uuid", codes "0a") ∷ []) [] nil) (
    cons
      (element (codes "connection") ((codes "uuid", codes "0b") ∷ []) [] (
        cons (leaf (codes "registration_status") (codes "enrolled"))
          (cons (leaf (codes "last_key_rotation") (codes "2026-01-02T03:04:05Z")) nil)))
      nil)

second_updated : update_first (codes "0b") rotation two_connections ≡ some two_updated
unfolding update_first update_element set_children set_child is_connection uuid_of attributes tag
    text_eq lookup
second_updated = refl

connection_of-update_first_example : connection_of (codes "0b") two_updated ≡ (
    if text_eq (codes "0b") (codes "0b")
    then updated rotation (connection_of (codes "0b") two_connections)
    else connection_of (codes "0b") two_connections)
connection_of-update_first_example =
    connection_of-update_first (codes "0b") rotation (codes "0b") two_connections two_updated
      second_updated
