-- ===== src/Config.antt =====
-- cfzt_config.py: the CloudflareZT section of config.xml as a configuration.
pub mod Xml
mod Settings
pub use Settings.*
use cf_masque_opnsense.Prelude.{
  ℕ, ℤ, pos, Bool, true, false, Option, none, some, List, [], ◌∷◌, if◌then◌else◌, is_nil,
}
use cf_masque_opnsense.Text.{Text, codes, strip, one_of}
use cf_masque_opnsense.Text.Number.{int}
use cf_masque_opnsense.Dict.{Dict, lookup, insert}
use cf_masque_opnsense.Outcome.{Result, ok, raise, runtime_error, value_error, require, ◌>>=◌}
use Xml.{Element, text_of, attributes, find, find_all, find_below}

-- _parse_bool
unfoldable pub parse_bool : Text → Bool
unfolding strip one_of
parse_bool val = one_of (strip val) (codes "1" ∷ codes "true" ∷ codes "yes" ∷ [])

abbrev pub text_or : Option Element → Text → Text
text_or none default = default
text_or (some el) default = if is_nil (text_of el) then default else strip (text_of el)

-- text(node, tag, default)
unfoldable pub text : Element → Text → Text → Text
unfolding find text_of
text node t default = text_or (find node t) default

-- int(text(node, tag, default))
unfoldable pub int_field : Element → Text → Text → Result ℤ
unfolding text int
int_field node t default = require value_error (int (text node t default))

abbrev pub bool_field : Element → Text → Text → Bool
bool_field node t default = parse_bool (text node t default)

unfoldable pub uuid_of : Element → Text
unfolding attributes lookup
uuid_of node = elim (lookup (codes "uuid") (attributes node)) [ none ↦ [] | some u ↦ u ]

unfoldable pub read_organization : Element → Organization
unfolding text parse_bool
read_organization org = record {
  enabled = bool_field org (codes "enabled") (codes "1");
  name = text org (codes "name") [];
  description = text org (codes "description") [];
  account_id = text org (codes "account_id") [];
  team_name = text org (codes "team_name") [];
  api_token_ref = text org (codes "api_token_ref") [];
}

-- The dict literal of one connection, given its four numbers.
unfoldable pub connection_with : Element → ℤ → ℤ → ℤ → ℤ → Connection
unfolding text parse_bool
connection_with conn port mtu' delay days = record {
  enabled = bool_field conn (codes "enabled") (codes "1");
  name = text conn (codes "name") [];
  description = text conn (codes "description") [];
  organization_ref = text conn (codes "organization_ref") [];
  protocol = text conn (codes "protocol") (codes "warp_masque");
  device_id = text conn (codes "device_id") [];
  device_token_ref = text conn (codes "device_token_ref") [];
  device_name = text conn (codes "device_name") [];
  client_ipv4 = text conn (codes "client_ipv4") [];
  client_ipv6 = text conn (codes "client_ipv6") [];
  endpoint_v4 = text conn (codes "endpoint_v4") [];
  endpoint_v6 = text conn (codes "endpoint_v6") [];
  endpoint_pubkey_ref = text conn (codes "endpoint_pubkey_ref") [];
  masque_privkey_ref = text conn (codes "masque_privkey_ref") [];
  wg_privkey_ref = text conn (codes "wg_privkey_ref") [];
  wg_pubkey = text conn (codes "wg_pubkey") [];
  wg_peer_pubkey = text conn (codes "wg_peer_pubkey") [];
  wg_peer_port = port;
  tunnel_id = text conn (codes "tunnel_id") [];
  tunnel_token_ref = text conn (codes "tunnel_token_ref") [];
  tunnel_mode = text conn (codes "tunnel_mode") (codes "split");
  use_ipv6 = bool_field conn (codes "use_ipv6") (codes "0");
  prefer_ipv6 = bool_field conn (codes "prefer_ipv6") (codes "0");
  mtu = mtu';
  bind_interface = text conn (codes "bind_interface") [];
  reconnect_delay = delay;
  always_reconnect = bool_field conn (codes "always_reconnect") (codes "1");
  http2_fallback = bool_field conn (codes "http2_fallback") (codes "1");
  auto_rotate_keys = bool_field conn (codes "auto_rotate_keys") (codes "1");
  key_rotation_days = days;
  last_key_rotation = text conn (codes "last_key_rotation") [];
  registration_status = text conn (codes "registration_status") (codes "unregistered");
}

unfoldable pub read_connection : Element → Result Connection
unfolding connection_with int_field
read_connection conn = do
  port ← int_field conn (codes "wg_peer_port") (codes "2408")
  mtu' ← int_field conn (codes "mtu") (codes "1280")
  delay ← int_field conn (codes "reconnect_delay") (codes "5")
  days ← int_field conn (codes "key_rotation_days") (codes "30")
  ok (connection_with conn port mtu' delay days)

unfoldable pub read_rule : Element → SplitTunnelRule
unfolding text parse_bool
read_rule rule = record {
  enabled = bool_field rule (codes "enabled") (codes "1");
  connection_ref = text rule (codes "connection_ref") [];
  action = text rule (codes "action") (codes "exclude");
  type = text rule (codes "type") (codes "cidr");
  value = text rule (codes "value") [];
  description = text rule (codes "description") [];
}

-- The loop over the nodes of one kind: a node without a uuid is skipped.
unfoldable pub read_all {ℓ} :
    {A : Type ℓ} → (Element → Result A) → List Element → Dict A → Result (Dict A)
unfolding uuid_of insert
read_all read [] d = ok d
read_all read (e ∷ es) d =
    let skipped = read_all read es d in
    let added = (read e >>= λ a. read_all read es (insert (uuid_of e) a d)) in
    if is_nil (uuid_of e) then skipped else added

-- zt.find(section) and the loop over its `item` children.
unfoldable pub read_section {ℓ} :
    {A : Type ℓ} → (Element → Result A) → Text → Text → Element → Result (Dict A)
unfolding read_all find find_all
read_section read section item zt = elim (find zt section) [
  | none ↦ ok []
  | some node ↦ read_all read (find_all node item) []
]

unfoldable pub read_dns : Element → Option DnsConfig
unfolding text find
read_dns zt = elim (find zt (codes "dns")) [
  | none ↦ none
  | some node ↦ some (record {
    dns_mode = text node (codes "dns_mode") (codes "system");
    custom_servers = text node (codes "custom_servers") [];
    search_domains = text node (codes "search_domains") [];
  })
]

unfoldable pub read_monitoring : Element → Result (Option MonitoringConfig)
unfolding text parse_bool find int_field
read_monitoring zt = elim (find zt (codes "monitoring")) [
  | none ↦ ok none
  | some node ↦ int_field node (codes "health_check_interval") (codes "30") >>= λ interval. ok (
      some (record {
        enabled = bool_field node (codes "enabled") (codes "1");
        health_check_interval = interval;
        notify_on_failure = bool_field node (codes "notify_on_failure") (codes "1");
        notify_on_recovery = bool_field node (codes "notify_on_recovery") (codes "1");
        log_level = text node (codes "log_level") (codes "info");
      }))
]

unfoldable pub read_enabled : Element → Bool
unfolding text parse_bool find
read_enabled zt = elim (find zt (codes "general")) [
  | none ↦ parse_bool (codes "0")
  | some node ↦ bool_field node (codes "enabled") (codes "0")
]

unfoldable pub read_zt : Element → Result Config
unfolding read_section read_organization read_connection read_rule read_dns read_monitoring
    read_enabled
read_zt zt = do
  orgs ←
      read_section (λ e. ok (read_organization e)) (codes "organizations") (codes "organization") zt
  conns ← read_section read_connection (codes "connections") (codes "connection") zt
  rules ← read_section (λ e. ok (read_rule e)) (codes "split_tunnel_rules") (codes "rule") zt
  mon ← read_monitoring zt
  ok (record {
    enabled = read_enabled zt;
    organizations = orgs;
    connections = conns;
    split_tunnel_rules = rules;
    dns = read_dns zt;
    monitoring = mon;
  })

-- What a router without the section has.
abbrev pub no_config : Config
no_config = record {
  enabled = false;
  organizations = [];
  connections = [];
  split_tunnel_rules = [];
  dns = none;
  monitoring = none;
}

-- get_config(); the argument is /conf/config.xml, `none` where it cannot be read or parsed.
unfoldable pub get_config : Option Element → Result Config
unfolding read_zt find_below
get_config none = raise (runtime_error (codes "Failed to parse config.xml"))
get_config (some root) = elim (find_below (codes "CloudflareZT") root) [
  | none ↦ ok no_config
  | some zt ↦ read_zt zt
]
