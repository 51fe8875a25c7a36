-- ===== src/Config/Settings.antt =====
-- cfzt_config.py: the dicts that make up the configuration.
use cf_masque_opnsense.Prelude.{ℤ, Bool, Option}
use cf_masque_opnsense.Text.{Text}
use cf_masque_opnsense.Dict.{Dict}

pub record Organization : Type 0 where
  pub enabled : Bool
  pub name : Text
  pub description : Text
  pub account_id : Text
  pub team_name : Text
  pub api_token_ref : Text

pub record Connection : Type 0 where
  pub enabled : Bool
  pub name : Text
  pub description : Text
  pub organization_ref : Text
  pub protocol : Text
  pub device_id : Text
  pub device_token_ref : Text
  pub device_name : Text
  pub client_ipv4 : Text
  pub client_ipv6 : Text
  pub endpoint_v4 : Text
  pub endpoint_v6 : Text
  pub endpoint_pubkey_ref : Text
  pub masque_privkey_ref : Text
  pub wg_privkey_ref : Text
  pub wg_pubkey : Text
  pub wg_peer_pubkey : Text
  pub wg_peer_port : ℤ
  pub tunnel_id : Text
  pub tunnel_token_ref : Text
  pub tunnel_mode : Text
  pub use_ipv6 : Bool
  pub prefer_ipv6 : Bool
  pub mtu : ℤ
  pub bind_interface : Text
  pub reconnect_delay : ℤ
  pub always_reconnect : Bool
  pub http2_fallback : Bool
  pub auto_rotate_keys : Bool
  pub key_rotation_days : ℤ
  pub last_key_rotation : Text
  pub registration_status : Text

pub record SplitTunnelRule : Type 0 where
  pub enabled : Bool
  pub connection_ref : Text
  pub action : Text
  pub type : Text
  pub value : Text
  pub description : Text

pub record DnsConfig : Type 0 where
  pub dns_mode : Text
  pub custom_servers : Text
  pub search_domains : Text

pub record MonitoringConfig : Type 0 where
  pub enabled : Bool
  pub health_check_interval : ℤ
  pub notify_on_failure : Bool
  pub notify_on_recovery : Bool
  pub log_level : Text

-- `dns` and `monitoring` are `none` for the empty dict of a missing node.
pub record Config : Type 0 where
  pub enabled : Bool
  pub organizations : Dict Organization
  pub connections : Dict Connection
  pub split_tunnel_rules : Dict SplitTunnelRule
  pub dns : Option DnsConfig
  pub monitoring : Option MonitoringConfig
