-- ===== src/Lifecycle/Daemons.antt =====
-- service.py: the configuration files that it writes for the daemons.
use cf_masque_opnsense.Prelude.{
  Bool, false, not, Option, none, some, [], ◌∷◌, ◌++◌, if◌then◌else◌, is_nil,
}
use cf_masque_opnsense.Text.{Text, codes}
use cf_masque_opnsense.Dict.{Dict}
use cf_masque_opnsense.Outcome.{Result, ok, ◌>>=◌}
use cf_masque_opnsense.Config.{Config, Connection, DnsConfig}
use cf_masque_opnsense.Files.{
  Files, Content, Value, str, int, bool, plain, object, write, chmod, write_private,
}
use cf_masque_opnsense.Secrets.{Crypto, get_secret}
use cf_masque_opnsense.Process.{pid_file, config_of}

abbrev pub runtime_dir : Text
runtime_dir = codes "/usr/local/etc/cloudflarezt"

abbrev pub or_empty : Option Text → Text
or_empty none = []
or_empty (some t) = t

abbrev pub dns_mode_of : Option DnsConfig → Text
dns_mode_of none = codes "system"
dns_mode_of (some d) = d.dns_mode

unfoldable pub warp_config_path : Text → Text
warp_config_path uuid = runtime_dir ++ (codes "/connections/" ++ (uuid ++ codes ".json"))

unfoldable pub tunnel_config_path : Text → Text
tunnel_config_path uuid = runtime_dir ++ (codes "/tunnels/" ++ (uuid ++ codes ".yml"))

unfoldable pub creds_path : Text → Text
creds_path uuid = runtime_dir ++ (codes "/tunnels/" ++ (uuid ++ codes "-creds.json"))

abbrev pub is_set : Option Text → Bool
is_set none = false
is_set (some t) = not (is_nil t)

abbrev pub creds : Connection → Text → Content
creds conn token = object (
    (codes "AccountTag", str [])
    ∷ (codes "TunnelID", str conn.tunnel_id)
    ∷ (codes "TunnelSecret", str token)
    ∷ [])

abbrev pub tunnel_config : Text → Connection → Bool → Text
tunnel_config uuid conn with_token =
    codes "tunnel: "
    ++ (conn.tunnel_id
        ++ (codes "\n"
            ++ ((if with_token
                  then codes "credentials-file: " ++ (creds_path uuid ++ codes "\n")
                  else [])
                ++ (codes "ingress:\n  - service: http_status:404\n"
                    ++ (codes "logfile: /var/log/cloudflared-"
                        ++ (uuid
                            ++ (codes ".log\n"
                                ++ (codes "pidfile: "
                                    ++ (pid_file uuid (codes "cloudflared") ++ codes "\n")))))))))

module _ (crypto : Crypto) where
  abbrev secret_field : Text → Text → Files → Value
  secret_field prefix uuid fs = str (or_empty (get_secret crypto (prefix ++ uuid) fs))

  -- The dict `cfg` of _write_warp_config.
  unfoldable pub warp_config : Text → Connection → Config → Files → Dict Value
  warp_config uuid conn global_cfg fs =
      (codes "connection_uuid", str uuid)
      ∷ (codes "protocol", str conn.protocol)
      ∷ (codes "device_id", str conn.device_id)
      ∷ (codes "client_ipv4", str conn.client_ipv4)
      ∷ (codes "client_ipv6", str conn.client_ipv6)
      ∷ (codes "endpoint_v4", str conn.endpoint_v4)
      ∷ (codes "endpoint_v6", str conn.endpoint_v6)
      ∷ (codes "endpoint_pubkey", secret_field (codes "endpoint_pubkey_") uuid fs)
      ∷ (codes "masque_private_key", secret_field (codes "masque_privkey_") uuid fs)
      ∷ (codes "masque_cert_der", secret_field (codes "masque_cert_") uuid fs)
      ∷ (codes "wg_private_key", secret_field (codes "wg_privkey_") uuid fs)
      ∷ (codes "wg_peer_pubkey", str conn.wg_peer_pubkey)
      ∷ (codes "wg_peer_port", int conn.wg_peer_port)
      ∷ (codes "mtu", int conn.mtu)
      ∷ (codes "use_ipv6", bool conn.use_ipv6)
      ∷ (codes "prefer_ipv6", bool conn.prefer_ipv6)
      ∷ (codes "reconnect_delay", int conn.reconnect_delay)
      ∷ (codes "always_reconnect", bool conn.always_reconnect)
      ∷ (codes "http2_fallback", bool conn.http2_fallback)
      ∷ (codes "tunnel_mode", str conn.tunnel_mode)
      ∷ (codes "dns_mode", str (dns_mode_of global_cfg.dns))
      ∷ (codes "bind_interface", str conn.bind_interface)
      ∷ (codes "pid_file", str (pid_file uuid conn.protocol))
      ∷ (codes "log_ident", str (codes "cfzt-warp[" ++ (conn.name ++ codes "]")))
      ∷ []

  -- _write_warp_config, without the path that it returns
  unfoldable pub write_warp_config : Text → Connection → Files → Result Files
  write_warp_config uuid conn fs = do
    global_cfg ← config_of fs
    let path = warp_config_path uuid
    ok (write_private (path ++ codes ".tmp") path (object (warp_config uuid conn global_cfg fs)) fs)

  -- _write_cloudflared_config, without the path that it returns
  unfoldable pub write_cloudflared_config : Text → Connection → Files → Files
  write_cloudflared_config uuid conn fs =
      let path = tunnel_config_path uuid in
      let token = get_secret crypto (codes "tunnel_token_" ++ uuid) fs in
      let with_creds =
        chmod (creds_path uuid) 0o600 (write (creds_path uuid) (creds conn (or_empty token)) fs) in
      write_private (path ++ codes ".tmp") path (plain (tunnel_config uuid conn (is_set token)))
        (if is_set token then with_creds else fs)
