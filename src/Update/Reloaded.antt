-- ===== src/Update/Reloaded.antt =====
-- get_config after an update of the document.
use cf_masque_opnsense.Prelude.{
  ◌≡◌, refl, Bool, true, false, Option, none, some, List, [], is_nil, Option-cases, inl, inr,
}
use cf_masque_opnsense.Text.{Text, codes, text_eq}
use cf_masque_opnsense.Dict.{Dict}
use cf_masque_opnsense.Outcome.{Result, ok, raise, ◌>>=◌}
use cf_masque_opnsense.Config.{
  Config, Connection, Organization, SplitTunnelRule, MonitoringConfig, DnsConfig, get_config,
  read_zt, read_section, read_all, read_connection, read_organization, read_rule, read_dns,
  read_monitoring, read_enabled,
}
use cf_masque_opnsense.Config.Xml.{Element, children, find, find_all, find_below}
use cf_masque_opnsense.Update.{update_element, update_below, update_first}
use cf_masque_opnsense.Update.Document.{NodeUpdated, section_tag, updated_root-Found}
use cf_masque_opnsense.Update.Reading.{once, Changed, once-Changed, find_all-update_first}

module _ (zt zt' : Element) (t : Text) (same : find zt' t ≡ find zt t) where
  section-same {ℓ} :
      {A : Type ℓ} (read : Element → Result A) (item : Text)
      → read_section read t item zt' ≡ read_section read t item zt
  unfolding read_section
  section-same read item = rw (same, read_section) refl

module _ (zt zt' : Element) where
  monitoring-same :
      find zt' (codes "monitoring") ≡ find zt (codes "monitoring")
      → read_monitoring zt' ≡ read_monitoring zt
  unfolding read_monitoring
  monitoring-same e = rw (e, read_monitoring) refl

  enabled-same :
      find zt' (codes "general") ≡ find zt (codes "general") → read_enabled zt' ≡ read_enabled zt
  unfolding read_enabled
  enabled-same e = rw (e, read_enabled) refl

  dns-same : find zt' (codes "dns") ≡ find zt (codes "dns") → read_dns zt' ≡ read_dns zt
  unfolding read_dns
  dns-same e = rw (e, read_dns) refl

-- read_zt from what it reads.
abbrev combine :
    Result (Dict Organization)
    → Result (Dict Connection)
    → Result (Dict SplitTunnelRule)
    → Result (Option MonitoringConfig)
    → Bool
    → Option DnsConfig
    → Result Config
combine orgs conns rules mon on dns' = do
  o ← orgs
  c ← conns
  s ← rules
  m ← mon
  ok (record {
    enabled = on;
    organizations = o;
    connections = c;
    split_tunnel_rules = s;
    dns = dns';
    monitoring = m;
  })

read_zt-combine :
    (zt : Element)
    → read_zt zt
      ≡ combine
          (read_section
            (λ e. ok (read_organization e))
            (codes "organizations")
            (codes "organization")
            zt)
          (read_section read_connection section_tag (codes "connection") zt)
          (read_section (λ e. ok (read_rule e)) (codes "split_tunnel_rules") (codes "rule") zt)
          (read_monitoring zt)
          (read_enabled zt)
          (read_dns zt)
unfolding read_zt
read_zt-combine zt = refl

-- The `connection` nodes that the reader goes through.
abbrev pub nodes_in : Option Element → List Element
nodes_in none = []
nodes_in (some section) = find_all section (codes "connection")

abbrev pub nodes_of : Option Element → List Element
nodes_of none = []
nodes_of (some zt) = nodes_in (find zt section_tag)

abbrev pub connection_nodes : Element → List Element
connection_nodes root = nodes_of (find_below (codes "CloudflareZT") root)

module _ (u : Text) (ups : Dict Text) (g : Connection → Connection) (filled : is_nil u ≡ false)
    (r : (e : Element) (a : Connection)
      → read_connection e ≡ ok a
      → read_connection (update_element ups e) ≡ ok (g a)) where
  -- What the reader gives after the update: the connection of the uuid changed, all else the same.
  pub record Reloaded (cfg : Config) (result : Result Config) : Type 0 where
    pub connections' : Dict Connection
    pub reloaded : result ≡ ok (record cfg { connections = connections' })
    pub changed : Changed u ups read_connection g cfg.connections connections'

  connections-Changed :
      (section section' : Element) (m : Dict Connection)
      → update_first u ups (children section) ≡ some (children section')
      → once u (find_all section (codes "connection")) ≡ true
      → read_all read_connection (find_all section (codes "connection")) [] ≡ ok m
      → (m' : Dict Connection) × (read_all read_connection
            (find_all section' (codes "connection"))
            []
          ≡ ok m')
        × Changed u ups read_connection g m m'
  unfolding find_all
  connections-Changed section section' m h n k =
      rw (find_all-update_first u ups (children section) (children section') h)
        (once-Changed u ups read_connection g _ [] m filled n r k)

  combine-Reloaded :
      (orgs : Result (Dict Organization)) (conns conns' : Result (Dict Connection))
      (rules : Result (Dict SplitTunnelRule)) (mon : Result (Option MonitoringConfig)) (on : Bool)
      (dns' : Option DnsConfig) (cfg : Config)
      → ((m : Dict Connection)
          → conns ≡ ok m
          → (m' : Dict Connection) × (conns' ≡ ok m') × Changed u ups read_connection g m m')
      → combine orgs conns rules mon on dns' ≡ ok cfg
      → Reloaded cfg (combine orgs conns' rules mon on dns')
  combine-Reloaded (raise e) conns conns' rules mon on dns' cfg c h = cc
  combine-Reloaded (ok os) (raise e) conns' rules mon on dns' cfg c h = cc
  combine-Reloaded (ok os) (ok m) conns' (raise e) mon on dns' cfg c h = cc
  combine-Reloaded (ok os) (ok m) conns' (ok rs) (raise e) on dns' cfg c h = cc
  combine-Reloaded (ok os) (ok m) conns' (ok rs) (ok mo) on dns' cfg c h =
      let (m', p, q) = c m refl in
      let e : record {
        enabled = on;
        organizations = os;
        connections = m;
        split_tunnel_rules = rs;
        dns = dns';
        monitoring = mo;
      }
          ≡ cfg =
        cc in
      rw (p, ← e) (record { connections' = m'; reloaded = refl; changed = q })

  section-Changed :
      (zt zt' section section' : Element) (m : Dict Connection)
      → find zt section_tag ≡ some section
      → find zt' section_tag ≡ some section'
      → update_first u ups (children section) ≡ some (children section')
      → once u (find_all section (codes "connection")) ≡ true
      → read_section read_connection section_tag (codes "connection") zt ≡ ok m
      → (m' : Dict Connection) × (read_section read_connection section_tag (codes "connection") zt'
          ≡ ok m')
        × Changed u ups read_connection g m m'
  unfolding read_section
  section-Changed zt zt' section section' m f f' h n k =
      rw (f', read_section) (connections-Changed section section' m h n (rw (f, read_section) at k))

  zt-Reloaded :
      (zt zt' section : Element) (cfg : Config)
      → NodeUpdated u ups (children zt) section (children zt')
      → find zt section_tag ≡ some section
      → once u (find_all section (codes "connection")) ≡ true
      → read_zt zt ≡ ok cfg
      → Reloaded cfg (read_zt zt')
  unfolding find text_eq
  zt-Reloaded zt zt' section cfg n f o h =
      rw
        (
          read_zt-combine zt',
          section-same zt zt' (codes "organizations") (n.others _ refl)
              (λ e. ok (read_organization e)) (codes "organization"),
          section-same zt zt' (codes "split_tunnel_rules") (n.others _ refl) (λ e. ok (read_rule e))
              (codes "rule"),
          monitoring-same zt zt' (n.others _ refl),
          enabled-same zt zt' (n.others _ refl),
          dns-same zt zt' (n.others _ refl),
        )
        (combine-Reloaded _ _ _ _ _ _ _ cfg
          (λ m k. section-Changed zt zt' section n.section' m f n.there n.updated o k)
          (rw (read_zt-combine zt) at h))

  -- get_config after the update.
  pub get_config-Reloaded :
      (root root' : Element) (cfg : Config)
      → get_config (some root) ≡ ok cfg
      → once u (connection_nodes root) ≡ true
      → update_below u ups root ≡ some (ok root')
      → Reloaded cfg (get_config (some root'))
  unfolding get_config find
  get_config-Reloaded root root' cfg h o q =
      elim (Option-cases (find_below (codes "CloudflareZT") root)) [
        | inl e ↦ let o' = rw e at o in cc
        | inr (zt, e) ↦ elim (Option-cases (find zt section_tag)) [
          | inl k ↦ let o' = rw (e, k) at o in cc
          | inr (section, k) ↦
              let fd = updated_root-Found u ups root root' zt section e k q in
              rw (fd.found, get_config)
                (zt-Reloaded zt fd.zt' section cfg fd.node k (rw (e, k) at o)
                  (rw (e, get_config) at h))
        ]
      ]
