-- ===== src/Warp/Reread.antt =====
-- What the reader makes of a connection after an enrolment.
use cf_masque_opnsense.Prelude.{
  ℤ, ◌≡◌, refl, sym, ap, ◌∙◌, fun_ext, Bool, none, [], ◌∷◌, ◌++◌, arith,
}
use cf_masque_opnsense.Text.{Text, codes, text_eq, strip, is_space}
use cf_masque_opnsense.Dict.{Dict, lookup}
use cf_masque_opnsense.Text.Equality.{text_eq_sym}
use cf_masque_opnsense.Outcome.{ok, >>=-eq-ok}
use cf_masque_opnsense.Config.{
  Connection, connection_with, read_connection, int_field, parse_bool, text,
}
use cf_masque_opnsense.Rotation.Due.{is_nil-strftime}
use cf_masque_opnsense.Config.Xml.{Element}
use cf_masque_opnsense.Calendar.{Stamp, strftime}
use cf_masque_opnsense.Update.{update_element}
use cf_masque_opnsense.Update.Fields.{text-update_element, shown_after}
use cf_masque_opnsense.Warp.{enrol_updates}

shown_after_other :
    (key default : Text) (updates : Dict Text) (old : Text)
    → lookup key updates ≡ none
    → shown_after key default updates old ≡ old
unfolding lookup
shown_after_other key default [] old h = refl
shown_after_other key default ((k, val) ∷ more) old h =
    ground (arith, text_eq_sym k key, shown_after_other key default more old)

-- The reader's connection from what it finds for each field.
abbrev on : (Text → Text → Text) → Text → Text → Bool
on f key default = parse_bool (f key default)

abbrev built : (Text → Text → Text) → ℤ → ℤ → ℤ → ℤ → Connection
built f port mtu' delay days = record {
  enabled = on f (codes "enabled") (codes "1");
  name = f (codes "name") [];
  description = f (codes "description") [];
  organization_ref = f (codes "organization_ref") [];
  protocol = f (codes "protocol") (codes "warp_masque");
  device_id = f (codes "device_id") [];
  device_token_ref = f (codes "device_token_ref") [];
  device_name = f (codes "device_name") [];
  client_ipv4 = f (codes "client_ipv4") [];
  client_ipv6 = f (codes "client_ipv6") [];
  endpoint_v4 = f (codes "endpoint_v4") [];
  endpoint_v6 = f (codes "endpoint_v6") [];
  endpoint_pubkey_ref = f (codes "endpoint_pubkey_ref") [];
  masque_privkey_ref = f (codes "masque_privkey_ref") [];
  wg_privkey_ref = f (codes "wg_privkey_ref") [];
  wg_pubkey = f (codes "wg_pubkey") [];
  wg_peer_pubkey = f (codes "wg_peer_pubkey") [];
  wg_peer_port = port;
  tunnel_id = f (codes "tunnel_id") [];
  tunnel_token_ref = f (codes "tunnel_token_ref") [];
  tunnel_mode = f (codes "tunnel_mode") (codes "split");
  use_ipv6 = on f (codes "use_ipv6") (codes "0");
  prefer_ipv6 = on f (codes "prefer_ipv6") (codes "0");
  mtu = mtu';
  bind_interface = f (codes "bind_interface") [];
  reconnect_delay = delay;
  always_reconnect = on f (codes "always_reconnect") (codes "1");
  http2_fallback = on f (codes "http2_fallback") (codes "1");
  auto_rotate_keys = on f (codes "auto_rotate_keys") (codes "1");
  key_rotation_days = days;
  last_key_rotation = f (codes "last_key_rotation") [];
  registration_status = f (codes "registration_status") (codes "unregistered");
}

connection_with-built :
    (e : Element) (p m d k : ℤ) → connection_with e p m d k ≡ built (text e) p m d k
unfolding connection_with
connection_with-built e p m d k = refl

-- The connection with the state that an enrolment records.
abbrev pub enrolled_as : Text → Stamp → Connection → Connection
enrolled_as uuid time conn = record conn {
  masque_privkey_ref = strip (codes "masque_privkey_" ++ uuid);
  endpoint_pubkey_ref = strip (codes "endpoint_pubkey_" ++ uuid);
  registration_status = codes "enrolled";
  last_key_rotation = strip (strftime time);
}

module _ (uuid : Text) (time : Stamp) where
  abbrev ups : Dict Text
  ups = enrol_updates uuid time

  -- What the reader finds after the updates, where it found f.
  unfoldable updated : (Text → Text → Text) → Text → Text → Text
  updated f key default = shown_after key default ups (f key default)

  same :
      (f : Text → Text → Text) (key default : Text)
      → lookup key ups ≡ none
      → updated f key default ≡ f key default
  unfolding updated
  same f key default h = shown_after_other key default ups (f key default) h

  text-updated :
      (e : Element) (key default : Text)
      → text (update_element ups e) key default ≡ updated (text e) key default
  unfolding updated
  text-updated e key default = text-update_element ups e key default

  new_masque_privkey_ref :
      (f : Text → Text → Text)
      → updated f (codes "masque_privkey_ref") [] ≡ strip (codes "masque_privkey_" ++ uuid)
  unfolding updated text_eq enrol_updates
  new_masque_privkey_ref f = refl

  new_endpoint_pubkey_ref :
      (f : Text → Text → Text)
      → updated f (codes "endpoint_pubkey_ref") [] ≡ strip (codes "endpoint_pubkey_" ++ uuid)
  unfolding updated text_eq enrol_updates
  new_endpoint_pubkey_ref f = refl

  new_registration_status :
      (f : Text → Text → Text)
      → updated f (codes "registration_status") (codes "unregistered") ≡ codes "enrolled"
  unfolding updated text_eq enrol_updates strip is_space
  new_registration_status f = refl

  new_last_key_rotation :
      (f : Text → Text → Text) → updated f (codes "last_key_rotation") [] ≡ strip (strftime time)
  unfolding updated text_eq enrol_updates
  new_last_key_rotation f = rw (is_nil-strftime time) refl

  built-enrolled_as :
      (f : Text → Text → Text) (p m d k : ℤ)
      → built (updated f) p m d k ≡ enrolled_as uuid time (built f p m d k)
  unfolding lookup text_eq enrol_updates
  built-enrolled_as f p m d k =
      rw
        (
          same f (codes "enabled") (codes "1") refl,
          same f (codes "name") [] refl,
          same f (codes "description") [] refl,
          same f (codes "organization_ref") [] refl,
          same f (codes "protocol") (codes "warp_masque") refl,
          same f (codes "device_id") [] refl,
          same f (codes "device_token_ref") [] refl,
          same f (codes "device_name") [] refl,
          same f (codes "client_ipv4") [] refl,
          same f (codes "client_ipv6") [] refl,
          same f (codes "endpoint_v4") [] refl,
          same f (codes "endpoint_v6") [] refl,
          same f (codes "wg_privkey_ref") [] refl,
          same f (codes "wg_pubkey") [] refl,
          same f (codes "wg_peer_pubkey") [] refl,
          same f (codes "tunnel_id") [] refl,
          same f (codes "tunnel_token_ref") [] refl,
          same f (codes "tunnel_mode") (codes "split") refl,
          same f (codes "use_ipv6") (codes "0") refl,
          same f (codes "prefer_ipv6") (codes "0") refl,
          same f (codes "bind_interface") [] refl,
          same f (codes "always_reconnect") (codes "1") refl,
          same f (codes "http2_fallback") (codes "1") refl,
          same f (codes "auto_rotate_keys") (codes "1") refl,
          new_masque_privkey_ref f,
          new_endpoint_pubkey_ref f,
          new_registration_status f,
          new_last_key_rotation f,
        )
        refl

  connection_with-enrolled_as :
      (e : Element) (p m d k : ℤ)
      → connection_with (update_element ups e) p m d k
        ≡ enrolled_as uuid time (connection_with e p m d k)
  connection_with-enrolled_as e p m d k =
      connection_with-built (update_element ups e) p m d k
      ∙ ap (λ f. built f p m d k) (fun_ext (λ key. fun_ext (λ default. text-updated e key default)))
      ∙ built-enrolled_as (text e) p m d k
      ∙ ap (enrolled_as uuid time) (sym (connection_with-built e p m d k))

  int_same :
      (e : Element) (key default : Text)
      → lookup key ups ≡ none
      → int_field (update_element ups e) key default ≡ int_field e key default
  unfolding int_field
  int_same e key default h = rw (text-updated e key default, same (text e) key default h) refl

  port :
      (e : Element)
      → int_field (update_element ups e) (codes "wg_peer_port") (codes "2408")
        ≡ int_field e (codes "wg_peer_port") (codes "2408")
  unfolding lookup text_eq enrol_updates
  port e = int_same e (codes "wg_peer_port") (codes "2408") refl

  mtu' :
      (e : Element)
      → int_field (update_element ups e) (codes "mtu") (codes "1280")
        ≡ int_field e (codes "mtu") (codes "1280")
  unfolding lookup text_eq enrol_updates
  mtu' e = int_same e (codes "mtu") (codes "1280") refl

  delay :
      (e : Element)
      → int_field (update_element ups e) (codes "reconnect_delay") (codes "5")
        ≡ int_field e (codes "reconnect_delay") (codes "5")
  unfolding lookup text_eq enrol_updates
  delay e = int_same e (codes "reconnect_delay") (codes "5") refl

  days :
      (e : Element)
      → int_field (update_element ups e) (codes "key_rotation_days") (codes "30")
        ≡ int_field e (codes "key_rotation_days") (codes "30")
  unfolding lookup text_eq enrol_updates
  days e = int_same e (codes "key_rotation_days") (codes "30") refl

  read_with :
      (e : Element) (p m d k : ℤ)
      → int_field e (codes "wg_peer_port") (codes "2408") ≡ ok p
      → int_field e (codes "mtu") (codes "1280") ≡ ok m
      → int_field e (codes "reconnect_delay") (codes "5") ≡ ok d
      → int_field e (codes "key_rotation_days") (codes "30") ≡ ok k
      → read_connection (update_element ups e)
        ≡ ok (enrolled_as uuid time (connection_with e p m d k))
  unfolding read_connection
  read_with e p m d k hp hm hd hk =
      rw (port e, hp, mtu' e, hm, delay e, hd, days e, hk)
        (ap ok (connection_with-enrolled_as e p m d k))

  -- A connection that could be read reads after the update of an enrolment as the same connection,
  -- with the references to the new key, the state "enrolled" and the time of the rotation.
  pub read_connection-enrolled_as :
      (e : Element) (conn : Connection)
      → read_connection e ≡ ok conn
      → read_connection (update_element ups e) ≡ ok (enrolled_as uuid time conn)
  unfolding read_connection
  read_connection-enrolled_as e conn h =
      let (p, hp, h1) = >>=-eq-ok (int_field e (codes "wg_peer_port") (codes "2408")) _ h in
      let (m, hm, h2) = >>=-eq-ok (int_field e (codes "mtu") (codes "1280")) _ h1 in
      let (d, hd, h3) = >>=-eq-ok (int_field e (codes "reconnect_delay") (codes "5")) _ h2 in
      let (k, hk, h4) = >>=-eq-ok (int_field e (codes "key_rotation_days") (codes "30")) _ h3 in
      let q : connection_with e p m d k ≡ conn = cc in
      read_with e p m d k hp hm hd hk ∙ ap (λ x. ok (enrolled_as uuid time x)) q
