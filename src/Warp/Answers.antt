-- ===== src/Warp/Answers.antt =====
-- warp.py: what the commands answer, and what they read out of the answers of the WARP API.
use cf_masque_opnsense.Prelude.{ℕ, ℤ, Bool, true, false, [], ◌∷◌, ◌++◌, if◌then◌else◌, is_nil}
use cf_masque_opnsense.Text.{Text, codes, lstrip, before_last, before_pair}
use cf_masque_opnsense.Dict.{Dict}
use cf_masque_opnsense.Outcome.{Failure, Result, ok, ◌>>=◌}
use cf_masque_opnsense.Json.{Json, str, arr, obj, nil, end, is_true, get, first, text_of}
use cf_masque_opnsense.Json.Shown.{shown}
use cf_masque_opnsense.Calendar.{Stamp, strftime}

-- The answer of a registration.
pub record Registration : Type 0 where
  pub device_id : Json
  pub client_ipv4 : Json
  pub client_ipv6 : Json
  pub endpoint_v4 : Text
  pub registration_status : Text

-- The answers of cmd_register and cmd_enroll, with what their messages are made of.
pub data Answer : Type 0 where
  connection_missing : Text → Answer
  no_registration_for : Text → Answer
  incomplete_response not_registered no_device_token : Answer
  api_error : ℤ → Text → Answer
  unexpected_error cert_failed update_failed : Failure → Answer
  enrolled : Answer
  registered : Registration → Answer

-- r.get('result') == 'ok'
unfoldable pub is_ok : Answer → Bool
is_ok enrolled = true
is_ok (registered r) = true
is_ok _ = false

-- What an answer of the API assigns to a device.
pub record Assigned : Type 0 where
  pub iface : Json
  pub endpoint_v4 : Text
  pub endpoint_v6 : Text
  pub peer_pubkey : Json

abbrev pub empty : Json
empty = obj end

-- peers[0] if peers else {}, for peers = updated.get('config', {}).get('peers', [])
unfoldable pub peer_of : Json → Result Json
unfolding get is_true first
peer_of updated = do
  config ← get updated (codes "config") empty
  peers ← get config (codes "peers") (arr nil)
  (if is_true peers then first peers else ok empty)

unfoldable pub pubkey_of : Json → Result Json
unfolding peer_of get
pubkey_of updated = do peer ← peer_of updated; get peer (codes "public_key") (str [])

-- endpoint_v6_raw.lstrip('[').split(']:')[0] if endpoint_v6_raw else ''
unfoldable pub bare_v6 : Json → Result Text
unfolding is_true text_of lstrip before_pair
bare_v6 raw =
    if is_true raw then (do t ← text_of raw; ok (before_pair b']' b':' (lstrip b'[' t))) else ok []

unfoldable pub assigned_of : Json → Result Assigned
unfolding peer_of get bare_v6 text_of before_last
assigned_of updated = do
  config ← get updated (codes "config") empty
  interface ← get config (codes "interface") empty
  addresses ← get interface (codes "addresses") empty
  peer ← peer_of updated
  endpoint ← get peer (codes "endpoint") empty
  v4 ← get endpoint (codes "v4") (str [])
  v4_text ← text_of v4
  v6 ← get endpoint (codes "v6") (str [])
  v6_text ← bare_v6 v6
  pubkey ← get peer (codes "public_key") (str [])
  ok (record {
    iface = addresses;
    endpoint_v4 = before_last b':' v4_text;
    endpoint_v6 = v6_text;
    peer_pubkey = pubkey;
  })

-- What the `try` of cmd_register gets hold of; `masque_priv` is empty for None.
pub record Acquired : Type 0 where
  pub wg_priv : Text
  pub wg_pub : Text
  pub device_id : Json
  pub device_token : Json
  pub masque_priv : Text
  pub assigned : Assigned

abbrev pub status_for : Text → Text
status_for masque_priv = if is_nil masque_priv then codes "registered" else codes "enrolled"

abbrev pub key_refs : Text → Text → Dict Text
key_refs uuid masque_priv =
    if is_nil masque_priv
    then []
    else (codes "masque_privkey_ref", codes "masque_privkey_" ++ uuid)
      ∷ (codes "wg_privkey_ref", codes "wg_privkey_" ++ uuid)
      ∷ []

-- The updates of cmd_enroll.
unfoldable pub enrol_updates : Text → Stamp → Dict Text
enrol_updates uuid time =
    (codes "masque_privkey_ref", codes "masque_privkey_" ++ uuid)
    ∷ (codes "endpoint_pubkey_ref", codes "endpoint_pubkey_" ++ uuid)
    ∷ (codes "registration_status", codes "enrolled")
    ∷ (codes "last_key_rotation", strftime time)
    ∷ []

module _ (is_printable : ℕ → Bool) where
  -- xml_updates of cmd_register, with the `str` of each value; v4 and v6 are the addresses.
  unfoldable pub register_updates : Text → Acquired → Json → Json → Stamp → Dict Text
  unfolding shown
  register_updates uuid a v4 v6 time =
      ((codes "device_id", shown is_printable a.device_id)
        ∷ (codes "device_token_ref", codes "device_token_" ++ uuid)
        ∷ (codes "client_ipv4", shown is_printable v4)
        ∷ (codes "client_ipv6", shown is_printable v6)
        ∷ (codes "endpoint_v4", a.assigned.endpoint_v4)
        ∷ (codes "endpoint_v6", a.assigned.endpoint_v6)
        ∷ (codes "endpoint_pubkey_ref", codes "endpoint_pubkey_" ++ uuid)
        ∷ (codes "wg_pubkey", a.wg_pub)
        ∷ (codes "wg_peer_pubkey", shown is_printable a.assigned.peer_pubkey)
        ∷ (codes "registration_status", status_for a.masque_priv)
        ∷ (codes "last_key_rotation", strftime time)
        ∷ [])
      ++ key_refs uuid a.masque_priv
