-- ===== src/Witness/Enrolment.antt =====
-- The enrolment of a key and what it leaves behind at concrete inputs.
use cf_masque_opnsense.Prelude.{pos, ◌≡◌, refl, Bool, true, false, some, [], ◌∷◌, ◌++◌}
use cf_masque_opnsense.Text.{Text, codes, text_eq, one_of}
use cf_masque_opnsense.Bytes.{utf8_encode, utf8_decode, hex, from_hex}
use cf_masque_opnsense.Dict.{has, lookup, insert, remove}
use cf_masque_opnsense.Outcome.{Result, ok, raise}
use cf_masque_opnsense.Json.{Json, str, member, obj, end}
use cf_masque_opnsense.Config.{Config, Connection, get_config, no_config, uuid_of}
use cf_masque_opnsense.Config.Xml.{
  find_below, find, find_all, tag, Element, Elements, element, nil, cons,
}
use cf_masque_opnsense.Files.{xml, read, write, chmod, write_private, replace, unlink}
use cf_masque_opnsense.Files.Laws.{read-write}
use cf_masque_opnsense.Secrets.{
  set_secret, get_secret, encrypt_blob, decrypt_blob, open_entry, derive_keys, host_identity,
  keys_of, seal, unseal, save_raw, load_raw,
}
use cf_masque_opnsense.Process.{World, config_of, config_file}
use cf_masque_opnsense.Keys.{
  generate_masque_keypair, with_private_file, finally_unlink, generate_self_signed_cert,
  load_masque_private_key, cert_for,
}
use cf_masque_opnsense.Api.{
  Net, Reply, answered, rejected_text, enroll_masque_key, warp_request, new_error,
}
use cf_masque_opnsense.Json.Shown.{shown}
use cf_masque_opnsense.Text.Number.{digits_after}
use cf_masque_opnsense.Base64.{b64encode, b64decode}
use cf_masque_opnsense.Update.{
  matches, update_config_xml, update_below, is_section_parent, update_section, update_connections,
  update_first, is_connection,
}
use cf_masque_opnsense.Update.Reading.{once}
use cf_masque_opnsense.Update.Reloaded.{connection_nodes}
use cf_masque_opnsense.Warp.{
  Registration, new_masque_key, enrol_with, enrolled, api_error, cmd_enroll, RotationReport,
}
use cf_masque_opnsense.Warp.Kept.{Agree, Agree-refl}
use cf_masque_opnsense.Warp.Generation.{ToolsKeep}
use cf_masque_opnsense.Warp.Storing.{IsRandom}
use cf_masque_opnsense.Warp.Outcomes.{cmd_enroll-Agree}
use cf_masque_opnsense.Warp.Success.{IsDone, cmd_enroll-IsDone}
use cf_masque_opnsense.Warp.Reloaded.{Renewed, cmd_enroll-Renewed}
use cf_masque_opnsense.Witness.Toys.{toy_crypto, toy_laws, toy_files, zeros}
use cf_masque_opnsense.Witness.Keys.{toy_tools, zeros-IsByte}
use cf_masque_opnsense.Witness.Settings.{leaf}
use cf_masque_opnsense.Witness.Store.{files_of}

pub toy_keep : ToolsKeep toy_tools
unfolding text_eq
toy_keep = record {
  openssl_keeps = λ args input w h. Agree-refl w.files;
  temp_keeps = λ suffix w. (
    read-write _ _ _ w.files,
    (
      read-write _ _ _ w.files,
      (read-write _ _ _ w.files, (read-write _ _ _ w.files, (read-write _ _ _ w.files, tt))),
    ),
  );
  temp_apart = λ suffix w. (refl, (refl, (refl, (refl, (refl, tt)))));
}

-- A network that gives every request the same reply.
abbrev pub toy_net : Reply → Net Bool
toy_net reply = record {
  urlopen = λ request s. (reply, s);
  uuid4 = λ s. ([], s);
  choices = λ chars n s. ([], s);
  random_bytes = λ n s. (zeros n, s);
  now = λ s. record { year = 2026; month = 1; day = 2; hour = 3; minute = 4; second = 5 };
  is_printable = λ c. false;
}

pub toy_random : (reply : Reply) → IsRandom (toy_net reply)
toy_random reply = record { sixteen = λ s. refl; bytes = λ s. zeros-IsByte 16 }

abbrev pub uuid : Text
uuid = codes "00000000-0000-0000-0000-00000000000a"

abbrev node : Elements → Element
node fields = element (codes "connection") ((codes "uuid", uuid) ∷ []) [] fields

abbrev pub tree : Element
tree = element (codes "opnsense") [] [] (
    cons
      (element (codes "CloudflareZT") [] [] (
        cons
          (element (codes "connections") [] [] (
            cons
              (node (
                cons (leaf (codes "name") (codes "office")) (
                  cons (leaf (codes "device_id") (codes "d1"))
                    (cons (leaf (codes "registration_status") (codes "registered")) nil))))
              nil))
          nil))
      nil)

-- A connection that is registered and has a token, but no date of a rotation.
abbrev pub registered_world : World Bool
registered_world = record {
  files = files_of (
      set_secret toy_crypto (zeros 16) (codes "device_token_" ++ uuid) (codes "t")
        ((codes "/conf/config.xml", record { content = xml tree; mode = 0o644 }) ∷ toy_files));
  sys = true;
}

abbrev pub done_world : World Bool
done_world =
    (cmd_enroll toy_crypto toy_tools (toy_net (answered (obj end))) uuid registered_world).1

pub enrol_works :
    (cmd_enroll toy_crypto toy_tools (toy_net (answered (obj end))) uuid registered_world).0
    ≡ ok enrolled
unfolding cmd_enroll config_of get_config read set_secret get_secret utf8_encode utf8_decode
    encrypt_blob decrypt_blob derive_keys host_identity keys_of text_eq seal unseal save_raw
    load_raw chmod write_private replace write insert remove lookup tag hex from_hex one_of
    digits_after open_entry new_masque_key generate_masque_keypair with_private_file has
    finally_unlink enroll_masque_key warp_request enrol_with b64encode unlink
    generate_self_signed_cert b64decode load_masque_private_key cert_for update_config_xml matches
    update_below is_section_parent update_section update_connections update_first is_connection
enrol_works = refl

abbrev refusal : Reply
refusal = rejected_text (pos 401) (codes "no")

enrol_refused :
    (cmd_enroll toy_crypto toy_tools (toy_net refusal) uuid registered_world).0
    ≡ ok (api_error (pos 401) (codes "no"))
unfolding cmd_enroll config_of get_config read set_secret get_secret utf8_encode utf8_decode
    encrypt_blob decrypt_blob derive_keys host_identity keys_of text_eq seal unseal save_raw
    load_raw chmod write_private replace write insert remove lookup tag hex from_hex one_of
    digits_after open_entry new_masque_key generate_masque_keypair with_private_file has
    finally_unlink enroll_masque_key warp_request new_error shown
enrol_refused = refl

cmd_enroll-Agree_example :
    Agree registered_world.files
      (cmd_enroll toy_crypto toy_tools (toy_net refusal) uuid registered_world).1.files
cmd_enroll-Agree_example =
    cmd_enroll-Agree toy_crypto toy_tools toy_keep (toy_net refusal) uuid registered_world
      (api_error (pos 401) (codes "no")) enrol_refused refl

abbrev pub accepting : Net Bool
accepting = toy_net (answered (obj end))

cmd_enroll-IsDone_example :
    IsDone toy_crypto toy_laws toy_tools toy_keep accepting
      (toy_random (answered (obj end)))
      uuid
      registered_world
      done_world
cmd_enroll-IsDone_example =
    cmd_enroll-IsDone toy_crypto toy_laws toy_tools toy_keep accepting
      (toy_random (answered (obj end))) uuid registered_world enrol_works

-- The configuration of the tree, read from its node.
abbrev pub config_or : Result Config → Config
config_or (ok cfg) = cfg
config_or (raise e) = no_config

abbrev pub cfg0 : Config
cfg0 = config_or (get_config (some tree))

pub registered_config : config_of registered_world.files ≡ ok cfg0
unfolding config_of get_config read set_secret utf8_encode encrypt_blob derive_keys host_identity
    text_eq seal save_raw chmod write_private replace write remove tag digits_after
registered_config = refl

pub registered_tree : read config_file registered_world.files ≡ some (xml tree)
unfolding lookup read set_secret utf8_encode encrypt_blob derive_keys host_identity text_eq seal
    save_raw chmod write_private replace write insert remove tag digits_after
registered_tree = refl

pub one_node : once uuid (connection_nodes tree) ≡ true
unfolding tag text_eq find_below find find_all uuid_of
one_node = refl

cmd_enroll-Renewed_example :
    (conn : Connection) × (lookup uuid cfg0.connections ≡ some conn)
    × Renewed uuid (accepting.now done_world.sys) cfg0 conn (config_of done_world.files)
cmd_enroll-Renewed_example =
    cmd_enroll-Renewed toy_crypto toy_laws toy_tools toy_keep accepting
      (toy_random (answered (obj end))) uuid registered_world cfg0 tree registered_config
      registered_tree one_node enrol_works

-- The check of all keys: the connection has no date of a rotation and is due.
abbrev report_of : RotationReport
report_of = record {
  checked = 1;
  rotated = 1;
  results = record { uuid = uuid; name = codes "office"; result = enrolled } ∷ [];
}

-- A first registration, at a network that answers with an id and a token.
abbrev account : Json
account =
    obj (member (codes "id") (str (codes "d2")) (member (codes "token") (str (codes "t2")) end))

abbrev registration_of : Registration
registration_of = record {
  device_id = str (codes "d2");
  client_ipv4 = str [];
  client_ipv6 = str [];
  endpoint_v4 = [];
  registration_status = codes "registered";
}
