-- ===== src/Warp/Register.antt =====
-- warp.py: cmd_register.
use cf_masque_opnsense.Prelude.{Option, none, some, [], ◌++◌, if◌then◌else◌, is_nil, ◌||◌, not}
use cf_masque_opnsense.Text.{Text, codes, text_eq}
use cf_masque_opnsense.Dict.{lookup}
use cf_masque_opnsense.Outcome.{Failure}
use cf_masque_opnsense.Config.{Connection}
use cf_masque_opnsense.Secrets.{Crypto}
use cf_masque_opnsense.Json.{Json, str, is_true, get}
use cf_masque_opnsense.Json.Shown.{shown}
use cf_masque_opnsense.Process.{is_warp, config_of}
use cf_masque_opnsense.Keys.{Tools, generate_wireguard_keypair, generate_masque_keypair}
use cf_masque_opnsense.Api.{Net, register_device, enroll_masque_key}
use cf_masque_opnsense.Program.{Program, lift, return, try_with, ◌>>=◌, ◌>>◌}
use cf_masque_opnsense.Warp.{
  Answer, connection_missing, no_registration_for, incomplete_response, registered, Acquired,
  Attempt, incomplete, acquired, answer_of, assigned_of, register_updates, status_for, put_secret,
  put_json, put_masque, put_pubkey, unless_failed, update_then, the_time,
}

module _ (crypto : Crypto) (tools : Tools) (net : Net tools.Sys) where
  open tools use {Sys}
  open net use {is_printable}

  -- The private key of MASQUE, empty for None, and the answer that assigns the addresses.
  unfoldable pub upgrade : Connection → Json → Json → Json → Program Sys (Text × Json)
  unfolding shown
  upgrade conn account device_id device_token =
      if text_eq conn.protocol (codes "warp_masque")
      then (do
        keys ← generate_masque_keypair tools
        updated ←
            enroll_masque_key net (shown is_printable device_id) (shown is_printable device_token)
              keys.public_der conn.device_name
        return (keys.private_der, updated))
      else return ([], account)

  unfoldable pub acquire_from : Connection → Text × Text → Json → Program Sys Attempt
  unfolding upgrade get is_true assigned_of
  acquire_from conn (wg_priv, wg_pub) account = do
    device_id ← lift (get account (codes "id") (str []))
    device_token ← lift (get account (codes "token") (str []))
    (if not (is_true device_id) || not (is_true device_token) then return incomplete else (do
      upgraded ← upgrade conn account device_id device_token
      assigned ← lift (assigned_of upgraded.1)
      return (
          acquired (record {
            wg_priv = wg_priv;
            wg_pub = wg_pub;
            device_id = device_id;
            device_token = device_token;
            masque_priv = upgraded.0;
            assigned = assigned;
          }))))

  -- The `try` of cmd_register.
  unfoldable pub acquire : Connection → Text → Program Sys Attempt
  unfolding acquire_from
  acquire conn jwt = do
    wg ← generate_wireguard_keypair tools
    account ← register_device net wg.1 (codes "PC") (codes "en_US") jwt [] []
    acquire_from conn wg account

  abbrev pub put_masque_key : Text → Text → Program Sys (Option Failure)
  put_masque_key uuid masque_priv =
      if is_nil masque_priv then return none else put_masque crypto tools net uuid masque_priv

  -- The fields of config.xml, and the answer.
  unfoldable pub write_fields : Text → Acquired → Program Sys Answer
  unfolding get register_updates update_then
  write_fields uuid a = do
    v4 ← lift (get a.assigned.iface (codes "v4") (str []))
    v6 ← lift (get a.assigned.iface (codes "v6") (str []))
    time ← the_time crypto tools net
    update_then crypto tools net uuid (register_updates is_printable uuid a v4 v6 time) (
        registered (record {
          device_id = a.device_id;
          client_ipv4 = v4;
          client_ipv6 = v6;
          endpoint_v4 = a.assigned.endpoint_v4;
          registration_status = status_for a.masque_priv;
        }))

  -- Steps 4 and 5.
  unfoldable pub record_device : Text → Attempt → Program Sys Answer
  unfolding put_json put_pubkey put_secret write_fields
  record_device uuid incomplete = return incomplete_response
  record_device uuid (acquired a) = do
    put_json crypto tools net (codes "device_token_" ++ uuid) a.device_token
    cert ← put_masque_key uuid a.masque_priv
    unless_failed crypto tools net cert (do
      put_pubkey crypto tools net uuid a.assigned.peer_pubkey
      put_secret crypto tools net (codes "wg_privkey_" ++ uuid) a.wg_priv
      write_fields uuid a)

  abbrev pub register_found : Text → Text → Option Connection → Program Sys Answer
  register_found uuid jwt none w = return (connection_missing uuid) w
  register_found uuid jwt (some conn) w =
      if is_warp conn.protocol
      then try_with (record_device uuid) (λ e. return (answer_of e)) (acquire conn jwt w)
      else return (no_registration_for conn.protocol) w

  unfoldable pub cmd_register : Text → Text → Program Sys Answer
  cmd_register uuid jwt = do
    cfg ← (λ w. (config_of w.files, w))
    register_found uuid jwt (lookup uuid cfg.connections)
