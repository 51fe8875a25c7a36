-- ===== src/Witness/Store.antt =====
-- The store of secrets at concrete secrets.
use cf_masque_opnsense.Prelude.{
  All, List, ◌≡◌, refl, true, ◌++◌, none, some, [], ◌∷◌, arith, if◌then◌else◌,
}
use cf_masque_opnsense.Text.{codes, text_eq}
use cf_masque_opnsense.Bytes.{Bytes, IsByte, utf8_encode, utf8_decode, hex}
use cf_masque_opnsense.Dict.{lookup, insert, remove}
use cf_masque_opnsense.Files.{Files, object, plain, xml, read, write, chmod, replace, write_private}
use cf_masque_opnsense.Outcome.{Result, ok, raise, value_error}
use cf_masque_opnsense.Secrets.{
  secrets_file, encrypt_blob, derive_keys, keys_of, host_identity, save_raw, load_raw, set_secret,
  get_secret, del_secret, seal,
}
use cf_masque_opnsense.Secrets.Store.{get_secret-set_secret, get_secret-del_secret}
use cf_masque_opnsense.Base64.{b64encode, b64decode}
use cf_masque_opnsense.Config.{get_config, no_config}
use cf_masque_opnsense.Secrets.Abstract.{
  Call, set, del, effects, perform_all, view, view-perform_all,
}
use cf_masque_opnsense.Config.Xml.{element, nil, find_below}
use cf_masque_opnsense.Process.{config_of, config_file}
use cf_masque_opnsense.Lifecycle.{
  write_warp_config, warp_config, warp_config_path, write_cloudflared_config, tunnel_config,
  tunnel_config_path, creds, creds_path,
}
use cf_masque_opnsense.Lifecycle.Privacy.{lookup-write_warp_config, lookup-write_cloudflared_config}
use cf_masque_opnsense.Service.{cmd_setsecret, try_setsecret}
use cf_masque_opnsense.Service.Secret.{get_secret-cmd_setsecret}
use cf_masque_opnsense.Witness.Toys.{
  toy_crypto, toy_laws, toy_files, toy_uuid, toy_connection, zeros,
}

abbrev pub files_of : Result Files → Files
files_of (ok fs) = fs
files_of (raise e) = []

abbrev after_set : Files
after_set = files_of (set_secret toy_crypto (zeros 16) (codes "k") (codes "ñ") toy_files)

set_works : set_secret toy_crypto (zeros 16) (codes "k") (codes "ñ") toy_files ≡ ok after_set
unfolding set_secret encrypt_blob derive_keys keys_of host_identity seal save_raw load_raw read
    write_private write chmod replace lookup insert remove text_eq utf8_encode hex
set_works = refl

get_secret-set_secret_example : get_secret toy_crypto (codes "k") after_set ≡ (
    if text_eq (codes "k") (codes "k")
    then some (codes "ñ")
    else get_secret toy_crypto (codes "k") toy_files)
get_secret-set_secret_example =
    get_secret-set_secret toy_crypto toy_laws (zeros 16) (codes "k") (codes "k") (codes "ñ")
      toy_files after_set refl (omega arith) set_works

-- A store that anyone can read.
abbrev open_files : Files
open_files = chmod secrets_file 0o644 after_set

abbrev open_set : Files
open_set = files_of (set_secret toy_crypto (zeros 16) (codes "k") (codes "ñ") open_files)

get_secret-del_secret_example :
    get_secret toy_crypto (codes "j") (del_secret (codes "k") after_set) ≡ (
      if text_eq (codes "k") (codes "j") then none else get_secret toy_crypto (codes "j") after_set)
get_secret-del_secret_example = get_secret-del_secret toy_crypto (codes "k") (codes "j") after_set

abbrev sealed : Result Bytes
sealed = seal toy_crypto (codes "e") (codes "a") (zeros 16) (codes "secret")

abbrev blob_of : Result Bytes → Bytes
blob_of (ok b) = b
blob_of (raise e) = []

seal_works : sealed ≡ ok (blob_of sealed)
unfolding seal
seal_works = refl

setsecret_works :
    cmd_setsecret toy_crypto (zeros 16) (codes "k") (b64encode (codes "hi")) toy_files
    ≡ (none, (cmd_setsecret toy_crypto (zeros 16) (codes "k") (b64encode (codes "hi")) toy_files).1)
unfolding cmd_setsecret try_setsecret b64encode b64decode utf8_decode set_secret encrypt_blob
    derive_keys keys_of host_identity seal read lookup utf8_encode text_eq
setsecret_works = refl

get_secret-cmd_setsecret_example :
    get_secret toy_crypto
      (codes "k")
      (cmd_setsecret toy_crypto (zeros 16) (codes "k") (b64encode (codes "hi")) toy_files).1
    ≡ (if text_eq (codes "k") (codes "k")
        then some (codes "hi")
        else get_secret toy_crypto (codes "k") toy_files)
get_secret-cmd_setsecret_example =
    get_secret-cmd_setsecret toy_crypto toy_laws (zeros 16) (codes "k") (codes "k") (codes "hi")
      (codes "hi") toy_files
      (cmd_setsecret toy_crypto (zeros 16) (codes "k") (b64encode (codes "hi")) toy_files).1 refl
      (omega arith) (unfold utf8_encode in refl) (omega arith) setsecret_works

setsecret_fails :
    (cmd_setsecret toy_crypto (zeros 16) (codes "k") (codes "a") toy_files).0 ≡ some value_error
unfolding cmd_setsecret try_setsecret b64decode
setsecret_fails = refl

abbrev with_config : Files
with_config =
    (config_file, record { content = xml (element (codes "opnsense") [] [] nil); mode = 0o644 })
    ∷ toy_files

config_reads : config_of with_config ≡ ok no_config
unfolding config_of get_config find_below read lookup text_eq
config_reads = refl

abbrev after_write : Files
after_write = files_of (write_warp_config toy_crypto toy_uuid toy_connection with_config)

write_works : write_warp_config toy_crypto toy_uuid toy_connection with_config ≡ ok after_write
unfolding write_warp_config config_of get_config find_below read lookup text_eq
write_works = refl

lookup-write_warp_config_example : lookup (warp_config_path toy_uuid) after_write ≡ (
    if text_eq (warp_config_path toy_uuid) (warp_config_path toy_uuid)
    then some (record {
      content = object (warp_config toy_crypto toy_uuid toy_connection no_config with_config);
      mode = 0o600;
    })
    else if text_eq (warp_config_path toy_uuid ++ codes ".tmp") (warp_config_path toy_uuid)
    then none
    else lookup (warp_config_path toy_uuid) with_config)
lookup-write_warp_config_example =
    lookup-write_warp_config toy_crypto toy_uuid toy_connection with_config no_config after_write
      (warp_config_path toy_uuid) config_reads write_works

abbrev token_files : Files
token_files =
    files_of (set_secret toy_crypto (zeros 16) (codes "tunnel_token_0a") (codes "t") toy_files)

token_set :
    set_secret toy_crypto (zeros 16) (codes "tunnel_token_0a") (codes "t") toy_files
    ≡ ok token_files
unfolding set_secret encrypt_blob derive_keys keys_of host_identity seal save_raw load_raw read
    write_private write chmod replace lookup insert remove text_eq utf8_encode hex
token_set = refl

token_stored :
    get_secret toy_crypto (codes "tunnel_token_" ++ toy_uuid) token_files ≡ some (codes "t")
unfolding text_eq
token_stored =
    get_secret-set_secret toy_crypto toy_laws (zeros 16) (codes "tunnel_token_0a")
      (codes "tunnel_token_0a") (codes "t") toy_files token_files refl (omega arith) token_set

lookup-write_cloudflared_config_example :
    lookup
      (creds_path toy_uuid)
      (write_cloudflared_config toy_crypto toy_uuid toy_connection token_files)
    ≡ (if text_eq (tunnel_config_path toy_uuid) (creds_path toy_uuid)
        then some
            (record { content = plain (tunnel_config toy_uuid toy_connection true); mode = 0o600 })
        else if text_eq (tunnel_config_path toy_uuid ++ codes ".tmp") (creds_path toy_uuid)
        then none
        else if text_eq (creds_path toy_uuid) (creds_path toy_uuid)
        then some (record { content = creds toy_connection (codes "t"); mode = 0o600 })
        else lookup (creds_path toy_uuid) token_files)
lookup-write_cloudflared_config_example =
    lookup-write_cloudflared_config toy_crypto toy_uuid toy_connection token_files (codes "t")
      (creds_path toy_uuid) token_stored (λ e. cc)

zeros_bytes : All IsByte (zeros 16)
zeros_bytes = omega arith

abbrev three_calls : List Call
three_calls =
    set (zeros 16) (codes "k") (codes "v")
    ∷ (del (codes "k") ∷ (set (zeros 16) (codes "j") (codes "w") ∷ []))

three_calls_work :
    perform_all toy_crypto three_calls toy_files
    ≡ ok (files_of (perform_all toy_crypto three_calls toy_files))
unfolding set_secret del_secret encrypt_blob derive_keys keys_of host_identity seal save_raw
    load_raw read write_private write chmod replace lookup insert remove text_eq utf8_encode hex
three_calls_work = refl

view-perform_all_example :
    view toy_crypto (files_of (perform_all toy_crypto three_calls toy_files)) (codes "k")
    ≡ effects three_calls (view toy_crypto toy_files) (codes "k")
view-perform_all_example =
    view-perform_all toy_crypto toy_laws three_calls toy_files
      (files_of (perform_all toy_crypto three_calls toy_files)) (codes "k")
      ((refl, zeros_bytes), (tt, ((refl, zeros_bytes), tt))) three_calls_work
