-- ===== src/Lifecycle/Privacy.antt =====
-- The configuration files of the daemons, which hold private keys and tokens.
use cf_masque_opnsense.Prelude.{
  ◌≡◌, ◌≢◌, refl, true, none, some, [], ◌∷◌, ◌++◌, arith, if◌then◌else◌,
}
use cf_masque_opnsense.Text.{Text, codes, text_eq}
use cf_masque_opnsense.Dict.{lookup}
use cf_masque_opnsense.Outcome.{ok}
use cf_masque_opnsense.Config.{Config, Connection}
use cf_masque_opnsense.Files.{Files, Content, object, plain, write_private}
use cf_masque_opnsense.Files.Laws.{lookup-write_private, lookup-write, lookup-chmod}
use cf_masque_opnsense.Process.{config_of}
use cf_masque_opnsense.Secrets.{Crypto, get_secret}
use cf_masque_opnsense.Lifecycle.{
  warp_config_path, tunnel_config_path, creds_path, warp_config, write_warp_config,
  write_cloudflared_config, creds, tunnel_config,
}

module _ (crypto : Crypto) (uuid : Text) (conn : Connection) (fs : Files) where
  -- Writing the configuration of a WARP daemon puts all that `warp_config` says under its path,
  -- readable by its owner only, removes the temporary copy, and leaves every other file as it was.
  pub lookup-write_warp_config :
      (cfg : Config) (fs' : Files) (q : Text)
      → config_of fs ≡ ok cfg
      → write_warp_config crypto uuid conn fs ≡ ok fs'
      → lookup q fs' ≡ (
          if text_eq (warp_config_path uuid) q
          then some
              (record { content = object (warp_config crypto uuid conn cfg fs); mode = 0o600 })
          else if text_eq (warp_config_path uuid ++ codes ".tmp") q
          then none
          else lookup q fs)
  unfolding write_warp_config
  lookup-write_warp_config cfg fs' q c h =
      let k = rw c at h in rw (← result k) (lookup-write_private _ _ q _ fs)
    where
      content : Content
      content = object (warp_config crypto uuid conn cfg fs)

      path : Text
      path = warp_config_path uuid

      result :
          ok (write_private (path ++ codes ".tmp") path content fs) ≡ ok fs'
          → write_private (path ++ codes ".tmp") path content fs ≡ fs'
      result e = cc

  -- Writing the configuration of a tunnel whose token is stored leaves the YAML file and the
  -- credentials file readable by their owner only; every other file but the temporary copy is as
  -- it was.
  pub lookup-write_cloudflared_config :
      (token q : Text)
      → get_secret crypto (codes "tunnel_token_" ++ uuid) fs ≡ some token
      → token ≢ []
      → lookup q (write_cloudflared_config crypto uuid conn fs) ≡ (
          if text_eq (tunnel_config_path uuid) q
          then some (record { content = plain (tunnel_config uuid conn true); mode = 0o600 })
          else if text_eq (tunnel_config_path uuid ++ codes ".tmp") q
          then none
          else if text_eq (creds_path uuid) q
          then some (record { content = creds conn token; mode = 0o600 })
          else lookup q fs)
  unfolding write_cloudflared_config
  lookup-write_cloudflared_config [] q e n = absurd (n refl)
  lookup-write_cloudflared_config (t ∷ token) q e n =
      rw e (rw (lookup-write_private, lookup-chmod, lookup-write) (ground arith))
