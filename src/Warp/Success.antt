-- ===== src/Warp/Success.antt =====
-- What a success of cmd_enroll went through and left behind.
use cf_masque_opnsense.Prelude.{
  ◌≡◌, refl, sym, ap, Option, none, some, [], ◌∷◌, ◌++◌, is_nil, Bool-cases, inl, inr,
}
use cf_masque_opnsense.Text.{Text, codes}
use cf_masque_opnsense.Dict.{lookup}
use cf_masque_opnsense.Outcome.{Result, ok, raise}
use cf_masque_opnsense.Config.{Config, Connection}
use cf_masque_opnsense.Files.{read}
use cf_masque_opnsense.Secrets.{Crypto, get_secret}
use cf_masque_opnsense.Secrets.Laws.{CryptoLaws}
use cf_masque_opnsense.Json.{Json}
use cf_masque_opnsense.Process.{World, config_of, config_file}
use cf_masque_opnsense.Keys.{Tools, MasqueKeys, generate_masque_keypair}
use cf_masque_opnsense.Api.{Net, enroll_masque_key}
use cf_masque_opnsense.Program.{return, continue, try_with}
use cf_masque_opnsense.Program.Keeps.{continue-eq-ok}
use cf_masque_opnsense.Warp.{
  enrolled, answer_of, new_masque_key, enrol_with, enrol_found, enrol_token, cmd_enroll,
}
use cf_masque_opnsense.Warp.Kept.{Agree}
use cf_masque_opnsense.Warp.Generation.{ToolsKeep}
use cf_masque_opnsense.Warp.Storing.{IsRandom}
use cf_masque_opnsense.Warp.Enrolled.{IsEnrolled, enrol_with-IsEnrolled}
use cf_masque_opnsense.Warp.Outcomes.{answer_of-ne-enrolled, new_masque_key-Agree}

module _ (c : Crypto) (laws : CryptoLaws c) (tools : Tools) (keep : ToolsKeep tools)
    (net : Net tools.Sys) (random : IsRandom net) (uuid : Text) where
  open tools use {Sys}

  -- What a success went through.
  pub record IsDone (w end : World Sys) : Type 0 where
    pub cfg : Config
    pub configured : config_of w.files ≡ ok cfg
    pub conn : Connection
    pub listed : lookup uuid cfg.connections ≡ some conn
    pub token : Text
    pub had_token : get_secret c (codes "device_token_" ++ uuid) w.files ≡ some token
    pub keys : MasqueKeys
    pub updated : Json
    pub generated : (generate_masque_keypair tools w).0 ≡ ok keys
    pub accepted :
        (enroll_masque_key net conn.device_id token keys.public_der conn.device_name
          (generate_masque_keypair tools w).1).0
        ≡ ok updated
    pub kept :
        IsEnrolled c laws tools keep net random uuid keys.private_der (read config_file w.files) end

  -- The key is a fresh pair, whose public half the API accepted.
  new_masque_key-accepted :
      (id token name : Text) (w : World Sys) (keys : MasqueKeys) (updated : Json)
      → (new_masque_key c tools net id token name w).0 ≡ ok (keys, updated)
      → ((generate_masque_keypair tools w).0 ≡ ok keys)
        × ((enroll_masque_key net id token keys.public_der name
              (generate_masque_keypair tools w).1).0
            ≡ ok updated)
  unfolding new_masque_key
  new_masque_key-accepted id token name w keys updated h =
      let (k, p, e) = continue-eq-ok _ (generate_masque_keypair tools w) h in
      let h1 = rw e at h in
      let (u, q, f) =
        continue-eq-ok _
          (enroll_masque_key net id token k.public_der name (generate_masque_keypair tools w).1)
          h1 in
      let h2 = rw f at h1 in
      let same : (k, u) ≡ (keys, updated) = cc in
      let ek : k ≡ keys = ap (λ (x : MasqueKeys × Json). x.0) same in
      let eu : u ≡ updated = ap (λ (x : MasqueKeys × Json). x.1) same in rw (← ek, ← eu) (p, q)

  module _ (cfg : Config) (w : World Sys) (configured : config_of w.files ≡ ok cfg) where
    module _ (conn : Connection) (listed : lookup uuid cfg.connections ≡ some conn) where
      IsDone-after :
          (token : Text) (x : Result (MasqueKeys × Json) × World Sys)
          → get_secret c (codes "device_token_" ++ uuid) w.files ≡ some token
          → x ≡ new_masque_key c tools net conn.device_id token conn.device_name w
          → (try_with (enrol_with c tools net uuid) (λ e. return (answer_of e)) x).0 ≡ ok enrolled
          → IsDone w (try_with (enrol_with c tools net uuid) (λ e. return (answer_of e)) x).1
      IsDone-after token (raise e, v) t q h = absurd (answer_of-ne-enrolled e (cc))
      IsDone-after token (ok (keys, updated), v) t q h = record {
        cfg = cfg;
        configured = configured;
        conn = conn;
        listed = listed;
        token = token;
        had_token = t;
        keys = keys;
        updated = updated;
        generated =
            (new_masque_key-accepted conn.device_id token conn.device_name w keys updated
              (rw (← q) refl)).0;
        accepted =
            (new_masque_key-accepted conn.device_id token conn.device_name w keys updated
              (rw (← q) refl)).1;
        kept =
            let a : Agree w.files v.files = rw (← q) at (
              new_masque_key-Agree c tools keep net uuid conn.device_id token conn.device_name w) in
            rw (← a.0) (enrol_with-IsEnrolled c laws tools keep net random uuid keys updated v h);
      }

      token-IsDone :
          (o : Option Text)
          → o ≡ get_secret c (codes "device_token_" ++ uuid) w.files
          → (enrol_token c tools net uuid conn o w).0 ≡ ok enrolled
          → IsDone w (enrol_token c tools net uuid conn o w).1
      token-IsDone none t h = cc
      token-IsDone (some []) t h = cc
      token-IsDone (some (x ∷ s)) t h = IsDone-after (x ∷ s) _ (sym t) refl h

    found-IsDone :
        (o : Option Connection)
        → o ≡ lookup uuid cfg.connections
        → (enrol_found c tools net uuid o w).0 ≡ ok enrolled
        → IsDone w (enrol_found c tools net uuid o w).1
    found-IsDone none q h = cc
    found-IsDone (some conn) q h = elim (Bool-cases (is_nil conn.device_id)) [
      | inl b ↦ let k = rw b at h in cc
      | inr b ↦ rw b (token-IsDone conn (sym q) _ refl (rw b at h))
    ]

  configured-IsDone :
      (r : Result Config) (w : World Sys)
      → r ≡ config_of w.files
      → (continue (λ cfg. enrol_found c tools net uuid (lookup uuid cfg.connections)) (r, w)).0
        ≡ ok enrolled
      → IsDone w
          (continue (λ cfg. enrol_found c tools net uuid (lookup uuid cfg.connections)) (r, w)).1
  configured-IsDone (raise e) w q h = cc
  configured-IsDone (ok cfg) w q h = found-IsDone cfg w (sym q) (lookup uuid cfg.connections) refl h

  -- A success had a connection with a device token, generated a key pair, had the API accept the
  -- public half of that pair for the connection's device, stored the private half under the connection's name, and wrote the new state of the
  -- registration and the time into the document of config.xml as it was before.
  pub cmd_enroll-IsDone :
      (w : World Sys)
      → (cmd_enroll c tools net uuid w).0 ≡ ok enrolled
      → IsDone w (cmd_enroll c tools net uuid w).1
  unfolding cmd_enroll
  cmd_enroll-IsDone w h = configured-IsDone (config_of w.files) w refl h
