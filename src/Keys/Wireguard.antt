-- ===== src/Keys/Wireguard.antt =====
-- The keys that generate_wireguard_keypair gives.
use cf_masque_opnsense.Prelude.{
  ℕ, zero, suc, ◌-◌, ◌≤◌, ◌≡◌, refl, Option, none, some, [], ◌∷◌, arith, All, length, drop,
  length-drop,
}
use cf_masque_opnsense.Text.{Text, codes}
use cf_masque_opnsense.Bytes.{Bytes, IsByte}
use cf_masque_opnsense.Base64.{b64encode, b64decode}
use cf_masque_opnsense.Base64.Laws.{b64decode-b64encode}
use cf_masque_opnsense.Outcome.{ok}
use cf_masque_opnsense.Process.{World}
use cf_masque_opnsense.Keys.{
  Tools, last_32, genpkey_x25519, pubout, with_spki, with_pkcs8, generate_wireguard_keypair,
}

All-drop : (n : ℕ) (b : Bytes) → All IsByte b → All IsByte (drop n b)
All-drop zero b h = h
All-drop (suc n) [] h = tt
All-drop (suc n) (x ∷ b) h = All-drop n b h.1

-- The base64 of 32 bytes.
pub IsKey : Text → Type 0
IsKey t = (key : Bytes) × (b64decode t ≡ some key) × (length key ≡ 32)

last_32-IsKey : (b : Bytes) → All IsByte b → 32 ≤ length b → IsKey (b64encode (last_32 b))
unfolding IsKey last_32
last_32-IsKey b h l = (
  drop (length b - 32) b,
  b64decode-b64encode _ (All-drop (length b - 32) b h),
  omega (arith, length-drop (length b - 32) b),
)

-- The DER forms of X25519 keys: 48 bytes for the private one, 44 for the public one.
pub record ToolLaws (tools : Tools) : Type 0 where
  pub private_der :
      (w : World tools.Sys) (out : Bytes)
      → (tools.openssl genpkey_x25519 [] w).0 ≡ some out
      → All IsByte out × (length out ≡ 48)
  pub public_der :
      (key : Bytes) (w : World tools.Sys) (out : Bytes)
      → (tools.openssl (pubout (codes "DER") []) key w).0 ≡ some out
      → All IsByte out × (length out ≡ 44)

module _ (tools : Tools) (laws : ToolLaws tools) where
  open tools use {Sys, openssl}

  keys_from :
      (pkcs8 : Bytes) (priv pub_key : Text) (x : Option Bytes × World Sys)
      → All IsByte pkcs8 × (length pkcs8 ≡ 48)
      → ((out : Bytes) → x.0 ≡ some out → All IsByte out × (length out ≡ 44))
      → (with_spki tools pkcs8 x).0 ≡ ok (priv, pub_key)
      → IsKey priv × IsKey pub_key
  keys_from pkcs8 priv pub_key (none, w) h k e = cc
  keys_from pkcs8 priv pub_key (some spki, w) h k e =
      let l = k spki refl in
      let p : b64encode (last_32 pkcs8) ≡ priv = cc in
      let q : b64encode (last_32 spki) ≡ pub_key = cc in
      rw (← p, ← q)
        (last_32-IsKey pkcs8 h.0 (omega (arith, h.1)), last_32-IsKey spki l.0 (omega (arith, l.1)))

  from_private :
      (priv pub_key : Text) (x : Option Bytes × World Sys)
      → ((out : Bytes) → x.0 ≡ some out → All IsByte out × (length out ≡ 48))
      → (with_pkcs8 tools x).0 ≡ ok (priv, pub_key)
      → IsKey priv × IsKey pub_key
  from_private priv pub_key (none, w) k e = cc
  from_private priv pub_key (some pkcs8, w) k e =
      keys_from pkcs8 priv pub_key (openssl (pubout (codes "DER") []) pkcs8 w) (k pkcs8 refl)
        (λ out. laws.public_der pkcs8 w out) e

  -- The two texts of a pair that is generated are each the base64 of 32 bytes, if openssl writes
  -- DER of 48 and 44 bytes.
  generate_wireguard_keypair-IsKey :
      (w : World Sys) (priv pub_key : Text)
      → (generate_wireguard_keypair tools w).0 ≡ ok (priv, pub_key)
      → IsKey priv × IsKey pub_key
  unfolding generate_wireguard_keypair
  generate_wireguard_keypair-IsKey w priv pub_key e =
      from_private priv pub_key (openssl genpkey_x25519 [] w) (λ out. laws.private_der w out) e
