-- ===== src/Secrets/Store.antt =====
-- The store of secrets as a map from keys to texts.
use cf_masque_opnsense.Prelude.{
  ◌≡◌, refl, ◌∙◌, Option, none, some, arith, All, length, if◌then◌else◌, Bool-cases, inl, inr,
}
use cf_masque_opnsense.Text.{Text, text_eq}
use cf_masque_opnsense.Bytes.{Bytes, IsByte, hex, utf8_encode}
use cf_masque_opnsense.Bytes.Hex.{from_hex-hex}
use cf_masque_opnsense.Bytes.Utf8.{utf8_decode-encode}
use cf_masque_opnsense.Dict.{Dict, lookup, insert, lookup-insert, lookup-remove}
use cf_masque_opnsense.Outcome.{ok}
use cf_masque_opnsense.Files.{Files, Value, str}
use cf_masque_opnsense.Secrets.{
  Crypto, derive_keys, encrypt_blob, decrypt_blob, load_raw, save_raw, set_secret, open_entry,
  or_none, get_secret, del_secret, seal,
}
use cf_masque_opnsense.Secrets.Laws.{CryptoLaws, load_raw-save_raw, host_identity-save_raw}
use cf_masque_opnsense.Secrets.Sealing.{unseal-seal, seal-bytes}

module _ (c : Crypto) where
  derive_keys-save_raw :
      (d : Dict Value) (fs : Files) → derive_keys c (save_raw d fs) ≡ derive_keys c fs
  unfolding derive_keys
  derive_keys-save_raw d fs = rw host_identity-save_raw

  -- Rewriting the store does not change how an entry is read.
  open_entry-save_raw :
      (v : Value) (d : Dict Value) (fs : Files) → open_entry c v (save_raw d fs) ≡ open_entry c v fs
  unfolding open_entry decrypt_blob
  open_entry-save_raw (str t) d fs = rw derive_keys-save_raw
  open_entry-save_raw _ d fs = refl

  -- What a read finds in a store that was saved with the entries `d`.
  abbrev pub found : Option Value → Files → Option Text
  found none fs = none
  found (some v) fs = or_none (open_entry c v fs)

  pub get_secret-found :
      (key : Text) (fs : Files) → get_secret c key fs ≡ found (lookup key (load_raw fs)) fs
  unfolding get_secret
  get_secret-found key fs = ground arith

  found-save_raw :
      (o : Option Value) (d : Dict Value) (fs : Files) → found o (save_raw d fs) ≡ found o fs
  found-save_raw none d fs = refl
  found-save_raw (some v) d fs = rw open_entry-save_raw

  get_secret-save_raw :
      (key : Text) (d : Dict Value) (fs : Files)
      → get_secret c key (save_raw d fs) ≡ found (lookup key d) fs
  get_secret-save_raw key d fs =
      get_secret-found key (save_raw d fs)
      ∙ rw load_raw-save_raw (found-save_raw (lookup key d) d fs)

  -- What a successful `set_secret` did.
  pub set_secret-cases :
      (iv : Bytes) (key value : Text) (fs fs' : Files)
      → set_secret c iv key value fs ≡ ok fs'
      → (keys : Bytes × Bytes) × (p : Bytes) × (blob : Bytes) × (derive_keys c fs ≡ ok keys)
        × (utf8_encode value ≡ some p)
        × (seal c keys.0 keys.1 iv p ≡ ok blob)
        × (save_raw (insert key (str (hex blob)) (load_raw fs)) fs ≡ fs')
  unfolding set_secret encrypt_blob
  set_secret-cases iv key value fs fs' h = ground arith

  -- After a deletion the key has no secret, and every other key has the one it had.
  pub get_secret-del_secret :
      (key j : Text) (fs : Files)
      → get_secret c j (del_secret key fs) ≡ (if text_eq key j then none else get_secret c j fs)
  unfolding del_secret
  get_secret-del_secret key j fs =
      get_secret-save_raw j _ fs ∙ rw (lookup-remove, get_secret-found) (ground arith)

  module _ (laws : CryptoLaws c) where
    open_sealed :
        (keys : Bytes × Bytes) (iv p blob : Bytes) (value : Text) (fs : Files)
        → length iv ≡ 16
        → All IsByte iv
        → derive_keys c fs ≡ ok keys
        → utf8_encode value ≡ some p
        → seal c keys.0 keys.1 iv p ≡ ok blob
        → open_entry c (str (hex blob)) fs ≡ ok value
    unfolding open_entry decrypt_blob
    open_sealed keys iv p blob value fs n hi k u s = rw (
      from_hex-hex blob (seal-bytes c laws keys.0 keys.1 iv p blob hi s),
      k,
      unseal-seal c laws keys.0 keys.1 iv p blob n s,
      utf8_decode-encode value p u,
    )

    -- A secret that was stored reads back as it was given, under its key; under every other key
    -- the store reads as before. The iv has 16 bytes.
    pub get_secret-set_secret :
        (iv : Bytes) (key j value : Text) (fs fs' : Files)
        → length iv ≡ 16
        → All IsByte iv
        → set_secret c iv key value fs ≡ ok fs'
        → get_secret c j fs' ≡ (if text_eq key j then some value else get_secret c j fs)
    get_secret-set_secret iv key j value fs fs' n hi h =
        let (keys, p, blob, k, u, s, e) = set_secret-cases iv key value fs fs' h in
        rw (← e) (
          get_secret-save_raw j _ fs
          ∙ rw (lookup-insert, get_secret-found)
              (elim (Bool-cases (text_eq key j)) [
                | inl t ↦ rw (t, open_sealed keys iv p blob value fs n hi k u s)
                | inr t ↦ rw t
              ]))
