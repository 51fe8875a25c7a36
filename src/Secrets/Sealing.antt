-- ===== src/Secrets/Sealing.antt =====
-- Unsealing undoes sealing, and refuses what carries a wrong tag.
use cf_masque_opnsense.Prelude.{
  ◌<◌, ◌≡◌, ◌∙◌, ap, some, ◌++◌, arith, All, All-append, length, length-append, length-take,
  length-drop, take, drop, Bool-cases, inl, inr,
}
use mathlib.Core.List.{append_assoc}
use cf_masque_opnsense.Text.{text_eq}
use cf_masque_opnsense.Text.Equality.{text_eq_refl, text_eq→eq}
use cf_masque_opnsense.Bytes.{Bytes, IsByte}
use cf_masque_opnsense.Outcome.{ok, raise, require, process_error, value_error}
use cf_masque_opnsense.Secrets.{Crypto, seal, unseal}
use cf_masque_opnsense.Secrets.Laws.{CryptoLaws, take_exact, drop_exact}

module _ (c : Crypto) (laws : CryptoLaws c) (enc_key auth_key : Bytes) where
  seal-cases :
      (iv p blob : Bytes)
      → seal c enc_key auth_key iv p ≡ ok blob
      → (ct : Bytes) × (c.encrypt enc_key iv p ≡ some ct)
        × (iv ++ (c.hmac auth_key (iv ++ ct) ++ ct) ≡ blob)
  unfolding seal
  seal-cases iv p blob h = ground arith

  module _ (iv ct : Bytes) (iv_length : length iv ≡ 16) where
    abbrev blob_of : Bytes
    blob_of = iv ++ (c.hmac auth_key (iv ++ ct) ++ ct)

    tag_of : take 32 (drop 16 blob_of) ≡ c.hmac auth_key (iv ++ ct)
    tag_of =
        ap (take 32) (drop_exact 16 iv _ iv_length)
        ∙ take_exact 32 (c.hmac auth_key (iv ++ ct)) ct (laws.hmac_length auth_key (iv ++ ct))

    text_of_blob : drop 48 blob_of ≡ ct
    text_of_blob = rw (← append_assoc) (
        drop_exact 48 (iv ++ c.hmac auth_key (iv ++ ct)) ct (
          omega (
            arith,
            length-append iv (c.hmac auth_key (iv ++ ct)),
            laws.hmac_length auth_key (iv ++ ct),
          )))

    unseal_blob :
        unseal c enc_key auth_key blob_of ≡ require process_error (c.decrypt enc_key iv ct)
    unfolding unseal
    unseal_blob = rw (take_exact 16 iv _ iv_length, tag_of, text_of_blob, text_eq_refl)

  -- Unsealing a sealed text under the same keys gives the text back, for a 16-byte iv.
  pub unseal-seal :
      (iv p blob : Bytes)
      → length iv ≡ 16
      → seal c enc_key auth_key iv p ≡ ok blob
      → unseal c enc_key auth_key blob ≡ ok p
  unseal-seal iv p blob n h =
      let (ct, e, b) = seal-cases iv p blob h in
      rw (← b) (unseal_blob iv ct n ∙ rw (laws.decrypt-encrypt enc_key iv p ct e))

  -- A blob too short to hold an iv and a tag is refused.
  pub unseal_short :
      (blob : Bytes) → length blob < 48 → unseal c enc_key auth_key blob ≡ raise value_error
  unfolding unseal
  unseal_short blob h =
      elim (Bool-cases
        (text_eq (take 32 (drop 16 blob)) (c.hmac auth_key (take 16 blob ++ drop 48 blob)))) [
          | inl e ↦ absurd (
              omega (
                arith,
                ap length (text_eq→eq _ _ e),
                laws.hmac_length auth_key (take 16 blob ++ drop 48 blob),
                length-take 32 (drop 16 blob),
                length-drop 16 blob,
              ))
          | inr e ↦ rw e
        ]

  pub seal-bytes :
      (iv p blob : Bytes) → All IsByte iv → seal c enc_key auth_key iv p ≡ ok blob → All IsByte blob
  seal-bytes iv p blob hi h =
      let (ct, e, b) = seal-cases iv p blob h in
      rw (← b) (
        All-append IsByte iv _ hi (
          All-append IsByte (c.hmac auth_key (iv ++ ct)) ct (laws.hmac_bytes auth_key (iv ++ ct))
            (laws.encrypt_bytes enc_key iv p ct e)))
