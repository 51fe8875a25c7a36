-- ===== src/Service/Secret.antt =====
-- The commands that store and delete a secret.
use cf_masque_opnsense.Prelude.{◌≡◌, refl, none, some, if◌then◌else◌, length, All}
use cf_masque_opnsense.Text.{Text, text_eq}
use cf_masque_opnsense.Bytes.{Bytes, IsByte, utf8_encode}
use cf_masque_opnsense.Bytes.Utf8.{utf8_decode-encode}
use cf_masque_opnsense.Base64.{b64encode}
use cf_masque_opnsense.Base64.Laws.{b64decode-b64encode}
use cf_masque_opnsense.Outcome.{Failure, Result, ok, raise}
use cf_masque_opnsense.Files.{Files}
use cf_masque_opnsense.Secrets.{Crypto, get_secret}
use cf_masque_opnsense.Secrets.Laws.{CryptoLaws}
use cf_masque_opnsense.Secrets.Store.{get_secret-set_secret}
use cf_masque_opnsense.Service.{try_setsecret, answer, cmd_setsecret}

module _ (c : Crypto) (laws : CryptoLaws c) where
  answer-ok : (r : Result Files) (fs fs' : Files) → answer r fs ≡ (none, fs') → r ≡ ok fs'
  answer-ok (ok g) fs fs' h = cc
  answer-ok (raise e) fs fs' h = cc

  -- When setsecret, given the base64 of a text's UTF-8 form, answers ok, the text reads back under
  -- its key and every other key reads as before.
  pub get_secret-cmd_setsecret :
      (iv : Bytes) (key j value : Text) (b : Bytes) (fs fs' : Files)
      → length iv ≡ 16
      → All IsByte iv
      → utf8_encode value ≡ some b
      → All IsByte b
      → cmd_setsecret c iv key (b64encode b) fs ≡ (none, fs')
      → get_secret c j fs' ≡ (if text_eq key j then some value else get_secret c j fs)
  unfolding cmd_setsecret try_setsecret
  get_secret-cmd_setsecret iv key j value b fs fs' n hi u hb h =
      get_secret-set_secret c laws iv key j value fs fs' n hi
        (rw (b64decode-b64encode b hb, utf8_decode-encode value b u) at (answer-ok _ fs fs' h))

  -- A setsecret that answers with a failure has changed nothing.
  cmd_setsecret_failed :
      (iv : Bytes) (key value_b64 : Text) (fs : Files) (e : Failure)
      → (cmd_setsecret c iv key value_b64 fs).0 ≡ some e
      → (cmd_setsecret c iv key value_b64 fs).1 ≡ fs
  unfolding cmd_setsecret
  cmd_setsecret_failed iv key value_b64 fs e h = split (try_setsecret c iv key value_b64 fs) h
    where
      split : (r : Result Files) → (answer r fs).0 ≡ some e → (answer r fs).1 ≡ fs
      split (ok g) k = cc
      split (raise x) k = refl
