-- ===== src/Secrets/Abstract.antt =====
-- The store of secrets against its contract: a map from keys to texts.
use cf_masque_opnsense.Prelude.{
  ◌≡◌, refl, ◌∙◌, Option, none, some, List, [], ◌∷◌, All, length, if◌then◌else◌,
}
use cf_masque_opnsense.Text.{Text, text_eq}
use cf_masque_opnsense.Bytes.{Bytes, IsByte}
use cf_masque_opnsense.Outcome.{Result, ok, ◌>>=◌, >>=-eq-ok}
use cf_masque_opnsense.Files.{Files}
use cf_masque_opnsense.Secrets.{Crypto, set_secret, get_secret, del_secret}
use cf_masque_opnsense.Secrets.Laws.{CryptoLaws}
use cf_masque_opnsense.Secrets.Store.{get_secret-set_secret, get_secret-del_secret}

-- A call that changes the store; `set` carries the 16 random bytes that it draws.
pub data Call : Type 0 where
  set : Bytes → Text → Text → Call
  del : Text → Call

abbrev pub IsFit : Call → Type 0
IsFit (set iv key value) = (length iv ≡ 16) × All IsByte iv
IsFit (del key) = Unit

-- The contract.
abbrev pub Secrets : Type 0
Secrets = Text → Option Text

abbrev pub effect : Call → Secrets → Secrets
effect (set iv key value) m j = if text_eq key j then some value else m j
effect (del key) m j = if text_eq key j then none else m j

abbrev pub effects : List Call → Secrets → Secrets
effects [] m = m
effects (call ∷ calls) m = effects calls (effect call m)

module _ (c : Crypto) where
  abbrev pub perform : Call → Files → Result Files
  perform (set iv key value) fs = set_secret c iv key value fs
  perform (del key) fs = ok (del_secret key fs)

  abbrev pub perform_all : List Call → Files → Result Files
  perform_all [] fs = ok fs
  perform_all (call ∷ calls) fs = perform call fs >>= perform_all calls

  -- What a caller sees of the store.
  abbrev pub view : Files → Secrets
  view fs key = get_secret c key fs

  module _ (laws : CryptoLaws c) where
    view-perform :
        (call : Call) (fs fs' : Files) (j : Text)
        → IsFit call
        → perform call fs ≡ ok fs'
        → view fs' j ≡ effect call (view fs) j
    view-perform (set iv key value) fs fs' j fit e =
        get_secret-set_secret c laws iv key j value fs fs' fit.0 fit.1 e
    view-perform (del key) fs fs' j fit e =
        let e' : del_secret key fs ≡ fs' = cc in rw (← e') (get_secret-del_secret c key j fs)

    effects_cong :
        (calls : List Call) (m n : Secrets)
        → ((j : Text) → m j ≡ n j)
        → (j : Text) → effects calls m j ≡ effects calls n j
    effects_cong [] m n h j = h j
    effects_cong (set iv key value ∷ calls) m n h j = effects_cong calls _ _ (λ i. rw (h i) refl) j
    effects_cong (del key ∷ calls) m n h j = effects_cong calls _ _ (λ i. rw (h i) refl) j

    -- Any run of calls that raises nothing changes the store as the contract says: what a caller
    -- sees afterwards is what the same calls make of the map that it saw before.
    pub view-perform_all :
        (calls : List Call) (fs fs' : Files) (j : Text)
        → All IsFit calls
        → perform_all calls fs ≡ ok fs'
        → view fs' j ≡ effects calls (view fs) j
    view-perform_all [] fs fs' j fit e = let e' : fs ≡ fs' = cc in rw e' refl
    view-perform_all (call ∷ calls) fs fs' j fit e =
        let (fs1, p, q) = >>=-eq-ok (perform call fs) (perform_all calls) e in
        view-perform_all calls fs1 fs' j fit.1 q
        ∙ effects_cong calls _ _ (λ i. view-perform call fs fs1 i fit.0 p) j
