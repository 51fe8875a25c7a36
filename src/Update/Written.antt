-- ===== src/Update/Written.antt =====
-- What a successful `_update_config_xml` does to the files.
use cf_masque_opnsense.Prelude.{◌≡◌, refl, true, false, Option, none, some, Bool-cases, inl, inr}
use cf_masque_opnsense.Text.{Text, text_eq}
use cf_masque_opnsense.Dict.{Dict}
use cf_masque_opnsense.Outcome.{Result, ok, >>=-eq-ok}
use cf_masque_opnsense.Config.Xml.{Element}
use cf_masque_opnsense.Files.{Files, Content, plain, object, xml, read, write, replace}
use cf_masque_opnsense.Files.Laws.{read-staged}
use cf_masque_opnsense.Process.{config_file}
use cf_masque_opnsense.Update.{
  matches, uuid_pattern, parsed, update_below, updated_root, config_tmp, update_config_xml,
}

parsed-xml : (o : Option Content) (root : Element) → parsed o ≡ ok root → o ≡ some (xml root)
parsed-xml none root h = cc
parsed-xml (some (xml e)) root h = cc
parsed-xml (some (plain t)) root h = cc
parsed-xml (some (object d)) root h = cc

updated_root-some :
    (o : Option (Result Element)) (root : Element) → updated_root o ≡ ok root → o ≡ some (ok root)
updated_root-some none root h = cc
updated_root-some (some r) root h = cc

-- The document is replaced by the updated one.
pub record Written (uuid : Text) (updates : Dict Text) (fs fs' : Files) : Type 0 where
  pub valid : matches uuid_pattern uuid ≡ true
  pub root : Element
  pub root' : Element
  pub before : read config_file fs ≡ some (xml root)
  pub updated : update_below uuid updates root ≡ some (ok root')
  pub after : fs' ≡ replace config_tmp config_file (write config_tmp (xml root') fs)

pub update_config_xml-Written :
    (uuid : Text) (updates : Dict Text) (fs fs' : Files)
    → update_config_xml uuid updates fs ≡ ok fs'
    → Written uuid updates fs fs'
unfolding update_config_xml
update_config_xml-Written uuid updates fs fs' h = elim (Bool-cases (matches uuid_pattern uuid)) [
  | inr b ↦ let k = rw b at h in cc
  | inl b ↦
      let k = rw b at h in
      let (root, p, q) = >>=-eq-ok (parsed (read config_file fs)) _ k in
      let (root', r, t) = >>=-eq-ok (updated_root (update_below uuid updates root)) _ q in
      record {
        valid = b;
        root = root;
        root' = root';
        before = parsed-xml _ root p;
        updated = updated_root-some _ root' r;
        after = (cc);
      }
]

module _ {uuid : Text} {updates : Dict Text} {fs fs' : Files}
    (w : Written uuid updates fs fs') where
  pub Written-config : read config_file fs' ≡ some (xml w.root')
  unfolding text_eq
  Written-config =
      rw (w.after, read-staged config_tmp config_file config_file (xml w.root') fs) refl

  -- Every file but config.xml and its temporary copy is as it was.
  pub Written-other :
      (p : Text)
      → text_eq config_file p ≡ false
      → text_eq config_tmp p ≡ false
      → read p fs' ≡ read p fs
  Written-other p a b =
      rw (w.after, read-staged config_tmp config_file p (xml w.root') fs, a, b) refl
