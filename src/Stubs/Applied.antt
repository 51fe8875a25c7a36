-- ===== src/Stubs/Applied.antt =====
-- What a run of the stubs script leaves behind.
use cf_masque_opnsense.Prelude.{
  ◌≡◌, refl, ◌∙◌, inl, inr, Bool-cases, some, List, [], ◌∷◌, ◌++◌, if◌then◌else◌, arith,
}
use cf_masque_opnsense.Text.{Text, codes, text_eq}
use cf_masque_opnsense.Text.Equality.{text_eq-append}
use cf_masque_opnsense.Outcome.{ok}
use cf_masque_opnsense.Files.{Files, plain, read, write}
use cf_masque_opnsense.Files.Laws.{read-write}
use cf_masque_opnsense.Stubs.{
  collector, system_collector, replace_first, join_path, ends_in_slash, root_of, apply_stubs,
  stubs_main,
}

text_eq-join_path : (root a b : Text) → text_eq (join_path root a) (join_path root b) ≡ text_eq a b
unfolding text_eq
text_eq-join_path root a b = elim (Bool-cases (ends_in_slash root)) [
  | inl e ↦ rw e (text_eq-append root a b)
  | inr e ↦ rw e (text_eq-append root (b'/' ∷ a) (b'/' ∷ b) ∙ ground arith)
]

abbrev pub lines_printed : List Text
lines_printed =
    (codes "  " ++ collector.dst)
    ∷ (codes "  " ++ system_collector.dst)
    ∷ codes "FreeBSD stubs applied."
    ∷ []

-- Where both sources are texts below the root, the run ends, each target is its source with the
-- first occurrence of the old words replaced, and every other file is as before.
pub stubs_main-made :
    (argv : List Text) (fs : Files) (a b path : Text)
    → read (join_path (root_of argv) collector.src) fs ≡ some (plain a)
    → read (join_path (root_of argv) system_collector.src) fs ≡ some (plain b)
    → ((stubs_main argv fs).0 ≡ ok lines_printed)
      × (read path (stubs_main argv fs).1 ≡ (
          if text_eq (join_path (root_of argv) system_collector.dst) path
          then some (plain (replace_first system_collector.old system_collector.new b))
          else if text_eq (join_path (root_of argv) collector.dst) path
          then some (plain (replace_first collector.old collector.new a))
          else read path fs))
unfolding stubs_main apply_stubs
stubs_main-made argv fs a b path h k =
    let root = root_of argv in
    let first =
      write (join_path root collector.dst) (plain (replace_first collector.old collector.new a))
        fs in
    let untouched : read (join_path root system_collector.src) first ≡ some (plain b) =
      read-write (join_path root collector.dst) (join_path root system_collector.src) _ fs
      ∙ rw (text_eq-join_path root collector.dst system_collector.src) (unfold text_eq in k) in
    rw (h, untouched)
      (
        refl,
        rw
            (
              read-write (join_path root system_collector.dst) path
                  (plain (replace_first system_collector.old system_collector.new b)) first,
              read-write (join_path root collector.dst) path
                  (plain (replace_first collector.old collector.new a)) fs,
            )
            refl,
      )
