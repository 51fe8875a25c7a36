-- ===== src/Stubs.antt =====
-- src/scripts/cloudflared-freebsd-stubs.py: the FreeBSD copies of two files of a cloudflared tree.
-- The directories are taken as there; the command line is `argv`, without the script's name.
pub mod Applied
use cf_masque_opnsense.Prelude.{
  Bool, true, false, Option, none, some, List, [], ◌∷◌, ◌++◌, ◌==◌, if◌then◌else◌, is_nil, length,
  drop,
}
use cf_masque_opnsense.Text.{Text, codes, starts_with}
use cf_masque_opnsense.Outcome.{Result, ok, raise, os_error}
use cf_masque_opnsense.Files.{Files, Content, plain, read, write}

pub record Stub : Type 0 where
  pub src : Text
  pub dst : Text
  pub old : Text
  pub new : Text

abbrev pub collector : Stub
collector = record {
  src = codes "diagnostic/network/collector_unix.go";
  dst = codes "diagnostic/network/collector_freebsd.go";
  old = codes "darwin || linux";
  new = codes "freebsd";
}

abbrev pub system_collector : Stub
system_collector = record {
  src = codes "diagnostic/system_collector_linux.go";
  dst = codes "diagnostic/system_collector_freebsd.go";
  old = codes "//go:build linux";
  new = codes "//go:build freebsd";
}

abbrev pub stubs : List Stub
stubs = collector ∷ system_collector ∷ []

-- t.replace(old, new, 1)
unfoldable pub replace_first : Text → Text → Text → Text
replace_first old new [] = if is_nil old then new else []
replace_first old new (c ∷ t) =
    let rest = c ∷ replace_first old new t in
    if starts_with old (c ∷ t) then new ++ drop (length old) (c ∷ t) else rest

abbrev ends_in_slash : Text → Bool
ends_in_slash [] = true
ends_in_slash (c ∷ []) = c == b'/'
ends_in_slash (c ∷ (d ∷ t)) = ends_in_slash (d ∷ t)

-- os.path.join(root, path), for a relative path
abbrev pub join_path : Text → Text → Text
join_path root path = if ends_in_slash root then root ++ path else root ++ (b'/' ∷ path)

-- sys.argv[1] if len(sys.argv) > 1 else "."
abbrev pub root_of : List Text → Text
root_of [] = codes "."
root_of (root ∷ more) = root

-- f.read()
abbrev pub text_in : Option Content → Result Text
text_in (some (plain t)) = ok t
text_in _ = raise os_error

abbrev pub after_print : Text → Result (List Text) × Files → Result (List Text) × Files
after_print line (ok lines, fs) = (ok (line ∷ lines), fs)
after_print line (raise e, fs) = (raise e, fs)

abbrev pub with_text :
    Result Text → Files → (Text → Result (List Text) × Files) → Result (List Text) × Files
with_text (raise e) fs f = (raise e, fs)
with_text (ok t) fs f = f t

-- The loop and the last line: what is printed by a run that ends, and the files.
unfoldable pub apply_stubs : Text → List Stub → Files → Result (List Text) × Files
unfolding replace_first
apply_stubs root [] fs = (ok (codes "FreeBSD stubs applied." ∷ []), fs)
apply_stubs root (s ∷ more) fs = with_text (text_in (read (join_path root s.src) fs)) fs (λ content.
    after_print (codes "  " ++ s.dst) (
      apply_stubs root more
        (write (join_path root s.dst) (plain (replace_first s.old s.new content)) fs)))

unfoldable pub stubs_main : List Text → Files → Result (List Text) × Files
unfolding apply_stubs
stubs_main argv fs = apply_stubs (root_of argv) stubs fs
