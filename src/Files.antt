-- ===== src/Files.antt =====
-- The files that the scripts read and write: a map from paths to contents with their modes.
-- Directories are not modelled. A file made by `open(path, 'w')` has mode 0644 until `os.chmod`;
-- one that is there keeps its mode.
pub mod Laws
use cf_masque_opnsense.Prelude.{
  ℕ, ℤ, Bool, true, false, Option, none, some, List, [], ◌∷◌, if◌then◌else◌,
}
use cf_masque_opnsense.Text.{Text}
use cf_masque_opnsense.Dict.{Dict, lookup, insert, remove, has}
use cf_masque_opnsense.Config.Xml.{Element}

-- A value of a JSON file that the scripts write.
pub data Value : Type 0 where
  str : Text → Value
  int : ℤ → Value
  bool : Bool → Value

pub data Content : Type 0 where
  -- characters or bytes
  plain : List ℕ → Content
  -- a JSON object
  object : Dict Value → Content
  -- an XML document
  xml : Element → Content

pub record File : Type 0 where
  pub content : Content
  pub mode : ℕ

abbrev pub Files : Type 0
Files = Dict File

abbrev pub mode_of : Option File → ℕ
mode_of none = 0o644
mode_of (some f) = f.mode

-- open(path).read(); `none` is the FileNotFoundError.
unfoldable pub read : Text → Files → Option Content
read path fs = elim (lookup path fs) [ none ↦ none | some f ↦ some f.content ]

unfoldable pub mode_at : Text → Files → Option ℕ
mode_at path fs = elim (lookup path fs) [ none ↦ none | some f ↦ some f.mode ]

-- with open(path, 'w') as f: f.write(content)
unfoldable pub write : Text → Content → Files → Files
write path c fs = insert path (record { content = c; mode = mode_of (lookup path fs) }) fs

-- os.chmod(path, mode)
unfoldable pub chmod : Text → ℕ → Files → Files
chmod path m fs = elim (lookup path fs) [
  | none ↦ fs
  | some f ↦ insert path (record { content = f.content; mode = m }) fs
]

-- os.replace(src, dst)
unfoldable pub replace : Text → Text → Files → Files
replace src dst fs = elim (lookup src fs) [ none ↦ fs | some f ↦ insert dst f (remove src fs) ]

-- os.unlink(path), with the FileNotFoundError caught.
unfoldable pub unlink : Text → Files → Files
unlink path fs = remove path fs

-- The way the scripts replace a private file: write beside it, make it private, rename it.
unfoldable pub write_private : Text → Text → Content → Files → Files
write_private tmp path c fs = replace tmp path (chmod tmp 0o600 (write tmp c fs))
