-- ===== src/Files/Laws.antt =====
-- What a read finds after each operation on files.
use cf_masque_opnsense.Prelude.{
  ℕ, ◌≡◌, Option, none, some, arith, if◌then◌else◌, Option-cases, inl, inr,
}
use cf_masque_opnsense.Text.{Text, text_eq}
use cf_masque_opnsense.Text.Equality.{text_eq_iff, text_eq_refl}
use cf_masque_opnsense.Dict.{lookup, lookup-insert, lookup-remove}
use cf_masque_opnsense.Files.{
  Content, File, Files, read, mode_of, write, chmod, replace, unlink, write_private,
}

pub lookup-write :
    (p q : Text) (c : Content) (fs : Files)
    → lookup q (write p c fs) ≡ (
        if text_eq p q
        then some (record { content = c; mode = mode_of (lookup p fs) })
        else lookup q fs)
unfolding write
lookup-write p q c fs = lookup-insert p q _ fs

pub lookup-unlink :
    (p q : Text) (fs : Files) → lookup q (unlink p fs) ≡ (if text_eq p q then none else lookup q fs)
unfolding unlink
lookup-unlink p q fs = lookup-remove p q fs

abbrev with_mode : ℕ → Option File → Option File
with_mode m none = none
with_mode m (some f) = some (record { content = f.content; mode = m })

pub lookup-chmod :
    (p q : Text) (m : ℕ) (fs : Files)
    → lookup q (chmod p m fs) ≡ (if text_eq p q then with_mode m (lookup q fs) else lookup q fs)
unfolding chmod
lookup-chmod p q m fs = elim (Option-cases (lookup p fs)) [
  | inl e ↦ rw (e, chmod) (ground (arith, text_eq_iff p q))
  | inr (f, e) ↦ rw (e, chmod) (rw lookup-insert (ground (arith, text_eq_iff p q)))
]

pub lookup-replace :
    (src dst q : Text) (fs : Files) {f : File}
    → lookup src fs ≡ some f
    → lookup q (replace src dst fs)
      ≡ (if text_eq dst q then some f else if text_eq src q then none else lookup q fs)
unfolding replace
lookup-replace src dst q fs e = rw (e, replace) (rw (lookup-insert, lookup-remove))

-- The new content stands under `path` with mode 0600, `tmp` is gone, other files are as before.
pub lookup-write_private :
    (tmp path q : Text) (c : Content) (fs : Files)
    → lookup q (write_private tmp path c fs) ≡ (
        if text_eq path q
        then some (record { content = c; mode = 0o600 })
        else if text_eq tmp q
        then none
        else lookup q fs)
unfolding write_private
lookup-write_private tmp path q c fs =
    rw (lookup-replace tmp path q _ {f = record { content = c; mode = 0o600 }} staged)
      (rw (lookup-chmod, lookup-write) (ground (arith, text_eq_iff path q, text_eq_iff tmp q)))
  where
    staged :
        lookup tmp (chmod tmp 0o600 (write tmp c fs)) ≡ some (record { content = c; mode = 0o600 })
    staged = rw (lookup-chmod, lookup-write, text_eq_refl)

pub read-write_private :
    (tmp path q : Text) (c : Content) (fs : Files)
    → read q (write_private tmp path c fs)
      ≡ (if text_eq path q then some c else if text_eq tmp q then none else read q fs)
unfolding read
read-write_private tmp path q c fs = ground (arith, lookup-write_private tmp path q c fs)

pub read-unlink_self : (p : Text) (fs : Files) → read p (unlink p fs) ≡ none
unfolding read
read-unlink_self p fs = rw (lookup-unlink p p fs, read, text_eq_refl)

pub read-write :
    (p q : Text) (c : Content) (fs : Files)
    → read q (write p c fs) ≡ (if text_eq p q then some c else read q fs)
unfolding read
read-write p q c fs = ground (arith, lookup-write p q c fs)

pub read-chmod : (p q : Text) (m : ℕ) (fs : Files) → read q (chmod p m fs) ≡ read q fs
unfolding read
read-chmod p q m fs = ground (arith, lookup-chmod p q m fs)

pub read-unlink :
    (p q : Text) (fs : Files) → read q (unlink p fs) ≡ (if text_eq p q then none else read q fs)
unfolding read
read-unlink p q fs = ground (arith, lookup-unlink p q fs)

-- A file that is written beside its target and renamed over it.
pub read-staged :
    (tmp path q : Text) (c : Content) (fs : Files)
    → read q (replace tmp path (write tmp c fs))
      ≡ (if text_eq path q then some c else if text_eq tmp q then none else read q fs)
unfolding read
read-staged tmp path q c fs = ground (
  arith,
  lookup-replace tmp path q (write tmp c fs)
      {f = record { content = c; mode = mode_of (lookup tmp fs) }}
      (rw (lookup-write, text_eq_refl)),
  lookup-write tmp q c fs,
)
