-- ===== src/Update/Reading.antt =====
-- The connections that the reader finds after an update.
use cf_masque_opnsense.Prelude.{
  ◌≡◌, refl, Bool, true, false, not, ◌&&◌, Option, none, some, List, [], ◌∷◌, arith, if◌then◌else◌,
  is_nil, Bool-cases, inl, inr,
}
use cf_masque_opnsense.Text.{Text, codes, text_eq}
use cf_masque_opnsense.Text.Equality.{text_eq_iff, text_eq→eq}
use cf_masque_opnsense.Dict.{Dict, lookup, insert, lookup-insert}
use cf_masque_opnsense.Outcome.{Result, ok, >>=-eq-ok}
use cf_masque_opnsense.Config.{uuid_of, read_all}
use cf_masque_opnsense.Config.Xml.{
  Element, Elements, element, nil, cons, tag, attributes, find_all_in,
}
use cf_masque_opnsense.Update.{update_element, is_connection, update_first, prepend}

abbrev pub absent : Text → List Element → Bool
absent u [] = true
absent u (e ∷ es) = not (text_eq (uuid_of e) u) && absent u es

-- Exactly one element has the uuid.
abbrev pub once : Text → List Element → Bool
once u [] = false
once u (e ∷ es) = let rest = once u es in if text_eq (uuid_of e) u then absent u es else rest

module _ (u : Text) (ups : Dict Text) where
  -- The first element with the uuid updated.
  abbrev pub update_list : List Element → List Element
  update_list [] = []
  update_list (e ∷ es) =
      let rest = e ∷ update_list es in
      if text_eq (uuid_of e) u then update_element ups e ∷ es else rest

  same_uuid : (e : Element) → uuid_of (update_element ups e) ≡ uuid_of e
  unfolding uuid_of update_element attributes
  same_uuid (element t a x cs) = refl

  same_tag : (e : Element) → tag (update_element ups e) ≡ tag e
  unfolding tag update_element
  same_tag (element t a x cs) = refl

  abbrev Listed : Elements → Option Elements → Type 0
  Listed es none = Unit
  Listed es (some es') =
      find_all_in (codes "connection") es' ≡ update_list (find_all_in (codes "connection") es)

  prepend-Listed :
      (e : Element) (es : Elements) (o : Option Elements)
      → is_connection u e ≡ false
      → Listed es o
      → Listed (cons e es) (prepend e o)
  unfolding find_all_in is_connection
  prepend-Listed e es none b h = tt
  prepend-Listed e es (some es') b h = ground arith

  both :
      (e : Element)
      → is_connection u e ≡ true
      → (text_eq (tag e) (codes "connection") ≡ true) × (text_eq (uuid_of e) u ≡ true)
  unfolding is_connection
  both e b = ground arith

  update_first-Listed : (es : Elements) → Listed es (update_first u ups es)
  unfolding update_first find_all_in
  update_first-Listed nil = tt
  update_first-Listed (cons e es) = elim (Bool-cases (is_connection u e)) [
    | inl b ↦ let (t, n) = both e b in rw (b, same_tag e, t, n) refl
    | inr b ↦ rw b (prepend-Listed e es (update_first u ups es) b (update_first-Listed es))
  ]

  pub find_all-update_first :
      (es es' : Elements)
      → update_first u ups es ≡ some es'
      → find_all_in (codes "connection") es' ≡ update_list (find_all_in (codes "connection") es)
  find_all-update_first es es' h = let s = update_first-Listed es in rw h at s

  module _ {A : Type 0} (read : Element → Result A) (g : A → A) where
    abbrev through : Option A → Option A
    through none = none
    through (some a) = some (g a)

    -- The dict after the update, key by key.
    abbrev pub Changed : Dict A → Dict A → Type 0
    Changed m m' =
        (v : Text) → lookup v m' ≡ (if text_eq u v then through (lookup v m) else lookup v m)

    insert-Changed :
        (k : Text) (a : A) (m m' : Dict A)
        → text_eq k u ≡ false
        → Changed m m'
        → Changed (insert k a m) (insert k a m')
    insert-Changed k a m m' n h v =
        rw (lookup-insert, lookup-insert, h v)
          (ground (arith, text_eq_iff k u, text_eq_iff k v, text_eq_iff u v))

    insert_first-Changed : (a : A) (m : Dict A) → Changed (insert u a m) (insert u (g a) m)
    insert_first-Changed a m v = rw (lookup-insert, lookup-insert) (ground arith)

    absent-Changed :
        (es : List Element) (d d' m : Dict A)
        → absent u es ≡ true
        → Changed d d'
        → read_all read es d ≡ ok m
        → (m' : Dict A) × (read_all read es d' ≡ ok m') × Changed m m'
    unfolding read_all
    absent-Changed [] d d' m n c h = let p : d ≡ m = cc in (d', refl, rw (← p) c)
    absent-Changed (e ∷ es) d d' m n c h = elim (Bool-cases (is_nil (uuid_of e))) [
      | inl b ↦ rw b (absent-Changed es d d' m (ground arith) c (rw b at h))
      | inr b ↦
          let (a, p, q) =
            >>=-eq-ok (read e) (λ x. read_all read es (insert (uuid_of e) x d)) (rw b at h) in
          rw (b, p)
            (absent-Changed es (insert (uuid_of e) a d) (insert (uuid_of e) a d') m (ground arith)
              (insert-Changed (uuid_of e) a d d' (ground arith) c) q)
    ]

    -- The dict that is read from the updated list, where the uuid stands on one element and what
    -- that element reads as changes by `g`.
    pub once-Changed :
        (es : List Element) (d m : Dict A)
        → is_nil u ≡ false
        → once u es ≡ true
        → ((e : Element) (a : A) → read e ≡ ok a → read (update_element ups e) ≡ ok (g a))
        → read_all read es d ≡ ok m
        → (m' : Dict A) × (read_all read (update_list es) d ≡ ok m') × Changed m m'
    unfolding read_all
    once-Changed [] d m z n r h = cc
    once-Changed (e ∷ es) d m z n r h = elim (Bool-cases (text_eq (uuid_of e) u)) [
      | inl t ↦
          let same : uuid_of e ≡ u = text_eq→eq (uuid_of e) u t in
          let b : is_nil (uuid_of e) ≡ false = rw same z in
          let (a, p, q) =
            >>=-eq-ok (read e) (λ x. read_all read es (insert (uuid_of e) x d)) (rw b at h) in
          rw (t, same_uuid e, b, r e a p, same)
            (absent-Changed es (insert u a d) (insert u (g a) d) m (rw t at n)
              (insert_first-Changed a d) (rw same at q))
      | inr t ↦ elim (Bool-cases (is_nil (uuid_of e))) [
        | inl b ↦ rw (t, b) (once-Changed es d m z (rw t at n) r (rw b at h))
        | inr b ↦
            let (a, p, q) =
              >>=-eq-ok (read e) (λ x. read_all read es (insert (uuid_of e) x d)) (rw b at h) in
            rw (t, b, p) (once-Changed es (insert (uuid_of e) a d) m z (rw t at n) r q)
      ]
    ]
