-- ===== src/Update/Document.antt =====
-- An update seen through the reader: the CloudflareZT node and its connections.
use cf_masque_opnsense.Prelude.{
  ◌≡◌, refl, sym, ◌∙◌, true, false, Option, none, some, Bool-cases, Option-cases, inl, inr,
}
use cf_masque_opnsense.Text.{Text, codes, text_eq}
use cf_masque_opnsense.Text.Equality.{text_eq→eq}
use cf_masque_opnsense.Dict.{Dict}
use cf_masque_opnsense.Outcome.{Result, ok, raise}
use cf_masque_opnsense.Config.Xml.{
  Element, Elements, element, nil, cons, tag, children, find_in, find_below, find_below_in, or_else,
}
use cf_masque_opnsense.Update.{
  update_first, update_connections, update_section, update_below, update_below_in,
  is_section_parent, has_section, rebuild, not_found, prepend_r, replace_head, map_rebuild,
}

abbrev zt_tag : Text
zt_tag = codes "CloudflareZT"

abbrev pub section_tag : Text
section_tag = codes "connections"

or_else-none : {A : Type 0} (x y : Option A) → or_else x y ≡ none → (x ≡ none) × (y ≡ none)
or_else-none none y h = (refl, h)
or_else-none (some a) y h = cc

module _ (u : Text) (ups : Dict Text) where
  -- The children of `section` were updated to those of its successor, and no other child of the
  -- node was touched.
  pub record NodeUpdated (cs : Elements) (section : Element) (cs' : Elements) : Type 0 where
    pub section' : Element
    pub there : find_in section_tag cs' ≡ some section'
    pub same_tag : tag section' ≡ section_tag
    pub updated : update_first u ups (children section) ≡ some (children section')
    pub others : (t : Text) → text_eq section_tag t ≡ false → find_in t cs' ≡ find_in t cs

  connections-ok :
      (e e' : Element)
      → update_connections u ups e ≡ ok e'
      → (tag e' ≡ tag e) × (update_first u ups (children e) ≡ some (children e'))
  unfolding update_connections tag children
  connections-ok (element t a x cs) e' h = from (update_first u ups cs) refl h
    where
      from :
          (o : Option Elements)
          → o ≡ update_first u ups cs
          → rebuild t a x (not_found u o) ≡ ok e'
          → (tag e' ≡ t) × (update_first u ups cs ≡ some (children e'))
      from none q k = cc
      from (some es) q k = let p : element t a x es ≡ e' = cc in rw (← p) (refl, sym q)

  here-NodeUpdated :
      (e e' : Element) (es : Elements)
      → text_eq (tag e) section_tag ≡ true
      → (tag e' ≡ tag e) × (update_first u ups (children e) ≡ some (children e'))
      → NodeUpdated (cons e es) e (cons e' es)
  unfolding find_in
  here-NodeUpdated e e' es b (t, n) =
      let same : tag e ≡ section_tag = text_eq→eq (tag e) section_tag b in
      record {
        section' = e';
        there = rw (t, b) refl;
        same_tag = t ∙ same;
        updated = n;
        others = λ k h. rw (t, same, h) refl;
      }

  later-NodeUpdated :
      (e section : Element) (es es' : Elements)
      → text_eq (tag e) section_tag ≡ false
      → NodeUpdated es section es'
      → NodeUpdated (cons e es) section (cons e es')
  unfolding find_in
  later-NodeUpdated e section es es' b n = record {
    section' = n.section';
    there = rw b n.there;
    same_tag = n.same_tag;
    updated = n.updated;
    others = λ k h. rw (n.others k h) refl;
  }

  section-NodeUpdated :
      (cs : Elements) (section : Element) (cs' : Elements)
      → find_in section_tag cs ≡ some section
      → update_section u ups cs ≡ ok cs'
      → NodeUpdated cs section cs'
  unfolding update_section find_in
  section-NodeUpdated nil section cs' f h = cc
  section-NodeUpdated (cons e es) section cs' f h =
      elim (Bool-cases (text_eq (tag e) section_tag)) [
        | inl b ↦ here b (update_connections u ups e) refl (rw b at f) (rw b at h)
        | inr b ↦
            later b (update_section u ups es) (section-NodeUpdated es section) refl (rw b at f)
              (rw b at h)
      ]
    where
      here :
          text_eq (tag e) section_tag ≡ true
          → (r : Result Element) → r ≡ update_connections u ups e
          → some e ≡ some section
          → replace_head es r ≡ ok cs'
          → NodeUpdated (cons e es) section cs'
      here b (raise x) q g k = cc
      here b (ok e') q g k =
          let p : e ≡ section = cc in
          let l : cons e' es ≡ cs' = cc in
          rw (← p, ← l) (here-NodeUpdated e e' es b (connections-ok e e' (sym q)))

      later :
          text_eq (tag e) section_tag ≡ false
          → (r : Result Elements)
          → ((es' : Elements)
              → find_in section_tag es ≡ some section
              → update_section u ups es ≡ ok es'
              → NodeUpdated es section es')
          → r ≡ update_section u ups es
          → find_in section_tag es ≡ some section
          → prepend_r e r ≡ ok cs'
          → NodeUpdated (cons e es) section cs'
      later b (raise x) ih q g k = cc
      later b (ok es') ih q g k =
          let l : cons e es' ≡ cs' = cc in
          rw (← l) (later-NodeUpdated e section es es' b (ih es' g (sym q)))

  -- The first CloudflareZT node below, after the update.
  pub record Found (zt section : Element) (o : Option Element) : Type 0 where
    pub zt' : Element
    pub found : o ≡ some zt'
    pub node : NodeUpdated (children zt) section (children zt')

  -- Where there is no CloudflareZT node there is nothing to update.
  mutual
    unfolding find_below update_below is_section_parent tag

    nothing_below : (e : Element) → find_below zt_tag e ≡ none → update_below u ups e ≡ none
    nothing_below (element t a x cs) h = rw (nothing_below_in cs h) refl

    nothing_below_in :
        (cs : Elements) → find_below_in zt_tag cs ≡ none → update_below_in u ups cs ≡ none
    nothing_below_in nil h = refl
    nothing_below_in (cons (element t a x ds) es) h = elim (Bool-cases (text_eq t zt_tag)) [
      | inl b ↦ let k = rw b at h in cc
      | inr b ↦
          let (p, q) = or_else-none _ _ (rw b at h) in
          rw (b, nothing_below_in ds p, nothing_below_in es q) refl
    ]

  -- The update got through to the node, if it returns.
  abbrev Through : Text → Element → Element → Option (Result Element) → Type 0
  Through t zt section o =
      (r : Result Element) × (o ≡ some r)
      × ((e' : Element) → r ≡ ok e' → (tag e' ≡ t) × Found zt section (find_below zt_tag e'))

  abbrev ThroughIn : Element → Element → Option (Result Elements) → Type 0
  ThroughIn zt section o =
      (r : Result Elements) × (o ≡ some r)
      × ((es' : Elements) → r ≡ ok es' → Found zt section (find_below_in zt_tag es'))

  module _ (t : Text) (a : Dict Text) (x : Text) where
    rebuilt :
        (zt section : Element) (r : Result Elements)
        → ((es' : Elements) → r ≡ ok es' → Found zt section (find_below_in zt_tag es'))
        → (e' : Element) → rebuild t a x r ≡ ok e'
        → (tag e' ≡ t) × Found zt section (find_below zt_tag e')
    unfolding find_below tag
    rebuilt zt section (raise y) f e' h = cc
    rebuilt zt section (ok es') f e' h =
        let p : element t a x es' ≡ e' = cc in rw (← p) (refl, f es' refl)

    Through-below :
        (zt section : Element) (o : Option (Result Elements))
        → ThroughIn zt section o
        → Through t zt section (map_rebuild t a x o)
    Through-below zt section o (r, p, f) = (rebuild t a x r, rw p refl, rebuilt zt section r f)

    -- At the node itself.
    at_node :
        (ds es : Elements) (section : Element)
        → text_eq t zt_tag ≡ true
        → find_in section_tag ds ≡ some section
        → (r : Result Elements) → r ≡ update_section u ups ds
        → (es' : Elements) → replace_head es (rebuild t a x r) ≡ ok es'
        → Found (element t a x ds) section (find_below_in zt_tag es')
    unfolding find_below tag children
    at_node ds es section b k (raise y) q es' h = cc
    at_node ds es section b k (ok ds') q es' h =
        let p : cons (element t a x ds') es ≡ es' = cc in
        rw (← p) (record {
          zt' = element t a x ds';
          found = rw b refl;
          node = section-NodeUpdated ds section ds' k (sym q);
        })

    -- Inside the first child.
    inside :
        (es : Elements) (zt section : Element)
        → text_eq t zt_tag ≡ false
        → (r : Result Element)
        → ((e' : Element) → r ≡ ok e' → (tag e' ≡ t) × Found zt section (find_below zt_tag e'))
        → (es' : Elements) → replace_head es r ≡ ok es'
        → Found zt section (find_below_in zt_tag es')
    unfolding find_below
    inside es zt section b (raise y) f es' h = cc
    inside es zt section b (ok e') f es' h =
        let p : cons e' es ≡ es' = cc in
        let (same, n) = f e' refl in
        rw (← p) (record { zt' = n.zt'; found = rw (same, b, n.found) refl; node = n.node })

    -- After the first child.
    after :
        (ds : Elements) (zt section : Element)
        → text_eq t zt_tag ≡ false
        → find_below_in zt_tag ds ≡ none
        → (r : Result Elements)
        → ((es' : Elements) → r ≡ ok es' → Found zt section (find_below_in zt_tag es'))
        → (es' : Elements) → prepend_r (element t a x ds) r ≡ ok es'
        → Found zt section (find_below_in zt_tag es')
    unfolding find_below tag
    after ds zt section b e (raise y) f es' h = cc
    after ds zt section b e (ok es2) f es' h =
        let p : cons (element t a x ds) es2 ≡ es' = cc in
        let n = f es2 refl in
        rw (← p) (record { zt' = n.zt'; found = rw (b, e, n.found) refl; node = n.node })

    has_section-some :
        (ds : Elements) (section : Element)
        → find_in section_tag ds ≡ some section
        → has_section ds ≡ true
    has_section-some ds section h = rw (h, has_section) refl

  updated_below_in :
      (cs : Elements) (zt section : Element)
      → find_below_in zt_tag cs ≡ some zt
      → find_in section_tag (children zt) ≡ some section
      → ThroughIn zt section (update_below_in u ups cs)
  unfolding find_below update_below is_section_parent tag children
  updated_below_in nil zt section h k = cc
  updated_below_in (cons (element t a x ds) es) zt section h k =
      elim (Bool-cases (text_eq t zt_tag)) [
        | inl b ↦
            let p : element t a x ds ≡ zt = (let h' = rw b at h in cc) in
            let k' : find_in section_tag ds ≡ some section = rw (← p) at k in
            rw (b, has_section-some t a x ds section k', ← p)
              (_, refl, at_node t a x ds es section b k' (update_section u ups ds) refl)
        | inr b ↦ elim (Option-cases (find_below_in zt_tag ds)) [
          | inl e ↦
              let (r, q, f) = updated_below_in es zt section (rw (b, e) at h) k in
              rw (b, nothing_below_in ds e, q) (_, refl, after t a x ds zt section b e r f)
          | inr (y, e) ↦
              let h' = rw (b, e) at h in
              let g : find_below_in zt_tag ds ≡ some zt = (e ∙ h') in
              let (r, q, f) =
                Through-below t a x zt section _ (updated_below_in ds zt section g k) in
              rw (b, q) (_, refl, inside t a x es zt section b r f)
        ]
      ]

  -- The CloudflareZT node of an updated document.
  pub updated_root-Found :
      (root root' zt section : Element)
      → find_below zt_tag root ≡ some zt
      → find_in section_tag (children zt) ≡ some section
      → update_below u ups root ≡ some (ok root')
      → Found zt section (find_below zt_tag root')
  unfolding find_below update_below
  updated_root-Found (element t a x cs) root' zt section h k q =
      let (r, p, f) = Through-below t a x zt section _ (updated_below_in cs zt section h k) in
      let e : r ≡ ok root' = (let p' = p in cc) in (f root' e).1
