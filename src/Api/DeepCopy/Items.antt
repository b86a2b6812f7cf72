-- ===== src/Api/DeepCopy/Items.antt =====
-- pkg/apis/apheleia/v1alpha1/zz_generated.deepcopy.go: the copies of the items of a
-- ComponentBuildList.
use mathlib.Core.List.{append_assoc, map}
use apheleia.Base.{
  ℕ, suc, ◌≤◌, ◌<◌, ◌≡◌, refl, ◌∙◌, ap, Option, none, some, List, [], ◌∷◌, ◌++◌, All, OptionAll,
  length, arith,
}
use apheleia.Base.Cells.{at, put, replicate, at_last, put_last, at-append, length-append}
use apheleia.Api.DeepCopy.{
  Machinery, Store, Reference, Build, zero_build, build_deep_copy_into, copy_items, copy_builds,
}
use apheleia.Api.DeepCopy.Builds.{
  BuildView, CopiesMeta, view_of, IsStored, HasGrown, HasGrown-refl, HasGrown-trans,
  view_of-HasGrown, IsStored-HasGrown, IsCopy, build_deep_copy_into-IsCopy,
}

module _ (L : Machinery) (K : CopiesMeta L) where
  -- The copies of some ComponentBuilds, from the memory before to that after.
  record AreCopied (h h' : Store L) (items copies : List (Build L)) : Type 0 where
    pub grown : HasGrown L K h h'
    pub same : map (view_of L K h') copies ≡ map (view_of L K h) items

  map-view_of :
      (h h' : Store L) (items : List (Build L))
      → HasGrown L K h h'
      → All (IsStored L K h) items
      → map (view_of L K h') items ≡ map (view_of L K h) items
  map-view_of h h' [] g s = refl
  map-view_of h h' (x ∷ items) g (s, ss) =
      rw (view_of-HasGrown L K h h' x g s, map-view_of h h' items g ss) refl

  All-IsStored :
      (h h' : Store L) (items : List (Build L))
      → HasGrown L K h h'
      → All (IsStored L K h) items
      → All (IsStored L K h') items
  All-IsStored h h' [] g s = tt
  All-IsStored h h' (x ∷ items) g (s, ss) =
      (IsStored-HasGrown L K h h' x g s, All-IsStored h h' items g ss)

  -- The array after the loop has written one more copy.
  written :
      (cells builds : List (List (Build L))) (front zeros : List (Build L)) (z y : Build L)
      → builds ≡ cells ++ ((front ++ (z ∷ zeros)) ∷ [])
      → put (length cells) (put (length front) y (at [] (length cells) builds)) builds
        ≡ cells ++ (((front ++ (y ∷ [])) ++ zeros) ∷ [])
  written cells builds front zeros z y e =
      rw
        (
          e,
          at_last [] (front ++ (z ∷ zeros)) cells [],
          put_last z y front zeros,
          put_last (front ++ (z ∷ zeros)) (front ++ (y ∷ zeros)) cells [],
          append_assoc front (y ∷ []) zeros,
        )
        refl

  -- One copy, and those of the rest.
  more_copied :
      (h h1 h2 h' : Store L) (x y : Build L) (items copies : List (Build L))
      → IsStored L K h x
      → All (IsStored L K h) items
      → IsCopy L K h h1 x y
      → HasGrown L K h1 h2
      → AreCopied h2 h' items copies
      → AreCopied h h' (x ∷ items) (y ∷ copies)
  more_copied h h1 h2 h' x y items copies s ss c g r =
      let late = HasGrown-trans L K h1 h2 h' g r.grown in
      let early = HasGrown-trans L K h h1 h2 c.grown g in
      record {
        grown = HasGrown-trans L K h h2 h' early r.grown;
        same =
            rw
              (
                view_of-HasGrown L K h1 h' y late c.stored,
                c.same,
                r.same,
                map-view_of h h2 items early ss,
              )
              refl;
      }

  -- The loop, when it has written `front`: what is left of the array gets the copies of the items.
  copy_items_lem :
      (items front : List (Build L)) (i : ℕ) (cells : List (List (Build L))) (h : Store L)
      → length front ≡ i
      → All (IsStored L K h) items
      → h.builds ≡ cells ++ ((front ++ replicate (length items) (zero_build L)) ∷ [])
      → (copies : List (Build L)) × ((copy_items L (length cells) i items h).builds
          ≡ cells ++ ((front ++ copies) ∷ []))
        × AreCopied h (copy_items L (length cells) i items h) items copies
  unfolding copy_items
  copy_items_lem [] front i cells h n s e =
      ([], e, record { grown = HasGrown-refl L K h h.builds; same = refl })
  copy_items_lem (x ∷ items) front i cells h n (s, ss) e =
      let c = build_deep_copy_into-IsCopy L K x h s in
      let y = (build_deep_copy_into L x h).0 in
      let h1 : Store L = (build_deep_copy_into L x h).1 in
      let h2 : Store L = record h1 {
        builds = put (length cells) (put i y (at [] (length cells) h1.builds)) h1.builds;
      } in
      let g : HasGrown L K h1 h2 = HasGrown-refl L K h1 h2.builds in
      let now : h2.builds
          ≡ cells ++ (((front ++ (y ∷ [])) ++ replicate (length items) (zero_build L)) ∷ []) =
        rw (← n) (written cells h1.builds front _ (zero_build L) y (c.builds ∙ e)) in
      let (copies, e', r) =
        copy_items_lem items (front ++ (y ∷ [])) (suc i) cells h2
          (omega (arith, length-append front (y ∷ []), n))
          (All-IsStored h h2 items (HasGrown-trans L K h h1 h2 c.grown g) ss) now in
      (
        y ∷ copies,
        e' ∙ ap (λ xs. cells ++ (xs ∷ [])) (append_assoc front (y ∷ []) copies),
        more_copied h h1 h2 _ x y items copies s ss c g r,
      )

  -- What a reference to an array of ComponentBuilds shows.
  abbrev pub items_of : Store L → Reference → Option (List (BuildView L K))
  items_of h none = none
  items_of h (some a) = some (map (view_of L K h) (at [] a h.builds))

  -- It is to memory, and so are the references of the ComponentBuilds there.
  abbrev pub AreStored : Store L → Reference → Type 0
  AreStored h = OptionAll (λ a. (a < length h.builds) × All (IsStored L K h) (at [] a h.builds))

  -- `copied` refers to an array of its own, and shows what `r` has shown and still shows.
  pub record AreCopiedItems (h h' : Store L) (r copied : Reference) : Type 0 where
    pub grown : HasGrown L K h h'
    pub same : items_of h' copied ≡ items_of h r
    pub kept : items_of h' r ≡ items_of h r
    pub new : OptionAll (λ a. length h.builds ≤ a) copied

  pub copy_builds_lem :
      (r : Reference) (h : Store L)
      → AreStored h r
      → AreCopiedItems h (copy_builds L r h).1 r (copy_builds L r h).0
  unfolding copy_builds
  copy_builds_lem none h s = record {
    grown = HasGrown-refl L K h h.builds;
    same = refl;
    kept = refl;
    new = tt;
  }
  copy_builds_lem (some a) h (i, s) =
      let items = at [] a h.builds in
      let h1 : Store L = record h {
        builds = h.builds ++ (replicate (length items) (zero_build L) ∷ []);
      } in
      let g : HasGrown L K h h1 = HasGrown-refl L K h h1.builds in
      let (copies, e, r) =
        copy_items_lem items [] 0 h.builds h1 refl (All-IsStored h h1 items g s) refl in
      let grown = HasGrown-trans L K h h1 _ g r.grown in
      record {
        grown = grown;
        same = rw (e, at_last [] copies h.builds [], r.same, map-view_of h h1 items g s) refl;
        kept = rw (e, at-append [] a h.builds (copies ∷ []) i, map-view_of h _ items grown s) refl;
        new = omega arith;
      }
