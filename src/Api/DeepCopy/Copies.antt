-- ===== src/Api/DeepCopy/Copies.antt =====
-- pkg/apis/apheleia/v1alpha1/zz_generated.deepcopy.go: a copy has the same content, in memory of
-- its own.
use mathlib.Core.List.{append-nil, append_assoc}
use apheleia.Base.{
  ℕ, ◌≤◌, ◌<◌, String, ◌≡◌, refl, ap, ◌≢◌, Option, none, some, List, [], ◌∷◌, ◌++◌, All, OptionAll,
  length, arith,
}
use apheleia.Base.Cells.{
  at, replicate, length-append, at-append, at_last, put_last, Grows, Grows-refl, Grows-append,
}
use apheleia.Base.Dict.{Dict, insert-fresh}
use apheleia.Api.{ArtifactState}
use apheleia.Api.DeepCopy.{Machinery, Store, Reference, copy_strings, assign_each, copy_states}

-- No entry has a key of one before it, which are those of `front` at first.
abbrev pub HasNewKeys : Dict ArtifactState → Dict ArtifactState → Type 0
HasNewKeys front [] = Unit
HasNewKeys front ((k, v) ∷ m) = All (λ (j, _). j ≢ k) front × HasNewKeys (front ++ ((k, v) ∷ [])) m

assign_each_lem :
    (cells : List (Dict ArtifactState)) (front m : Dict ArtifactState)
    → HasNewKeys front m
    → assign_each (length cells) m (cells ++ (front ∷ [])) ≡ cells ++ ((front ++ m) ∷ [])
unfolding assign_each
assign_each_lem cells front [] h = rw (append-nil front) refl
assign_each_lem cells front ((k, v) ∷ m) (h, hs) =
    rw
      (
        at_last [] front cells [],
        insert-fresh k v front h,
        put_last front (front ++ ((k, v) ∷ [])) cells [],
        ← append_assoc front ((k, v) ∷ []) m,
      )
      (assign_each_lem cells (front ++ ((k, v) ∷ [])) m hs)

-- What a reference shows: the content of its cell, or nil.
abbrev pub seen : {A : Type 0} → List (List A) → Reference → Option (List A)
seen cells none = none
seen cells (some a) = some (at [] a cells)

-- A reference is to a cell of the memory, and its content has the property.
abbrev pub InCells : {A : Type 0} → (List A → Type 0) → List (List A) → Reference → Type 0
InCells Q cells = OptionAll (λ a. (a < length cells) × Q (at [] a cells))

module _ {A : Type 0} (Q : List A → Type 0) where
  -- A copy of a reference: a new cell with the same content.
  pub record IsCopied (before after : List (List A)) (r copied : Reference) : Type 0 where
    pub grows : Grows [] before after
    pub stored : InCells Q after copied
    pub same : seen after copied ≡ seen before r
    pub new : OptionAll (λ a. length before ≤ a) copied

  IsCopied-none : (cells : List (List A)) → IsCopied cells cells none none
  IsCopied-none cells = record { grows = Grows-refl [] cells; stored = tt; same = refl; new = tt }

  IsCopied-some :
      (cells : List (List A)) (a : ℕ)
      → Q (at [] a cells)
      → IsCopied cells (cells ++ (at [] a cells ∷ [])) (some a) (some (length cells))
  IsCopied-some cells a q =
      let last : at [] (length cells) (cells ++ (at [] a cells ∷ [])) ≡ at [] a cells =
        at_last [] (at [] a cells) cells [] in
      record {
        grows = Grows-append [] cells _;
        stored = (omega (arith, length-append cells (at [] a cells ∷ [])), rw last q);
        same = ap some last;
        new = omega arith;
      }

  pub seen-Grows :
      (before after : List (List A)) (r : Reference)
      → Grows [] before after
      → InCells Q before r
      → seen after r ≡ seen before r
  seen-Grows before after none g h = refl
  seen-Grows before after (some a) g h = ap some (g.keeps a h.0)

  pub InCells-Grows :
      (before after : List (List A)) (r : Reference)
      → Grows [] before after
      → InCells Q before r
      → InCells Q after r
  InCells-Grows before after none g h = tt
  InCells-Grows before after (some a) g (h, q) = (omega (arith, h, g.longer), rw (g.keeps a h) q)

-- Any content.
abbrev pub IsAny : List String → Type 0
IsAny _ = Unit

abbrev pub IsMap : Dict ArtifactState → Type 0
IsMap = HasNewKeys []

module _ (L : Machinery) where
  pub copy_strings_lem :
      (r : Reference) (h : Store L)
      → InCells IsAny h.strings r
      → (copied : Reference) × (after : List (List String)) × (copy_strings L r h
          ≡ (copied, record h { strings = after }))
        × IsCopied IsAny h.strings after r copied
  unfolding copy_strings
  copy_strings_lem none h i = (none, h.strings, refl, IsCopied-none IsAny h.strings)
  copy_strings_lem (some a) h (i, _) = (
    some (length h.strings),
    h.strings ++ (at [] a h.strings ∷ []),
    rw (at-append [] a h.strings (replicate (length (at [] a h.strings)) "" ∷ []) i) (
        rw (put_last (replicate (length (at [] a h.strings)) "") (at [] a h.strings) h.strings [])
          refl),
    IsCopied-some IsAny h.strings a tt,
  )

  pub copy_states_lem :
      (r : Reference) (h : Store L)
      → InCells IsMap h.states r
      → (copied : Reference) × (after : List (Dict ArtifactState)) × (copy_states L r h
          ≡ (copied, record h { states = after }))
        × IsCopied IsMap h.states after r copied
  unfolding copy_states
  copy_states_lem none h i = (none, h.states, refl, IsCopied-none IsMap h.states)
  copy_states_lem (some a) h (i, q) = (
    some (length h.states),
    h.states ++ (at [] a h.states ∷ []),
    rw (assign_each_lem h.states [] (at [] a h.states) q) refl,
    IsCopied-some IsMap h.states a q,
  )
