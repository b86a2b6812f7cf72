-- ===== src/Base/Dict.antt =====
-- Go's maps with string keys, as association lists in which a key stands once. A lookup of a key
-- that is absent gives `none`; the zero value that Go returns there is written at each use.
use apheleia.Base.{
  String, ◌≡◌, refl, ◌≢◌, Option, none, some, List, [], ◌∷◌, ◌++◌, arith, ◌==◌, eq_iff, All,
  if◌then◌else◌,
}

abbrev pub Dict {ℓ} : Type ℓ → Type ℓ
Dict V = List (String × V)

module _ {ℓ} {V : Type ℓ} where
  -- v, ok := m[k]
  abbrev pub lookup : String → Dict V → Option V
  lookup key [] = none
  lookup key ((k, value) ∷ entries) =
      let later = lookup key entries in if k == key then some value else later

  -- m[k] = v
  abbrev pub insert : String → V → Dict V → Dict V
  insert key new [] = (key, new) ∷ []
  insert key new ((k, old) ∷ entries) =
      let later = insert key new entries in
      if k == key then (k, new) ∷ entries else (k, old) ∷ later

  -- A lookup finds what was written at its own key, and what was there before at others.
  pub lookup-insert :
      (written key : String) (new : V) (m : Dict V)
      → lookup key (insert written new m) ≡ (if written == key then some new else lookup key m)
  lookup-insert written key new [] = refl
  lookup-insert written key new ((k, old) ∷ entries) = ground (
    arith,
    lookup-insert written key new entries,
    eq_iff k written,
    eq_iff k key,
    eq_iff written key,
  )

  -- A write of a key that is absent adds an entry at the end.
  pub insert-fresh :
      (k : String) (v : V) (m : Dict V)
      → All (λ (j, _). j ≢ k) m
      → insert k v m ≡ m ++ ((k, v) ∷ [])
  insert-fresh k v [] h = refl
  insert-fresh k v ((j, w) ∷ m) h = ground (arith, eq_iff j k, insert-fresh k v m h.1)

-- m[k] of a map[string]string, which is "" where the key is absent.
abbrev pub entry : String → Dict String → String
entry k m = elim (lookup k m) [ none ↦ "" | some v ↦ v ]
