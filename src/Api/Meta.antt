-- ===== src/Api/Meta.antt =====
-- The part of Kubernetes' metav1.ObjectMeta that the operator reads and writes. A field that Go
-- leaves at its zero value is "" or the empty list here; `annotations` keeps the nil map apart,
-- since a write to a nil map panics.
use apheleia.Base.{String, Option, none, some, List, []}
use apheleia.Base.Dict.{Dict, entry}

pub record OwnerReference : Type 0 where
  pub kind : String
  pub name : String

pub record ObjectMeta : Type 0 where
  pub name : String
  pub generate_name : String
  pub namespace : String
  pub labels : Dict String
  pub annotations : Option (Dict String)
  pub owner_references : List OwnerReference

-- Go's zero value.
abbrev pub empty_metadata : ObjectMeta
empty_metadata = record {
  name = "";
  generate_name = "";
  namespace = "";
  labels = [];
  annotations = none;
  owner_references = [];
}

-- A read of a map that may be nil.
abbrev pub annotation : String → Option (Dict String) → String
annotation k none = ""
annotation k (some m) = entry k m

-- types.NamespacedName
pub record NamespacedName : Type 0 where
  pub namespace : String
  pub name : String
