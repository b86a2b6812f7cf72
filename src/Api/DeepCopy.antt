-- ===== src/Api/DeepCopy.antt =====
-- pkg/apis/apheleia/v1alpha1/zz_generated.deepcopy.go. A slice or a map is an address or nil, and
-- stands for the cell there; the arrays and the maps of a `Store` are lists of cells by their type.
-- A struct is a value, so that a method that writes through `out` returns what it leaves there. The
-- copies of the metadata are apimachinery's, and use memory of their own (`others`): a `Machinery`.
pub mod Copies
pub mod Builds
pub mod Independence
pub mod Items
pub mod Whole
use apheleia.Base.{ℕ, suc, String, Bool, false, Option, none, some, List, [], ◌∷◌, ◌++◌, length}
use apheleia.Base.Cells.{at, put, replicate}
use apheleia.Base.Dict.{Dict, insert}
use apheleia.Api.{ArtifactState}

-- metav1.TypeMeta
pub record TypeMeta : Type 0 where
  pub kind : String
  pub api_version : String

pub record Machinery : Type 1 where
  pub Others : Type 0
  pub Meta : Type 0
  pub ListMeta : Type 0
  -- ObjectMeta.DeepCopyInto and ListMeta.DeepCopyInto: the copy, and the memory after it
  pub copy_object_meta : Meta → Others → Meta × Others
  pub copy_list_meta : ListMeta → Others → ListMeta × Others
  pub zero_meta : Meta

-- The structs, with what stands for their metadata, their slice and their map.
pub record SpecStruct (Slice : Type 0) : Type 0 where
  pub scm_url : String
  pub pr_url : String
  pub tag : String
  pub artifacts : Slice

pub record StatusStruct (Map : Type 0) : Type 0 where
  pub state : String
  pub outstanding : ℕ
  pub artifact_state : Map
  pub message : String
  pub result_notified : Bool

pub record BuildStruct (Meta Slice Map : Type 0) : Type 0 where
  pub type_meta : TypeMeta
  pub object_meta : Meta
  pub spec : SpecStruct Slice
  pub status : StatusStruct Map

pub record ListStruct (ListMeta Slice : Type 0) : Type 0 where
  pub type_meta : TypeMeta
  pub list_meta : ListMeta
  pub items : Slice

-- An address, or nil.
abbrev pub Reference : Type 0
Reference = Option ℕ

-- ArtifactState.DeepCopyInto and DeepCopy: the struct has no references.
unfoldable pub artifact_state_deep_copy : Option ArtifactState → Option ArtifactState
artifact_state_deep_copy none = none
artifact_state_deep_copy (some source) = some source

-- The loop over the map at its entries: `(*out)[key] = val`. Each entry has a key of its own, so
-- the order of the loop does not count.
unfoldable pub assign_each :
    ℕ → List (String × ArtifactState) → List (Dict ArtifactState) → List (Dict ArtifactState)
assign_each out [] cells = cells
assign_each out ((key, val) ∷ entries) cells =
    assign_each out entries (put out (insert key val (at [] out cells)) cells)

module _ (L : Machinery) where
  abbrev pub Build : Type 0
  Build = BuildStruct L.Meta Reference Reference

  pub record Store : Type 0 where
    pub strings : List (List String)
    pub states : List (Dict ArtifactState)
    pub builds : List (List Build)
    pub others : L.Others

  -- What new(ComponentBuild) and make([]ComponentBuild, n) hold.
  abbrev pub zero_build : Build
  zero_build = record {
    type_meta = record { kind = ""; api_version = "" };
    object_meta = L.zero_meta;
    spec = record { scm_url = ""; pr_url = ""; tag = ""; artifacts = none };
    status = record {
      state = "";
      outstanding = 0;
      artifact_state = none;
      message = "";
      result_notified = false;
    };
  }

  -- `*out = make([]string, len(*in)); copy(*out, *in)`
  unfoldable pub copy_strings : Reference → Store → Reference × Store
  copy_strings none h = (none, h)
  copy_strings (some a) h =
      let out = length h.strings in
      let made = h.strings ++ (replicate (length (at [] a h.strings)) "" ∷ []) in
      (some out, record h { strings = put out (at [] a made) made })

  unfoldable pub spec_deep_copy_into : SpecStruct Reference → Store → SpecStruct Reference × Store
  unfolding copy_strings
  spec_deep_copy_into source h =
      let (artifacts, h') = copy_strings source.artifacts h in
      (record source { artifacts = artifacts }, h')

  unfoldable pub copy_states : Reference → Store → Reference × Store
  unfolding assign_each
  copy_states none h = (none, h)
  copy_states (some a) h =
      let out = length h.states in
      (some out, record h { states = assign_each out (at [] a h.states) (h.states ++ ([] ∷ [])) })

  unfoldable pub status_deep_copy_into :
      StatusStruct Reference → Store → StatusStruct Reference × Store
  unfolding copy_states
  status_deep_copy_into source h =
      let (artifact_state, h') = copy_states source.artifact_state h in
      (record source { artifact_state = artifact_state }, h')

  unfoldable pub build_deep_copy_into : Build → Store → Build × Store
  unfolding spec_deep_copy_into status_deep_copy_into
  build_deep_copy_into source h =
      let (object_meta, others) = L.copy_object_meta source.object_meta h.others in
      let (spec, h') = spec_deep_copy_into source.spec (record h { others = others }) in
      let (status, h'') = status_deep_copy_into source.status h' in
      (record source { object_meta = object_meta; spec = spec; status = status }, h'')

  -- The loop over the items from an index on, into the array at `out`.
  unfoldable pub copy_items : ℕ → ℕ → List Build → Store → Store
  unfolding build_deep_copy_into
  copy_items out i [] h = h
  copy_items out i (item ∷ items) h =
      let (copied, h') = build_deep_copy_into item h in
      copy_items out (suc i) items
        (record h' { builds = put out (put i copied (at [] out h'.builds)) h'.builds })

  unfoldable pub copy_builds : Reference → Store → Reference × Store
  unfolding copy_items
  copy_builds none h = (none, h)
  copy_builds (some a) h =
      let out = length h.builds in
      let items = at [] a h.builds in
      (
        some out,
        copy_items out 0 items
            (record h { builds = h.builds ++ (replicate (length items) zero_build ∷ []) }),
      )

  unfoldable pub list_deep_copy_into :
      ListStruct L.ListMeta Reference → Store → ListStruct L.ListMeta Reference × Store
  unfolding copy_builds
  list_deep_copy_into source h =
      let (list_meta, others) = L.copy_list_meta source.list_meta h.others in
      let (items, h') = copy_builds source.items (record h { others = others }) in
      (record source { list_meta = list_meta; items = items }, h')

  -- DeepCopy of a pointer that may be nil: a new struct, or nil.
  unfoldable pub deep_copy :
      {A : Type 0} → (A → Store → A × Store) → Option A → Store → Option A × Store
  deep_copy into none h = (none, h)
  deep_copy into (some source) h = let (out, h') = into source h in (some out, h')

  -- An interface that holds the pointer, or nil where the pointer is nil.
  abbrev pub object_of : {A : Type 0} → Option A × Store → Option A × Store
  object_of (some c, h) = (some c, h)
  object_of (none, h) = (none, h)

  -- DeepCopyObject
  unfoldable pub deep_copy_object :
      {A : Type 0} → (A → Store → A × Store) → Option A → Store → Option A × Store
  unfolding deep_copy
  deep_copy_object into source h = object_of (deep_copy into source h)

  -- These methods of the types.
  abbrev pub build_deep_copy : Option Build → Store → Option Build × Store
  build_deep_copy = deep_copy build_deep_copy_into

  abbrev pub build_deep_copy_object : Option Build → Store → Option Build × Store
  build_deep_copy_object = deep_copy_object build_deep_copy_into

  abbrev pub list_deep_copy :
      Option (ListStruct L.ListMeta Reference)
      → Store
      → Option (ListStruct L.ListMeta Reference) × Store
  list_deep_copy = deep_copy list_deep_copy_into

  abbrev pub list_deep_copy_object :
      Option (ListStruct L.ListMeta Reference)
      → Store
      → Option (ListStruct L.ListMeta Reference) × Store
  list_deep_copy_object = deep_copy_object list_deep_copy_into

  abbrev pub spec_deep_copy :
      Option (SpecStruct Reference) → Store → Option (SpecStruct Reference) × Store
  spec_deep_copy = deep_copy spec_deep_copy_into

  abbrev pub status_deep_copy :
      Option (StatusStruct Reference) → Store → Option (StatusStruct Reference) × Store
  status_deep_copy = deep_copy status_deep_copy_into
