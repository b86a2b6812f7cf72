-- ===== src/Client/Lister/Lookup.antt =====
-- pkg/client/listers/apheleia/v1alpha1/componentbuild.go: what the lister gives of the indexer.
use apheleia.Base.{List}
