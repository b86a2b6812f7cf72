-- ===== src/Client.antt =====
-- pkg/client: the generated client: the informer factory, the typed client, the clientset, the
-- informers by type, the lister and the client for tests.
pub mod Factory
pub mod Typed
pub mod Group
pub mod Clientset
pub mod Informers
pub mod Lister
pub mod Fake
pub mod Schemes
pub mod FakeClientset
