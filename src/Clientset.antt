-- ===== src/Clientset.antt =====
-- client/clientset/versioned: the typed client, the fake client and the clientset.
pub mod Machinery
pub mod Rest
pub mod Typed
pub mod Tracking
pub mod Fake
pub mod Config
pub mod Sets
pub mod Fakeset
pub mod Schemes
