-- ===== src/K8s.antt =====
-- What the operator uses of Kubernetes: the objects that it builds, the client, and the methods
-- that call it.
pub mod Objects
pub mod Equality
pub mod Client
pub mod Exec
pub mod Store
pub mod Held
pub mod Steady
pub mod Schemes
