-- ===== src/Controller.antt =====
-- internal/controller: the reconciler of KyuubiCluster resources.
pub mod Names
pub mod Utils
pub mod Rbac
pub mod Volumes
pub mod Workload
pub mod ClusterRefs
pub mod ConfigMaps
pub mod Services
pub mod Status
pub mod Wiring
pub mod Reconcile
