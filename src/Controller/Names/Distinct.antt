-- ===== src/Controller/Names/Distinct.antt =====
-- The names of the resources of different clusters.
use text.Mathlib.TextLemmas.{append_cancel_right}
use kyuubi_operator.Base.{◌≡◌, ◌≢◌, ◌↔◌, ap, ◌<>◌, [], ◌∷◌, arith}
use kyuubi_operator.Base.Text.Laws.{last_or, last_or-append}
use kyuubi_operator.Api.{KyuubiCluster}
use kyuubi_operator.Controller.Names.{
  nine_resource_name, cluster_resource_name, default_cluster_refs_name_suffix,
}

-- Two clusters have a resource name in common exactly when they have the same name; so too for the
-- name of the config map of the cluster references; and no name of the first sort is one of the
-- second.
pub resource_names_distinct :
    (a b : KyuubiCluster)
    → let refs = default_cluster_refs_name_suffix ∷ [] in
      ((cluster_resource_name a [] ≡ cluster_resource_name b []) ↔ (a.meta.name ≡ b.meta.name))
      × ((nine_resource_name a refs ≡ nine_resource_name b refs) ↔ (a.meta.name ≡ b.meta.name))
      × (cluster_resource_name a [] ≢ nine_resource_name b refs)
unfolding cluster_resource_name nine_resource_name
resource_names_distinct a b = (
  (λ e. append_cancel_right a.meta.name b.meta.name "-kyuubi" e, λ e. ap (λ s. s <> "-kyuubi") e),
  (
    λ e. append_cancel_right a.meta.name b.meta.name "-clusterrefs" e,
    λ e. ap (λ s. s <> "-clusterrefs") e,
  ),
  λ e. omega (
    arith,
    ap (last_or 0) e,
    last_or-append 0 a.meta.name "-kyuubi",
    last_or-append 0 b.meta.name "-clusterrefs",
  ),
)
