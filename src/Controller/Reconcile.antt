-- ===== src/Controller/Reconcile.antt =====
-- The reconcile loop (createOrUpdateClusters, Reconcile).
pub mod Requests
pub mod Settled
pub mod Steps
pub mod Applied
pub mod Wanted
pub mod Provided
pub mod Complete
pub mod Whole
pub mod Moves
pub mod Confined
pub mod Owned
pub mod Unaffected
pub mod Publishing
pub mod Runs
pub mod Reached
pub mod Isolated
pub mod Blamed
pub mod Causes
use kyuubi_operator.Base.{ℕ, String, true, false, ◌==◌, Option, none, some, List, [], ◌∷◌}
use kyuubi_operator.Base.Text.{split}
use kyuubi_operator.K8s.Objects.{NamespacedName}
use kyuubi_operator.K8s.Client.{Kind, Client, Library, found, failed}
use kyuubi_operator.K8s.Exec.{Exec, pure, raise, panic, get, ◌>>=◌, ◌>>◌}
use kyuubi_operator.Api.{KyuubiCluster}
use kyuubi_operator.Controller.Rbac.{create_or_update_k8s_resources}
use kyuubi_operator.Controller.Workload.{create_or_update_kyuubi}
use kyuubi_operator.Controller.ConfigMaps.{
  Orders, create_or_update_cluster_refs_configmap, create_or_update_kyuubi_configmap,
}
use kyuubi_operator.Controller.Services.{create_or_update_service}
use kyuubi_operator.Controller.Status.{update_kyuubi_cluster_status}

-- `requestArray[1]`
abbrev pub second : List String → Option String
second [] = none
second (a ∷ []) = none
second (a ∷ b ∷ rest) = some b

-- `strings.Split(fmt.Sprint(req), "/")[1]`
unfoldable pub request_name : Library → NamespacedName → Option String
unfolding split
request_name L req = second (split b'/' (L.sprint req))

module _ (L : Library) (C : Client) (orders : Orders) (rounds : ℕ) where
  unfoldable pub create_or_update_clusters : KyuubiCluster → Exec C.World (Unit {0})
  create_or_update_clusters kyuubi = do
    create_or_update_k8s_resources L C kyuubi
    create_or_update_kyuubi_configmap L C orders rounds kyuubi
    create_or_update_cluster_refs_configmap L C orders rounds kyuubi
    create_or_update_kyuubi L C kyuubi
    existing_service ← create_or_update_service L C kyuubi
    update_kyuubi_cluster_status C kyuubi existing_service

  unfoldable pub reconcile : NamespacedName → Exec C.World (Unit {0})
  reconcile req = do
    reply ← get C Kind.kyuubi_cluster req
    elim reply [
      | failed e ↦ raise e
      | found kyuubi ↦ elim (request_name L req) [
        | none ↦ panic
        | some name ↦ elim (name == kyuubi.meta.name) [
          | true ↦ create_or_update_clusters kyuubi
          | false ↦ pure tt
        ]
      ]
    ]
