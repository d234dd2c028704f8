-- ===== src/Tests/Histories.antt =====
-- Passes between other changes, on a cluster kept in memory.
use kyuubi_operator.Controller.Reconcile.Unaffected.{reconcile_unaffected}
use kyuubi_operator.Controller.Reconcile.Wanted.{
  shared_key, refs_key, wanted_map, conf_map as wanted_conf_map,
}
use kyuubi_operator.Tests.World.{conf_map, desired_workload, desired_service, kyuubi, with_cluster}
use kyuubi_operator.K8s.Held.{Holds}
use kyuubi_operator.K8s.Store.{Shows, Keeps}
use kyuubi_operator.K8s.Objects.{ConfigMap, NamespacedName, Service}
use kyuubi_operator.Base.{subst, ◌∙◌, ◌∙◌, [], some, ◌∷◌, inl, inr, string_discrete, ◌≡◌, refl, sym}
use native.Mathlib.Decide.{ℕ_discrete}
use kyuubi_operator.Base.Dict.{lookup}
use kyuubi_operator.K8s.Equality.{spec_equal, dict_equal}
use kyuubi_operator.Controller.Workload.{construct_desired_kyuubi_workload}
use kyuubi_operator.Controller.Names.{
  cluster_resource_name, cluster_resource_labels, default_downward_api, nine_resource_name,
}
use kyuubi_operator.Controller.Volumes.{construct_volume_mounts, construct_volumes}
use kyuubi_operator.K8s.Client.{Kind, object_key}
use kyuubi_operator.K8s.Steady.{Moves}
use kyuubi_operator.Memory.{empty_memory, Memory, put, memory_client, key_discrete, kind_discrete}
use kyuubi_operator.Controller.Reconcile.Confined.{IsServed, reconcile-Moves}
use kyuubi_operator.Controller.Reconcile.Reached.{
  Reach, here, next, pass, edit, Claimed, Reach-guarded,
}
use kyuubi_operator.Controller.Reconcile.Isolated.{reconcile-isolated}
use kyuubi_operator.Memory.Laws.{memory_client-IsStore}
use kyuubi_operator.Controller.ClusterRefs.{
  ref_loop, case_data, spark_conf, desired_cluster_refs_config_map,
}
use kyuubi_operator.Controller.Reconcile.{reconcile}
use kyuubi_operator.Tests.{KyuubiCluster, in_order-IsRange, library, orders, plain, plain-IsPlain}

-- Another cluster.
abbrev neighbour : KyuubiCluster
neighbour = record kyuubi { meta = record kyuubi.meta { name = "other" } }

abbrev neighbour_request : NamespacedName
neighbour_request = object_key Kind.kyuubi_cluster neighbour

reconcile-Moves_example :
    Moves memory_client
      (IsServed memory_client memory_client-IsStore library orders 0 plain with_cluster)
      with_cluster
      (reconcile library memory_client orders 0 plain with_cluster).1
reconcile-Moves_example =
    reconcile-Moves memory_client memory_client-IsStore library orders 0 plain with_cluster

-- A pass, and then a user who makes another cluster.
abbrev with_service : Memory
with_service = put Kind.service desired_service with_cluster

abbrev passed : Memory
passed = (reconcile library memory_client orders 1 plain with_service).1

-- The same cluster, with another Kyuubi configuration.
abbrev reconfigured : KyuubiCluster
reconfigured = record kyuubi {
  spec = record kyuubi.spec { kyuubi_conf = some (("kyuubi.authentication", "LDAP") ∷ []) };
}

abbrev edited : Memory
edited = (memory_client.update Kind.kyuubi_cluster reconfigured passed).1

passed-Shows : (k : KyuubiCluster) × Shows memory_client Kind.kyuubi_cluster plain passed k
unfolding key_discrete kind_discrete string_discrete
passed-Shows =
    let (k, s, _) =
      (reconcile-Moves memory_client memory_client-IsStore library orders 1 plain
          with_service).steady
        Kind.kyuubi_cluster plain kyuubi refl in
    (k, s)

-- The clusters that are there stay there.
still_there :
    (req : NamespacedName) (k : KyuubiCluster)
    → Shows memory_client Kind.kyuubi_cluster req passed k
    → (k' : KyuubiCluster) × Shows memory_client Kind.kyuubi_cluster req edited k'
still_there req k s = elim (key_discrete req plain) [
  | yes e ↦ (
    reconfigured,
    subst (λ key. Shows memory_client Kind.kyuubi_cluster key edited reconfigured) (sym e)
        (memory_client-IsStore.update_found Kind.kyuubi_cluster reconfigured passed-Shows.0 passed
          passed-Shows.1).1,
  )
  | no n ↦ (
    k,
    memory_client-IsStore.update_apart Kind.kyuubi_cluster reconfigured passed Kind.kyuubi_cluster
          req (inr (λ e. n (sym e)))
        ∙ s,
  )
]

to_edited : Reach memory_client library with_service edited
to_edited = next (next here (pass orders 1 plain refl)) (
    edit
      (λ k key n.
        memory_client-IsStore.update_apart Kind.kyuubi_cluster reconfigured passed k key
          (inl (λ e. n (sym e))))
      still_there)

Reach-guarded_example :
    ((o : Service)
      → Shows memory_client Kind.service (shared_key kyuubi) with_service o
      → (o' : Service) × Shows memory_client Kind.service (shared_key kyuubi) edited o' × (o' ≡ o))
    × (¬ Claimed memory_client library Kind.service (shared_key kyuubi) edited to_edited
        → Keeps memory_client Kind.service (shared_key kyuubi) with_service edited)
Reach-guarded_example =
    Reach-guarded memory_client memory_client-IsStore library to_edited Kind.service
      (shared_key kyuubi) (λ e. cc)

reconcile-isolated_example :
    Keeps memory_client Kind.config_map
      (refs_key kyuubi)
      with_cluster
      (reconcile library memory_client orders 1 neighbour_request with_cluster).1
unfolding key_discrete kind_discrete string_discrete
reconcile-isolated_example =
    reconcile-isolated memory_client memory_client-IsStore library orders 1 neighbour_request plain
      kyuubi with_cluster refl (λ e. cc) Kind.config_map (refs_key kyuubi) (inr (inr (refl, refl)))

abbrev with_desired : Memory
with_desired =
    put Kind.stateful_set desired_workload (put Kind.kyuubi_cluster reconfigured empty_memory)

abbrev new_refs : ConfigMap
new_refs = elim (desired_cluster_refs_config_map library orders.refs reconfigured) [
  | inl e ↦ conf_map
  | inr cm ↦ cm
]

reconcile_unaffected_example :
    let w = (reconcile library memory_client orders 1 plain with_desired).1 in
    Shows memory_client Kind.stateful_set (shared_key reconfigured) w desired_workload
    × Holds memory_client w (wanted_conf_map memory_client library orders reconfigured with_desired)
    × Holds memory_client w (wanted_map (refs_key reconfigured) new_refs)
unfolding desired_cluster_refs_config_map ref_loop case_data spark_conf key_discrete kind_discrete
    string_discrete construct_desired_kyuubi_workload cluster_resource_name cluster_resource_labels
    default_downward_api construct_volume_mounts construct_volumes spec_equal dict_equal lookup
    nine_resource_name ℕ_discrete
reconcile_unaffected_example =
    reconcile_unaffected memory_client memory_client-IsStore library orders 0 plain kyuubi
      reconfigured new_refs desired_workload with_desired plain-IsPlain refl in_order-IsRange
      in_order-IsRange refl (record { name = refl; image = refl; resource = refl; refs = refl })
      refl refl
