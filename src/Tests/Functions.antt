-- ===== src/Tests/Functions.antt =====
-- The functions and the loops at concrete inputs.
use native.Mathlib.Decide.{ℕ_discrete}
use mathlib.Core.Logic.{ite}
use kyuubi_operator.Base.{
  ℕ, String, ◌≡◌, refl, ◌↔◌, inl, inr, true, none, some, [], ◌∷◌, map, arith, All, string_discrete,
  if◌then◌else◌, get_elem?,
}
use kyuubi_operator.Memory.{
  find, reply_of, Memory, memory_client, empty_memory, put, key_discrete, kind_discrete,
}
use kyuubi_operator.K8s.Client.{Client, Reply, Obj, not_found, failed, Kind}
use kyuubi_operator.Controller.Reconcile.Requests.{
  handled, reconcile_lem, create_or_update_clusters_lacking,
}
use kyuubi_operator.Controller.ClusterRefs.Errors.{
  any_lacks, refs_object, desired_cluster_refs_config_map_lem,
}
use kyuubi_operator.Base.Dict.{insert, Dict, SameMap, lookup}
use kyuubi_operator.Api.{ClusterType}
use kyuubi_operator.Controller.Utils.{compare_conf}
use kyuubi_operator.Controller.Utils.CompareConf.{compare_conf_iff}
use kyuubi_operator.Controller.ClusterRefs.{
  ref_loop, case_data, spark_conf, hdfs_conf, desired_cluster_refs_config_map, nil_defaults,
}
use mathlib.Core.Option.{or_else}
use kyuubi_operator.Controller.Volumes.{construct_volumes, construct_volume_mounts}
use kyuubi_operator.Controller.Volumes.Names.{mount_parts, first_path, mounts-eq-volumes}
use kyuubi_operator.Controller.ClusterRefs.Conf.{lookup-spark_conf, computed_spark}
use kyuubi_operator.Controller.ClusterRefs.NameNodes.{lookup-hdfs_conf}
use kyuubi_operator.Base.Text.{split}
use kyuubi_operator.K8s.Exec.{ok, raise, ◌>>◌}
use kyuubi_operator.K8s.Objects.{Service, ConfigMap, NamespacedName}
use kyuubi_operator.Controller.ConfigMaps.{
  await_config_map, construct_kyuubi_config_map, create_or_update_kyuubi_configmap,
}
use kyuubi_operator.Controller.ConfigMaps.Await.{await_config_map-ok, polled}
use kyuubi_operator.Controller.ConfigMaps.Served.{IsServed, volumes-IsServed}
use kyuubi_operator.Controller.Rbac.{create_or_update_k8s_resources}
use kyuubi_operator.Controller.Status.{exposed_infos}
use kyuubi_operator.Controller.Status.Published.{get_elem?-exposed_infos, info_of}
use kyuubi_operator.Controller.Reconcile.{reconcile, create_or_update_clusters}
use kyuubi_operator.Controller.Services.{construct_desired_service}
use kyuubi_operator.Tests.{
  all_refs, cluster_with, ha_site, in_order, in_order-IsRange, library, no_hdfs, orders, plain,
  plain-IsPlain, ref_of, spark_with,
}

compare_conf_iff_example :
    (compare_conf in_order (("a", "1") ∷ []) (("a", "1") ∷ []) ≡ true)
    ↔ SameMap (("a", "1") ∷ []) (("a", "1") ∷ [])
unfolding lookup
compare_conf_iff_example =
    compare_conf_iff in_order (("a", "1") ∷ []) (("a", "1") ∷ []) in_order-IsRange (refl, tt)
      (refl, tt)

mounts-eq-volumes_example :
    map mount_parts (construct_volume_mounts (cluster_with all_refs))
    ≡ map first_path (construct_volumes (cluster_with all_refs))
mounts-eq-volumes_example = mounts-eq-volumes (cluster_with all_refs)

lookup-spark_conf_example :
    let cluster = spark_with (some (("spark.master", "local") ∷ [])) in
    (conf : Dict) × (spark_conf library in_order (cluster_with []) cluster ≡ inr conf)
    × ((k : String)
        → lookup k conf
          ≡ or_else
              (lookup k (("spark.master", "local") ∷ []))
              (computed_spark library (cluster_with []) cluster k))
unfolding lookup
lookup-spark_conf_example =
    lookup-spark_conf library in_order (cluster_with [])
      (spark_with (some (("spark.master", "local") ∷ []))) (("spark.master", "local") ∷ [])
      in_order-IsRange (refl, tt) refl

lookup-hdfs_conf_example :
    lookup "dfs.namenode.rpc-address.n.nn2" (hdfs_conf (some ha_site) []) ≡ some "h2:8020"
unfolding lookup insert split string_discrete ℕ_discrete
lookup-hdfs_conf_example = lookup-hdfs_conf ha_site [] "n" "dfs.namenode.rpc-address.n.nn2" refl

desired_cluster_refs_config_map_lem_example :
    (d : Dict) × (desired_cluster_refs_config_map library (λ n. in_order) (cluster_with all_refs)
      ≡ (if any_lacks all_refs
          then inl nil_defaults
          else refs_object library (λ n. in_order) (cluster_with all_refs) d))
desired_cluster_refs_config_map_lem_example =
    desired_cluster_refs_config_map_lem library (λ n. in_order) (cluster_with all_refs)

abbrev service : Service
service = (construct_desired_service library (cluster_with all_refs)).0

get_elem?-exposed_infos_example :
    let kyuubi = cluster_with all_refs in
    get_elem? (exposed_infos kyuubi service) 1
    ≡ some (
        info_of kyuubi service 1
          (record { name = "thrift-binary"; port = 10009; target_port = 10009; others = [] }))
unfolding construct_desired_service
get_elem?-exposed_infos_example = get_elem?-exposed_infos (cluster_with all_refs) service 1

abbrev refs_key : NamespacedName
refs_key = record { namespace = "ns"; name = "k-clusterrefs" }

abbrev refs_map : ConfigMap
refs_map = record {
  meta = record {
    name = "k-clusterrefs";
    namespace = "ns";
    labels = [];
    owner_references = [];
    others = [];
  };
  contents = some [];
}

abbrev with_refs : Memory
with_refs = put Kind.config_map refs_map empty_memory

-- A cluster in memory that shows a config map only after its clock has moved.
abbrev late_get : (k : Kind) → Reply (Obj k) → ℕ → Reply (Obj k)
late_get Kind.config_map reply clock = ite (ℕ_discrete clock 7) (failed not_found) reply
late_get k reply clock = reply

abbrev late_client : Client
late_client = record memory_client {
  get = λ k key m. (late_get k (reply_of (find k key m)) m.clock, m);
}

await_config_map-ok_example :
    await_config_map late_client 2 refs_key with_refs
    ≡ (ok tt, polled late_client refs_key 1 with_refs)
unfolding key_discrete string_discrete kind_discrete ℕ_discrete
await_config_map-ok_example =
    await_config_map-ok late_client refs_key 1 2 with_refs (omega arith) (refl, (refs_map, refl))

reconcile_lem_example :
    reconcile library memory_client orders 3 plain empty_memory
    ≡ handled library memory_client orders 3 plain empty_memory (failed not_found)
reconcile_lem_example =
    reconcile_lem library memory_client orders 3 plain empty_memory plain-IsPlain

create_or_update_clusters_lacking_example :
    let lacking = cluster_with (ref_of ClusterType.spark none no_hdfs ∷ []) in
    create_or_update_clusters library memory_client orders 3 lacking ≡ (do
      create_or_update_k8s_resources library memory_client lacking
      create_or_update_kyuubi_configmap library memory_client orders 3 lacking
      raise nil_defaults)
create_or_update_clusters_lacking_example =
    create_or_update_clusters_lacking library memory_client orders 3
      (cluster_with (ref_of ClusterType.spark none no_hdfs ∷ [])) refl

abbrev served_refs : ConfigMap
served_refs = elim (desired_cluster_refs_config_map library orders.refs (cluster_with all_refs)) [
  | inl e ↦ refs_map
  | inr cm ↦ cm
]

volumes-IsServed_example :
    All
      (IsServed
        (cluster_with all_refs)
        (construct_kyuubi_config_map library in_order (cluster_with all_refs)).0
        served_refs)
      (construct_volumes (cluster_with all_refs))
unfolding desired_cluster_refs_config_map ref_loop case_data spark_conf
volumes-IsServed_example =
    volumes-IsServed library orders.refs in_order (cluster_with all_refs) served_refs refl
