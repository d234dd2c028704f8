-- ===== src/Tests/Passes.antt =====
-- Whole passes over one cluster, on a cluster kept in memory.
use kyuubi_operator.Base.{none, Option, ◌≤◌, arith, ◌≡◌, refl, ◌⊎◌, some, string_discrete}
use kyuubi_operator.K8s.Client.{object_key, Obj, Reply, other, Client, found, failed, Kind}
use kyuubi_operator.Api.{KyuubiClusterStatus, KyuubiCluster}
use kyuubi_operator.Memory.{
  on_missing, on_found, on_status, find, reply_of, Memory, memory_client, put, key_discrete,
  kind_discrete,
}
use kyuubi_operator.Controller.Reconcile.Runs.{IsClosed}
use kyuubi_operator.Controller.Services.{construct_desired_service}
use kyuubi_operator.Controller.Names.{
  cluster_resource_name, cluster_resource_labels, nine_resource_name, default_downward_api,
}
use kyuubi_operator.Controller.Reconcile.Publishing.{reconcile-Publishes}
use kyuubi_operator.Controller.Services.First.{Publishes}
use kyuubi_operator.Controller.Reconcile.Whole.{reconcile-Ends}
use kyuubi_operator.Controller.Reconcile.{reconcile, request_name, create_or_update_clusters}
use kyuubi_operator.Tests.{plain, plain-IsPlain, in_order-IsRange, library, orders}
use kyuubi_operator.Controller.Reconcile.Causes.{IsCause, reconcile_err}
use kyuubi_operator.Controller.Rbac.{
  create_or_update_k8s_resources, create_or_update_service_account, ensure,
  construct_service_account, construct_role, construct_role_binding,
}
use kyuubi_operator.K8s.Exec.{ok}
use kyuubi_operator.Controller.Volumes.{construct_volume_mounts, construct_volumes}
use kyuubi_operator.K8s.Equality.{dict_equal, spec_equal}
use native.Mathlib.Decide.{ℕ_discrete}
use kyuubi_operator.Base.Dict.{insert, lookup}
use kyuubi_operator.Controller.ClusterRefs.{
  ref_loop, case_data, spark_conf, desired_cluster_refs_config_map,
}
use kyuubi_operator.Controller.ClusterRefs.Maps.{desired_cluster_refs-IsMap}
use kyuubi_operator.Controller.Status.{info_loop, exposed_infos}
use kyuubi_operator.K8s.Held.{Ends}
use kyuubi_operator.Memory.Laws.{memory_client-IsStore}
use kyuubi_operator.Controller.Workload.{construct_desired_kyuubi_workload}
use kyuubi_operator.Controller.ConfigMaps.{construct_kyuubi_config_map}
use kyuubi_operator.Controller.Reconcile.Wanted.{all_wanted}
use kyuubi_operator.Controller.Reconcile.Complete.{create_or_update_clusters-Ends}
use kyuubi_operator.Controller.Reconcile.Settled.{IsSettled, create_or_update_clusters_idle}
use kyuubi_operator.Tests.World.{
  account, conf_map, desired_service, desired_workload, kyuubi, refs, with_cluster,
}

create_or_update_clusters-Ends_example :
    Ends memory_client with_cluster
      (create_or_update_clusters library memory_client orders 1 kyuubi)
      (all_wanted memory_client library orders kyuubi with_cluster refs)
      with_cluster
unfolding desired_cluster_refs_config_map ref_loop case_data spark_conf key_discrete kind_discrete
    string_discrete
create_or_update_clusters-Ends_example =
    create_or_update_clusters-Ends memory_client memory_client-IsStore library orders 0 kyuubi refs
      kyuubi with_cluster refl in_order-IsRange in_order-IsRange refl

abbrev idle_kyuubi : KyuubiCluster
idle_kyuubi = record kyuubi {
  status = record {
    exposed_infos = some (exposed_infos kyuubi desired_service);
    creation_time = 1;
    update_time = 2;
  };
}

abbrev settled_world : Memory
settled_world = put Kind.service_account account (
    put Kind.role (construct_role library kyuubi).0 (
      put Kind.role_binding (construct_role_binding library kyuubi).0 (
        put Kind.config_map conf_map (
          put Kind.config_map refs (
            put Kind.stateful_set desired_workload
              (put Kind.service desired_service with_cluster))))))

settled : IsSettled library memory_client orders 1 idle_kyuubi settled_world
unfolding desired_cluster_refs_config_map ref_loop case_data spark_conf key_discrete kind_discrete
    string_discrete construct_service_account construct_role construct_role_binding
    construct_kyuubi_config_map construct_desired_kyuubi_workload construct_desired_service
    cluster_resource_labels spec_equal lookup info_loop cluster_resource_name nine_resource_name
    insert default_downward_api construct_volume_mounts construct_volumes dict_equal ℕ_discrete
settled = record {
  service_account = account;
  account-shown = refl;
  role = (construct_role library kyuubi).0;
  role-shown = refl;
  role_binding = (construct_role_binding library kyuubi).0;
  binding-shown = refl;
  kyuubi_conf = record {
    existing = conf_map;
    shown = refl;
    desired-IsMap = (refl, tt);
    existing-IsMap = (refl, tt);
    same = record { at = λ k. refl };
  };
  desired_refs = refs;
  refs_made = refl;
  refs_conf = record {
    existing = refs;
    shown = refl;
    desired-IsMap = desired_cluster_refs-IsMap library orders.refs kyuubi refs refl;
    existing-IsMap = desired_cluster_refs-IsMap library orders.refs kyuubi refs refl;
    same = record { at = λ k. refl };
  };
  workload = desired_workload;
  workload-shown = refl;
  workload_same = refl;
  service = desired_service;
  service-shown = refl;
  others-IsMap = (tt, (tt, tt));
  published = refl;
}

create_or_update_clusters_idle_example :
    create_or_update_clusters library memory_client orders 1 idle_kyuubi settled_world
    ≡ (ok tt, settled_world)
create_or_update_clusters_idle_example =
    create_or_update_clusters_idle library memory_client orders 1 idle_kyuubi settled_world
      (λ k key w. refl) in_order-IsRange in_order-IsRange settled

reconcile-Ends_example :
    Ends memory_client with_cluster
      (reconcile library memory_client orders 1 plain)
      (all_wanted memory_client library orders kyuubi with_cluster refs)
      with_cluster
unfolding desired_cluster_refs_config_map ref_loop case_data spark_conf key_discrete kind_discrete
    string_discrete
reconcile-Ends_example =
    reconcile-Ends memory_client memory_client-IsStore library orders 0 plain kyuubi refs
      with_cluster plain-IsPlain refl in_order-IsRange in_order-IsRange refl

-- A cluster in memory that fails when it is asked for a service account.
abbrev failing_get : (k : Kind) → Reply (Obj k) → Reply (Obj k)
failing_get Kind.service_account reply = failed (other "down")
failing_get k reply = reply

abbrev failing_client : Client
failing_client = record memory_client {
  get = λ k key m. (failing_get k (reply_of (find k key m)), m);
}

-- The clock does not go back.
abbrev IsLater : Memory → Type 0
IsLater m = 7 ≤ m.clock

missing-IsLater :
    {A : Type 0} (o : Option A) (new m : Memory)
    → IsLater new
    → IsLater m
    → IsLater (on_missing o new m).1
missing-IsLater none new m p q = p
missing-IsLater (some a) new m p q = q

found-IsLater :
    {A : Type 0} (o : Option A) (new m : Memory)
    → IsLater new
    → IsLater m
    → IsLater (on_found o new m).1
found-IsLater none new m p q = q
found-IsLater (some a) new m p q = p

status-IsLater :
    (s : KyuubiClusterStatus) (o : Option KyuubiCluster) (m : Memory)
    → IsLater m
    → IsLater (on_status s o m).1
status-IsLater s none m p = p
status-IsLater s (some old) m p = p

IsLater-IsClosed : IsClosed failing_client IsLater
IsLater-IsClosed = record {
  by_gets = λ k key m p. p;
  by_creates = λ k o m p. missing-IsLater (find k (object_key k o) m) (put k o m) m p p;
  by_updates = λ k o m p. found-IsLater (find k (object_key k o) m) (put k o m) m p p;
  by_statuses = λ o m p.
      status-IsLater o.status (find Kind.kyuubi_cluster (object_key Kind.kyuubi_cluster o) m) m p;
  by_clock = λ m p. p;
  by_sleep = λ ms m p. omega (arith, p);
}

reconcile_err_example :
    let e = other "down" in
    ((failing_client.get Kind.kyuubi_cluster plain with_cluster).0 ≡ failed e)
    ⊎ ((k : KyuubiCluster) × ((failing_client.get Kind.kyuubi_cluster plain with_cluster).0
          ≡ found k)
        × IsCause failing_client library orders 1 IsLater k e with_cluster)
unfolding key_discrete kind_discrete string_discrete ℕ_discrete reconcile request_name
    create_or_update_clusters create_or_update_k8s_resources create_or_update_service_account ensure
reconcile_err_example =
    reconcile_err failing_client library orders 1 IsLater plain with_cluster (other "down")
      IsLater-IsClosed (omega arith) refl

reconcile-Publishes_example :
    Publishes memory_client kyuubi
      (reconcile library memory_client orders 1 plain)
      (exposed_infos kyuubi desired_service)
      desired_service
      (put Kind.service desired_service with_cluster)
unfolding desired_cluster_refs_config_map ref_loop case_data spark_conf key_discrete kind_discrete
    string_discrete cluster_resource_name construct_desired_service cluster_resource_labels
reconcile-Publishes_example =
    reconcile-Publishes memory_client memory_client-IsStore library orders 0 plain kyuubi
      desired_service refs (put Kind.service desired_service with_cluster) plain-IsPlain refl refl
      in_order-IsRange in_order-IsRange refl
