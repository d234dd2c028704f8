-- ===== src/Controller/Reconcile/Settled.antt =====
-- A cluster whose objects are all in place is left alone.
use kyuubi_operator.Base.{ap, ℕ, ◌≡◌, ◌∙◌, inl, inr, true, some, arith, All}
use kyuubi_operator.Base.Dict.{Order, entries, IsMap, IsRange, SameMap}
use kyuubi_operator.K8s.Objects.{ServiceAccount, Role, RoleBinding, ConfigMap, StatefulSet, Service}
use kyuubi_operator.K8s.Equality.{spec_equal}
use kyuubi_operator.K8s.Client.{Kind, Obj, object_key, Client, Library, Error}
use kyuubi_operator.K8s.Store.{IsQuiet, Shows}
use kyuubi_operator.K8s.Exec.{>>=-ok, >>-ok, ok, raise}
use kyuubi_operator.Api.{KyuubiCluster}
use kyuubi_operator.Controller.Utils.CompareConf.{compare_conf_iff}
use kyuubi_operator.Controller.Rbac.{
  ensure, construct_service_account, construct_role, construct_role_binding,
  create_or_update_k8s_resources, create_or_update_service_account, create_or_update_role,
  create_or_update_role_binding,
}
use kyuubi_operator.Controller.Workload.{
  apply_workload, construct_desired_kyuubi_workload, create_or_update_kyuubi,
}
use kyuubi_operator.Controller.ClusterRefs.{desired_cluster_refs_config_map}
use kyuubi_operator.Controller.ConfigMaps.{
  Orders, apply_config_map, construct_kyuubi_config_map, create_or_update_kyuubi_configmap,
  create_or_update_cluster_refs_configmap,
}
use kyuubi_operator.Controller.Services.{
  apply_service, construct_desired_service, create_or_update_service,
}
use kyuubi_operator.Controller.Status.{exposed_infos, update_kyuubi_cluster_status}
use kyuubi_operator.Controller.Status.Published.{update_kyuubi_cluster_status_idle}
use kyuubi_operator.Controller.Reconcile.{create_or_update_clusters}

module _ (C : Client) where
  -- The client shows a config map with the contents of the desired one.
  pub record IsApplied (desired : ConfigMap) (w : C.World) : Type 0 where
    pub existing : ConfigMap
    pub shown : Shows C Kind.config_map (object_key Kind.config_map desired) w existing
    pub desired-IsMap : IsMap (entries desired.contents)
    pub existing-IsMap : IsMap (entries existing.contents)
    pub same : SameMap (entries desired.contents) (entries existing.contents)

  pub ensure_idle :
      (k : Kind) (desired existing : Obj k) (w : C.World)
      → IsQuiet C
      → Shows C k (object_key k desired) w existing
      → ensure C k desired w ≡ (ok tt, w)
  unfolding ensure
  ensure_idle k desired existing w q e = ground (arith, q k (object_key k desired) w)

  apply_config_map_idle :
      (range : Order) (rounds : ℕ) (desired : ConfigMap) (w : C.World)
      → IsQuiet C
      → IsRange range
      → IsApplied desired w
      → apply_config_map C range rounds desired w ≡ (ok tt, w)
  unfolding apply_config_map
  apply_config_map_idle range rounds desired w q r a = ground (
    arith,
    q Kind.config_map (object_key Kind.config_map desired) w,
    a.shown,
    (compare_conf_iff range (entries desired.contents) (entries a.existing.contents) r
          a.desired-IsMap a.existing-IsMap).1
        a.same,
  )

  pub apply_workload_idle :
      (desired existing : StatefulSet) (w : C.World)
      → IsQuiet C
      → Shows C Kind.stateful_set (object_key Kind.stateful_set desired) w existing
      → spec_equal existing.spec desired.spec ≡ true
      → apply_workload C desired w ≡ (ok tt, w)
  unfolding apply_workload
  apply_workload_idle desired existing w q e s =
      ground (arith, q Kind.stateful_set (object_key Kind.stateful_set desired) w)

  pub apply_service_idle :
      (desired existing : Service) (w : C.World)
      → IsQuiet C
      → Shows C Kind.service (object_key Kind.service desired) w existing
      → apply_service C desired w ≡ (ok existing, w)
  unfolding apply_service
  apply_service_idle desired existing w q e =
      ground (arith, q Kind.service (object_key Kind.service desired) w)

module _ (L : Library) (C : Client) (orders : Orders) (rounds : ℕ) (kyuubi : KyuubiCluster) where
  -- All objects of the cluster are in place, and the status exposes the ports of the service.
  pub record IsSettled (w : C.World) : Type 0 where
    pub service_account : ServiceAccount
    pub account-shown :
        let key = object_key Kind.service_account (construct_service_account L kyuubi).0 in
        Shows C Kind.service_account key w service_account
    pub role : Role
    pub role-shown :
        let key = object_key Kind.role (construct_role L kyuubi).0 in Shows C Kind.role key w role
    pub role_binding : RoleBinding
    pub binding-shown :
        let key = object_key Kind.role_binding (construct_role_binding L kyuubi).0 in
        Shows C Kind.role_binding key w role_binding
    pub kyuubi_conf : IsApplied C (construct_kyuubi_config_map L orders.kyuubi_conf kyuubi).0 w
    pub desired_refs : ConfigMap
    pub refs_made : desired_cluster_refs_config_map L orders.refs kyuubi ≡ inr desired_refs
    pub refs_conf : IsApplied C desired_refs w
    pub workload : StatefulSet
    pub workload-shown :
        let key = object_key Kind.stateful_set (construct_desired_kyuubi_workload L kyuubi).0 in
        Shows C Kind.stateful_set key w workload
    pub workload_same :
        spec_equal workload.spec (construct_desired_kyuubi_workload L kyuubi).0.spec ≡ true
    pub service : Service
    pub service-shown :
        let key = object_key Kind.service (construct_desired_service L kyuubi).0 in
        Shows C Kind.service key w service
    pub others-IsMap : All (λ info. IsMap info.service_port.others) (exposed_infos kyuubi service)
    pub published : kyuubi.status.exposed_infos ≡ some (exposed_infos kyuubi service)

  -- Where the desired config map is made, it is applied.
  pub refs_method :
      (desired : ConfigMap)
      → desired_cluster_refs_config_map L orders.refs kyuubi ≡ inr desired
      → create_or_update_cluster_refs_configmap L C orders rounds kyuubi
        ≡ apply_config_map C orders.refs_compare rounds desired
  unfolding create_or_update_cluster_refs_configmap
  refs_method desired e = rw (e, create_or_update_cluster_refs_configmap)

  -- Where it cannot be made, that is the error.
  pub refs_refused :
      (x : Error)
      → desired_cluster_refs_config_map L orders.refs kyuubi ≡ inl x
      → create_or_update_cluster_refs_configmap L C orders rounds kyuubi ≡ raise x
  unfolding create_or_update_cluster_refs_configmap
  refs_refused x e = rw (e, create_or_update_cluster_refs_configmap)

  -- If nobody else acts, and the client shows all objects as the operator wants them, then a further
  -- call of `createOrUpdateClusters` returns no error and leaves the world as it was: it writes
  -- nothing, whatever the orders of the comparisons.
  pub create_or_update_clusters_idle :
      (w : C.World)
      → IsQuiet C
      → IsRange orders.kyuubi_compare
      → IsRange orders.refs_compare
      → IsSettled w
      → create_or_update_clusters L C orders rounds kyuubi w ≡ (ok tt, w)
  unfolding create_or_update_clusters create_or_update_k8s_resources
      create_or_update_service_account create_or_update_role create_or_update_role_binding
      create_or_update_kyuubi_configmap create_or_update_kyuubi create_or_update_service
  create_or_update_clusters_idle w q r r' s =
      >>-ok (create_or_update_k8s_resources L C kyuubi) _ (
        >>-ok (create_or_update_service_account L C kyuubi) _
          (ensure_idle C Kind.service_account _ s.service_account w q s.account-shown)
        ∙ >>-ok (create_or_update_role L C kyuubi) _
            (ensure_idle C Kind.role _ s.role w q s.role-shown)
        ∙ ensure_idle C Kind.role_binding _ s.role_binding w q s.binding-shown)
      ∙ >>-ok (create_or_update_kyuubi_configmap L C orders rounds kyuubi) _
          (apply_config_map_idle C orders.kyuubi_compare rounds _ w q r s.kyuubi_conf)
      ∙ >>-ok (create_or_update_cluster_refs_configmap L C orders rounds kyuubi) _ (
          ap (λ m. m w) (refs_method s.desired_refs s.refs_made)
          ∙ apply_config_map_idle C orders.refs_compare rounds s.desired_refs w q r' s.refs_conf)
      ∙ >>-ok (create_or_update_kyuubi L C kyuubi) _
          (apply_workload_idle C _ s.workload w q s.workload-shown s.workload_same)
      ∙ >>=-ok (create_or_update_service L C kyuubi) (update_kyuubi_cluster_status C kyuubi)
          (apply_service_idle C _ s.service w q s.service-shown)
      ∙ update_kyuubi_cluster_status_idle C kyuubi s.service w s.others-IsMap s.published
