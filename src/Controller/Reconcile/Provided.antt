-- ===== src/Controller/Reconcile/Provided.antt =====
-- The steps of `createOrUpdateClusters` provide what the operator wants for a cluster.
use kyuubi_operator.Base.{
  All-snoc, All-last, All-init, ℕ, suc, ◌≡◌, refl, ap, ◌∙◌, subst, inl, inr, List, [], ◌∷◌, ◌++◌,
  All, string_discrete,
}
use kyuubi_operator.K8s.Store.{Apart, Apart-sym, IsStore, Places, restated}
use kyuubi_operator.K8s.Held.{
  Trail, IsNew, Places-weaken, Wanted, Holds, Ends, All-keep, >>=-Ends, Places-Ends,
}
use kyuubi_operator.Controller.Reconcile.Steps.{
  IsKept, apply_workload-Places, apply_service-Places, ensure-Places, IsApplied,
}
use kyuubi_operator.Controller.Status.Sent.{update_kyuubi_cluster_status-StatusKeeps}
use kyuubi_operator.Base.Dict.{IsRange, lookup}
use kyuubi_operator.Controller.Reconcile.Wanted.{
  IsApplied-back, shared_key, refs_key, wanted_object, cluster_wanted, access, IsKept-back,
  IsRestated,
}
use kyuubi_operator.K8s.Objects.{ConfigMap, Service}
use kyuubi_operator.K8s.Equality.{spec_equal_refl}
use kyuubi_operator.Controller.Workload.{create_or_update_kyuubi, construct_desired_kyuubi_workload}
use kyuubi_operator.Controller.Services.{construct_desired_service, create_or_update_service}
use kyuubi_operator.Controller.Names.{cluster_resource_labels}
use kyuubi_operator.Controller.ConfigMaps.{
  create_or_update_kyuubi_configmap, create_or_update_cluster_refs_configmap, apply_config_map,
  Orders, construct_kyuubi_config_map,
}
use kyuubi_operator.Controller.Reconcile.Settled.{refs_method}
use kyuubi_operator.Controller.ClusterRefs.Maps.{
  desired_cluster_refs-key, desired_cluster_refs-IsMap,
}
use kyuubi_operator.Controller.ClusterRefs.{desired_cluster_refs_config_map}
use kyuubi_operator.K8s.Client.{Kind, Obj, object_key, Client, Library}
use kyuubi_operator.Api.{KyuubiCluster}
use kyuubi_operator.Controller.Rbac.{
  ensure, construct_service_account, construct_role, construct_role_binding,
  create_or_update_k8s_resources, create_or_update_service_account, create_or_update_role,
  create_or_update_role_binding,
}
use kyuubi_operator.Controller.Status.{update_kyuubi_cluster_status}
use kyuubi_operator.Controller.Reconcile.Applied.{apply_config_map-Places, HasContents}

module _ (C : Client) (S : IsStore C) (L : Library) (orders : Orders) (rounds : ℕ)
    (kyuubi : KyuubiCluster) where
  -- The status step, on a list that ends with the cluster.
  pub update_kyuubi_cluster_status-Ends :
      (w0 : C.World) (fs : List Wanted) (service : Service) (w : C.World)
      → let cluster = cluster_wanted C L orders kyuubi w0 in
        IsNew C Kind.kyuubi_cluster (object_key Kind.kyuubi_cluster kyuubi) fs
        → Trail C w0 (fs ++ cluster ∷ []) w
        → Ends C w0 (update_kyuubi_cluster_status C kyuubi service) (fs ++ cluster ∷ []) w
  update_kyuubi_cluster_status-Ends w0 fs service w d t =
      let cluster = cluster_wanted C L orders kyuubi w0 in
      let key = object_key Kind.kyuubi_cluster kyuubi in
      let (old, s, r) = All-last (Holds C w) fs cluster t.held in
      let k = update_kyuubi_cluster_status-StatusKeeps C S kyuubi old service w s in
      let again : IsRestated C key w0 (restated old k.others k.status) = record {
        old = r.old;
        was = r.was;
        others = k.others;
        uid = k.uid ∙ ap (λ o. lookup "uid" o.meta.others) r.same ∙ r.uid;
        status = k.status;
        same = ap (λ o. restated o k.others k.status) r.same;
      } in
      let kept : All (Holds C k.after) fs =
        All-keep C _ fs w k.after (λ f n. k.apart f.kind f.key n) d
          (All-init (Holds C w) fs cluster t.held) in
      let end : Trail C w0 (fs ++ cluster ∷ []) k.after = record {
        held =
            All-snoc (Holds C k.after) fs cluster kept
              (restated old k.others k.status, k.shown, again);
        others = λ j key' n.
            k.apart j key' (
              Apart-sym j key' Kind.kyuubi_cluster key
                (All-last (λ f. Apart j key' f.kind f.key) fs cluster n))
            ∙ t.others j key' n;
      } in
      record { value = tt; returns = ap (λ r. r.0) k.returns; trail = rw k.returns end }

  -- The access objects, after a way that has not touched them.
  pub create_or_update_k8s_resources-Ends :
      (w : C.World)
      → let cluster = cluster_wanted C L orders kyuubi w in
        Trail C w (cluster ∷ []) w
        → Ends C w
            (create_or_update_k8s_resources L C kyuubi)
            (access C L orders kyuubi w ++ cluster ∷ [])
            w
  unfolding create_or_update_k8s_resources create_or_update_service_account create_or_update_role
      create_or_update_role_binding construct_service_account construct_role construct_role_binding
  create_or_update_k8s_resources-Ends w0 t0 =
      let account = (construct_service_account L kyuubi).0 in
      let role = (construct_role L kyuubi).0 in
      let binding = (construct_role_binding L kyuubi).0 in
      let before = cluster_wanted C L orders kyuubi w0 ∷ [] in
      let first = wanted_object C L orders kyuubi w0 Kind.service_account account ∷ before in
      let second = wanted_object C L orders kyuubi w0 Kind.role role ∷ first in
      let step : (k : Kind) (o : Obj k) (fs : List Wanted) (w : C.World)
          → Trail C w0 fs w
          → IsNew C k (object_key k o) fs
          → Places C (ensure C k o) k (object_key k o) (IsKept C k o w0) w =
        λ k o fs w t d.
          Places-weaken C (ensure C k o) k (object_key k o) _ _ w
            (IsKept-back C L orders kyuubi w0 k o fs w t d) (ensure-Places C S k o w) in
      >>=-Ends C w0 _ _ Kind.service_account (shared_key kyuubi) _ before _ w0
        (step Kind.service_account account before w0 t0 (inl (λ e. cc), tt)) (inl (λ e. cc), tt) t0
        (λ a w1 t1.
          >>=-Ends C w0 _ _ Kind.role (shared_key kyuubi) _ first _ w1
            (step Kind.role role first w1 t1 (inl (λ e. cc), (inl (λ e. cc), tt)))
            (inl (λ e. cc), (inl (λ e. cc), tt)) t1
            (λ b w2 t2.
              Places-Ends C w0 _ Kind.role_binding (shared_key kyuubi) _ second w2
                (step Kind.role_binding binding second w2 t2
                  (inl (λ e. cc), (inl (λ e. cc), (inl (λ e. cc), tt))))
                (inl (λ e. cc), (inl (λ e. cc), (inl (λ e. cc), tt))) t2))

  pub create_or_update_kyuubi_configmap-Places :
      (w : C.World)
      → IsRange orders.kyuubi_compare
      → Places C
          (create_or_update_kyuubi_configmap L C orders (suc rounds) kyuubi)
          Kind.config_map
          (shared_key kyuubi)
          (HasContents (construct_kyuubi_config_map L orders.kyuubi_conf kyuubi).0)
          w
  unfolding create_or_update_kyuubi_configmap construct_kyuubi_config_map lookup
  create_or_update_kyuubi_configmap-Places w r =
      apply_config_map-Places C S orders.kyuubi_compare rounds
        (construct_kyuubi_config_map L orders.kyuubi_conf kyuubi).0 w r (refl, tt)

  pub create_or_update_cluster_refs_configmap-Places :
      (refs : ConfigMap) (w : C.World)
      → IsRange orders.refs_compare
      → desired_cluster_refs_config_map L orders.refs kyuubi ≡ inr refs
      → Places C
          (create_or_update_cluster_refs_configmap L C orders (suc rounds) kyuubi)
          Kind.config_map
          (refs_key kyuubi)
          (HasContents refs)
          w
  create_or_update_cluster_refs_configmap-Places refs w r e =
      rw (refs_method L C orders (suc rounds) kyuubi refs e) (
        subst
          (λ key.
            Places C (apply_config_map C orders.refs_compare (suc rounds) refs) Kind.config_map key
              (HasContents refs) w)
          (desired_cluster_refs-key L orders.refs kyuubi refs e)
          (apply_config_map-Places C S orders.refs_compare rounds refs w r
            (desired_cluster_refs-IsMap L orders.refs kyuubi refs e)))

  pub create_or_update_kyuubi-Places :
      (w0 : C.World) (fs : List Wanted) (w : C.World)
      → Trail C w0 fs w
      → IsNew C Kind.stateful_set (shared_key kyuubi) fs
      → Places C
          (create_or_update_kyuubi L C kyuubi)
          Kind.stateful_set
          (shared_key kyuubi)
          (IsApplied C (construct_desired_kyuubi_workload L kyuubi).0 w0)
          w
  unfolding create_or_update_kyuubi construct_desired_kyuubi_workload cluster_resource_labels lookup
      string_discrete
  create_or_update_kyuubi-Places w0 fs w t d =
      let desired = (construct_desired_kyuubi_workload L kyuubi).0 in
      Places-weaken C (create_or_update_kyuubi L C kyuubi) Kind.stateful_set (shared_key kyuubi) _ _
        w (IsApplied-back C L orders kyuubi w0 desired fs w t d)
        (apply_workload-Places C S desired w
          (spec_equal_refl desired.spec (refl, (refl, tt)) (refl, (refl, tt)) tt))

  pub create_or_update_service-Places :
      (w0 : C.World) (fs : List Wanted) (w : C.World)
      → Trail C w0 fs w
      → IsNew C Kind.service (shared_key kyuubi) fs
      → Places C
          (create_or_update_service L C kyuubi)
          Kind.service
          (shared_key kyuubi)
          (IsKept C Kind.service (construct_desired_service L kyuubi).0 w0)
          w
  unfolding create_or_update_service construct_desired_service
  create_or_update_service-Places w0 fs w t d =
      let desired = (construct_desired_service L kyuubi).0 in
      Places-weaken C (create_or_update_service L C kyuubi) Kind.service (shared_key kyuubi) _ _ w
        (IsKept-back C L orders kyuubi w0 Kind.service desired fs w t d)
        (apply_service-Places C S desired w)
