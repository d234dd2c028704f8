-- ===== src/Controller/Reconcile/Owned.antt =====
-- The steps of a pass before the last: they change only places of objects that the operator makes.
use kyuubi_operator.Base.{ℕ, ◌≡◌, refl, ◌≢◌, ◌⊎◌, inl, inr, Sum-cases}
use kyuubi_operator.K8s.Objects.{NamespacedName}
use kyuubi_operator.K8s.Client.{Kind, Obj, object_key, Client, Library}
use kyuubi_operator.K8s.Store.{IsStore}
use kyuubi_operator.K8s.Steady.{Moves, Moves-refl, Moves-trans, >>=-Moves}
use kyuubi_operator.Api.{KyuubiCluster}
use kyuubi_operator.Controller.Rbac.{
  ensure, construct_service_account, construct_role, construct_role_binding,
  create_or_update_k8s_resources, create_or_update_service_account, create_or_update_role,
  create_or_update_role_binding,
}
use kyuubi_operator.Controller.Workload.{construct_desired_kyuubi_workload, create_or_update_kyuubi}
use kyuubi_operator.Controller.Services.{construct_desired_service, create_or_update_service}
use kyuubi_operator.Controller.ClusterRefs.{desired_cluster_refs_config_map}
use kyuubi_operator.Controller.ClusterRefs.Maps.{desired_cluster_refs-key}
use kyuubi_operator.Controller.ConfigMaps.{
  Orders, construct_kyuubi_config_map, create_or_update_kyuubi_configmap,
  create_or_update_cluster_refs_configmap,
}
use kyuubi_operator.Controller.Reconcile.Wanted.{shared_key, refs_key}
use kyuubi_operator.Controller.Reconcile.Settled.{refs_method, refs_refused}
use kyuubi_operator.Controller.Reconcile.Moves.{
  ensure-Moves, apply_workload-Moves, apply_service-Moves, apply_config_map-Moves,
}

-- The places of the objects that the operator makes for a cluster.
abbrev pub IsOwned : KyuubiCluster → Kind → NamespacedName → Type 0
IsOwned kyuubi k key =
    ((k ≢ Kind.kyuubi_cluster) × (key ≡ shared_key kyuubi))
    ⊎ ((k ≡ Kind.config_map) × (key ≡ refs_key kyuubi))

pub not-IsOwned :
    (kyuubi : KyuubiCluster) (key : NamespacedName) → ¬ IsOwned kyuubi Kind.kyuubi_cluster key
not-IsOwned kyuubi key (inl (n, _)) = n refl
not-IsOwned kyuubi key (inr (e, _)) = kinds_apart e
  where
    kinds_apart : ¬ (Kind.kyuubi_cluster ≡ Kind.config_map)
    kinds_apart e = cc

module _ (C : Client) (S : IsStore C) (L : Library) (orders : Orders) (rounds : ℕ)
    (kyuubi : KyuubiCluster) where
  pub access_moves :
      (w : C.World) → Moves C (IsOwned kyuubi) w (create_or_update_k8s_resources L C kyuubi w).1
  unfolding create_or_update_k8s_resources create_or_update_service_account create_or_update_role
      create_or_update_role_binding construct_service_account construct_role construct_role_binding
  access_moves w =
      let step : (k : Kind) (o : Obj k)
          → k ≢ Kind.kyuubi_cluster
          → object_key k o ≡ shared_key kyuubi
          → (w' : C.World) → Moves C (IsOwned kyuubi) w' (ensure C k o w').1 =
        λ k o n e w'. ensure-Moves C S k o w' (inl (n, e)) in
      >>=-Moves C (λ k key p. p) (create_or_update_service_account L C kyuubi) _ w w
        (Moves-refl C w)
        (step Kind.service_account (construct_service_account L kyuubi).0 (λ e. cc) refl w)
        (λ a w1 m1.
          >>=-Moves C (λ k key p. p) (create_or_update_role L C kyuubi) _ w w1 m1
            (step Kind.role (construct_role L kyuubi).0 (λ e. cc) refl w1)
            (λ b w2 m2.
              Moves-trans C w w2 _ m2
                (step Kind.role_binding (construct_role_binding L kyuubi).0 (λ e. cc) refl w2)))

  pub conf_moves :
      (w : C.World)
      → Moves C (IsOwned kyuubi) w (create_or_update_kyuubi_configmap L C orders rounds kyuubi w).1
  unfolding create_or_update_kyuubi_configmap construct_kyuubi_config_map
  conf_moves w =
      apply_config_map-Moves C S orders.kyuubi_compare rounds
        (construct_kyuubi_config_map L orders.kyuubi_conf kyuubi).0 w (inl (λ e. cc, refl))

  pub refs_moves :
      (w : C.World)
      → Moves C
          (IsOwned kyuubi)
          w
          (create_or_update_cluster_refs_configmap L C orders rounds kyuubi w).1
  refs_moves w = elim (Sum-cases (desired_cluster_refs_config_map L orders.refs kyuubi)) [
    | inl (x, e) ↦ rw (refs_refused L C orders rounds kyuubi x e) (Moves-refl C w)
    | inr (refs, e) ↦ rw (refs_method L C orders rounds kyuubi refs e) (
        apply_config_map-Moves C S orders.refs_compare rounds refs w
          (inr (refl, desired_cluster_refs-key L orders.refs kyuubi refs e)))
  ]

  pub workload_moves :
      (w : C.World) → Moves C (IsOwned kyuubi) w (create_or_update_kyuubi L C kyuubi w).1
  unfolding create_or_update_kyuubi construct_desired_kyuubi_workload
  workload_moves w =
      apply_workload-Moves C S (construct_desired_kyuubi_workload L kyuubi).0 w
        (inl (λ e. cc, refl))

  pub service_moves :
      (w : C.World) → Moves C (IsOwned kyuubi) w (create_or_update_service L C kyuubi w).1
  unfolding create_or_update_service construct_desired_service
  service_moves w =
      apply_service-Moves C S (construct_desired_service L kyuubi).0 w (inl (λ e. cc, refl))
