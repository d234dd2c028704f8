-- ===== src/Controller/Reconcile/Causes.antt =====
-- The causes of the errors that `Reconcile` returns.
use kyuubi_operator.Base.{
  ℕ, ◌≡◌, ap, ◌∙◌, sym, ◌⊎◌, inl, inr, arith, Bool-cases, Option-cases, Sum-cases, ◌==◌,
}
use kyuubi_operator.K8s.Objects.{NamespacedName}
use kyuubi_operator.K8s.Client.{Kind, Client, Library, Error, found, failed}
use kyuubi_operator.K8s.Exec.{err}
use kyuubi_operator.Api.{KyuubiCluster}
use kyuubi_operator.Controller.Rbac.{
  construct_service_account, construct_role, construct_role_binding, create_or_update_k8s_resources,
  create_or_update_service_account, create_or_update_role, create_or_update_role_binding,
}
use kyuubi_operator.Controller.Workload.{construct_desired_kyuubi_workload, create_or_update_kyuubi}
use kyuubi_operator.Controller.ConfigMaps.{
  Orders, construct_kyuubi_config_map, create_or_update_kyuubi_configmap,
  create_or_update_cluster_refs_configmap,
}
use kyuubi_operator.Controller.ClusterRefs.{desired_cluster_refs_config_map}
use kyuubi_operator.Controller.Services.{construct_desired_service, create_or_update_service}
use kyuubi_operator.Controller.Reconcile.{reconcile, create_or_update_clusters, request_name}
use kyuubi_operator.Controller.Reconcile.Settled.{refs_method, refs_refused}
use kyuubi_operator.Controller.Reconcile.Requests.{Reply-found}
use kyuubi_operator.Controller.Reconcile.Runs.{
  IsClosed, Stays, >>=-Stays, ensure-Stays, apply_config_map-Stays, apply_workload-Stays,
  apply_service-Stays,
}
use kyuubi_operator.Controller.Reconcile.Blamed.{
  IsFault, Blames, >>=-Blames, ensure-Blames, apply_config_map-Blames, apply_workload-Blames,
  apply_service-Blames, update_kyuubi_cluster_status-Blames,
}

module _ (C : Client) (L : Library) (orders : Orders) (rounds : ℕ)
    (IsReached : C.World → Type 0) where
  -- A call that leaves the world has failed, or the config map of the references cannot be made.
  abbrev pub IsCause : KyuubiCluster → Error → C.World → Type 0
  IsCause kyuubi e w' =
      IsFault C IsReached e w' ⊎ (desired_cluster_refs_config_map L orders.refs kyuubi ≡ inl e)

  module _ (K : IsClosed C IsReached) where
    access-Blames :
        (kyuubi : KyuubiCluster)
        → Blames C IsReached (IsFault C IsReached) (create_or_update_k8s_resources L C kyuubi)
    unfolding create_or_update_k8s_resources create_or_update_service_account create_or_update_role
        create_or_update_role_binding
    access-Blames kyuubi =
        let account = (construct_service_account L kyuubi).0 in
        let role = (construct_role L kyuubi).0 in
        >>=-Blames C IsReached (IsFault C IsReached) (create_or_update_service_account L C kyuubi) _
          (ensure-Stays C IsReached K Kind.service_account account)
          (ensure-Blames C IsReached K Kind.service_account account)
          (λ a.
            >>=-Blames C IsReached (IsFault C IsReached) (create_or_update_role L C kyuubi) _
              (ensure-Stays C IsReached K Kind.role role)
              (ensure-Blames C IsReached K Kind.role role)
              (λ b.
                ensure-Blames C IsReached K Kind.role_binding (construct_role_binding L kyuubi).0))

    access-Stays :
        (kyuubi : KyuubiCluster) → Stays C IsReached (create_or_update_k8s_resources L C kyuubi)
    unfolding create_or_update_k8s_resources create_or_update_service_account create_or_update_role
        create_or_update_role_binding
    access-Stays kyuubi =
        >>=-Stays C IsReached (create_or_update_service_account L C kyuubi) _
          (ensure-Stays C IsReached K Kind.service_account (construct_service_account L kyuubi).0)
          (λ a.
            >>=-Stays C IsReached (create_or_update_role L C kyuubi) _
              (ensure-Stays C IsReached K Kind.role (construct_role L kyuubi).0)
              (λ b.
                ensure-Stays C IsReached K Kind.role_binding (construct_role_binding L kyuubi).0))

    refs-Blames :
        (kyuubi : KyuubiCluster)
        → Blames C IsReached
            (IsCause kyuubi)
            (create_or_update_cluster_refs_configmap L C orders rounds kyuubi)
    refs-Blames kyuubi w e r0 h =
        elim (Sum-cases (desired_cluster_refs_config_map L orders.refs kyuubi)) [
          | inl (x, q) ↦
              let r : x ≡ e = ground (arith, refs_refused L C orders rounds kyuubi x q, h) in
              inr (q ∙ ap inl r)
          | inr (refs, q) ↦
              let r = refs_method L C orders rounds kyuubi refs q in
              rw r (
                inl (
                  apply_config_map-Blames C IsReached K orders.refs_compare rounds refs w e r0
                    (ap (λ m. (m w).0) (sym r) ∙ h)))
        ]

    refs-Stays :
        (kyuubi : KyuubiCluster)
        → Stays C IsReached (create_or_update_cluster_refs_configmap L C orders rounds kyuubi)
    refs-Stays kyuubi w r0 =
        elim (Sum-cases (desired_cluster_refs_config_map L orders.refs kyuubi)) [
          | inl (x, q) ↦ rw (refs_refused L C orders rounds kyuubi x q) r0
          | inr (refs, q) ↦
              rw (refs_method L C orders rounds kyuubi refs q)
                (apply_config_map-Stays C IsReached K orders.refs_compare rounds refs w r0)
        ]

    pub create_or_update_clusters-Blames :
        (kyuubi : KyuubiCluster)
        → Blames C IsReached (IsCause kyuubi) (create_or_update_clusters L C orders rounds kyuubi)
    unfolding create_or_update_clusters create_or_update_kyuubi_configmap create_or_update_kyuubi
        create_or_update_service
    create_or_update_clusters-Blames kyuubi =
        let P = IsCause kyuubi in
        let conf = (construct_kyuubi_config_map L orders.kyuubi_conf kyuubi).0 in
        let workload = (construct_desired_kyuubi_workload L kyuubi).0 in
        let service = (construct_desired_service L kyuubi).0 in
        >>=-Blames C IsReached P (create_or_update_k8s_resources L C kyuubi) _ (access-Stays kyuubi)
          (λ w e r0 h. inl (access-Blames kyuubi w e r0 h))
          (λ a.
            >>=-Blames C IsReached P (create_or_update_kyuubi_configmap L C orders rounds kyuubi) _
              (apply_config_map-Stays C IsReached K orders.kyuubi_compare rounds conf)
              (λ w e r0 h.
                inl (
                  apply_config_map-Blames C IsReached K orders.kyuubi_compare rounds conf w e r0 h))
              (λ b.
                >>=-Blames C IsReached P
                  (create_or_update_cluster_refs_configmap L C orders rounds kyuubi) _
                  (refs-Stays kyuubi) (refs-Blames kyuubi)
                  (λ c.
                    >>=-Blames C IsReached P (create_or_update_kyuubi L C kyuubi) _
                      (apply_workload-Stays C IsReached K workload)
                      (λ w e r0 h. inl (apply_workload-Blames C IsReached K workload w e r0 h))
                      (λ d.
                        >>=-Blames C IsReached P (create_or_update_service L C kyuubi) _
                          (apply_service-Stays C IsReached K service)
                          (λ w e r0 h. inl (apply_service-Blames C IsReached K service w e r0 h))
                          (λ s w e r0 h. inl (
                            update_kyuubi_cluster_status-Blames C IsReached K kyuubi s w e r0
                              h))))))

  -- Whatever other clients do: an error that `Reconcile` returns is the one of its Get of the cluster; or
  -- it is the answer of a call of the client in a world that calls lead to from that Get on, the call
  -- leaves the very world in which `Reconcile` has ended, and it is a write, or a Get that fails otherwise
  -- than by not finding its object; or it is the one with which the config map of the references of the
  -- found cluster cannot be made. A world that calls lead to is one with every property that the world
  -- after the Get has and that all calls of the client keep.
  pub reconcile_err :
      (req : NamespacedName) (w : C.World) (e : Error)
      → IsClosed C IsReached
      → IsReached (C.get Kind.kyuubi_cluster req w).1
      → (reconcile L C orders rounds req w).0 ≡ err e
      → ((C.get Kind.kyuubi_cluster req w).0 ≡ failed e)
        ⊎ ((kyuubi : KyuubiCluster) × ((C.get Kind.kyuubi_cluster req w).0 ≡ found kyuubi)
            × IsCause kyuubi e (reconcile L C orders rounds req w).1)
  unfolding reconcile
  reconcile_err req w e K r0 h =
      let w1 = (C.get Kind.kyuubi_cluster req w).1 in
      elim (Reply-found (C.get Kind.kyuubi_cluster req w).0) [
        | inr (x, q) ↦ let r : x ≡ e = ground (arith, q, h) in inl (q ∙ ap failed r)
        | inl (kyuubi, q) ↦ elim (Option-cases (request_name L req)) [
          | inl n ↦ absurd (ground (arith, q, n, h))
          | inr (name, n) ↦ elim (Bool-cases (name == kyuubi.meta.name)) [
            | inl s ↦ inr (
              kyuubi,
              q,
              (let r : (reconcile L C orders rounds req w).1
                      ≡ (create_or_update_clusters L C orders rounds kyuubi w1).1 =
                    ground (arith, q, n, s) in
                  rw r (
                    create_or_update_clusters-Blames K kyuubi w1 e r0
                      (ground (arith, q, n, s, h)))),
            )
            | inr s ↦ absurd (ground (arith, q, n, s, h))
          ]
        ]
      ]
