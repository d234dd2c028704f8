-- ===== src/Controller/Reconcile/Publishing.antt =====
-- A pass publishes the ports of a service that is there.
use kyuubi_operator.Base.{subst, List, ℕ, suc, ◌≡◌, refl, sym, ap, ◌∙◌, inr, arith}
use kyuubi_operator.Base.Dict.{IsRange}
use kyuubi_operator.K8s.Objects.{NamespacedName, ConfigMap, Service}
use kyuubi_operator.K8s.Client.{Kind, object_key, Client, Library}
use kyuubi_operator.K8s.Exec.{Exec, Outcome, ok, err, waiting, panicked, ◌>>=◌}
use kyuubi_operator.K8s.Store.{IsStore, Shows}
use kyuubi_operator.K8s.Steady.{Moves, Moves-refl, Moves-trans}
use kyuubi_operator.Api.{KyuubiCluster, ExposedInfo}
use kyuubi_operator.Controller.Rbac.{create_or_update_k8s_resources}
use kyuubi_operator.Controller.Workload.{create_or_update_kyuubi}
use kyuubi_operator.Controller.Services.{construct_desired_service, create_or_update_service}
use kyuubi_operator.Controller.Services.First.{
  Publishes, IsPublished, service_and_status, status-Publishes,
}
use kyuubi_operator.Controller.ClusterRefs.{desired_cluster_refs_config_map}
use kyuubi_operator.Controller.ConfigMaps.{
  Orders, create_or_update_kyuubi_configmap, create_or_update_cluster_refs_configmap,
}
use kyuubi_operator.Controller.Status.{exposed_infos}
use kyuubi_operator.Controller.Reconcile.{reconcile, create_or_update_clusters}
use kyuubi_operator.Controller.Reconcile.Requests.{IsPlain}
use kyuubi_operator.Controller.Reconcile.Steps.{service_found}
use kyuubi_operator.Controller.Reconcile.Wanted.{shared_key}
use kyuubi_operator.Controller.Reconcile.Owned.{
  IsOwned, not-IsOwned, access_moves, conf_moves, refs_moves, workload_moves,
}
use kyuubi_operator.Controller.Reconcile.Whole.{reconcile-Ends, reconcile_shown}

module _ (C : Client) (Q : C.World → Type 0) where
  -- Where some steps return without an error, they leave a world with a property.
  abbrev Leaves : Exec C.World (Unit {0}) → C.World → Type 0
  Leaves m w = (m w).0 ≡ ok tt → Q (m w).1

  >>=-Leaves :
      {IsMine : Kind → NamespacedName → Type 0} {A : Type 0} (m : Exec C.World A)
      (f : A → Exec C.World (Unit {0})) (w0 w : C.World)
      → Moves C IsMine w0 w
      → Moves C IsMine w (m w).1
      → ((a : A) (w' : C.World) → Moves C IsMine w0 w' → Leaves (f a) w')
      → Leaves (m >>= f) w
  >>=-Leaves {A = A} m f w0 w before step next h = ends (m w).0 refl
    where
      ends : (r : Outcome A) → (m w).0 ≡ r → Q ((m >>= f) w).1
      ends (ok a) e =
          let same : (m >>= f) w ≡ f a (m w).1 = ground (arith, e) in
          rw same
            (next a (m w).1 (Moves-trans C w0 w (m w).1 before step) (ap (λ r. r.0) (sym same) ∙ h))
      ends (err x) e = absurd (ground (arith, e, h))
      ends waiting e = absurd (ground (arith, e, h))
      ends panicked e = absurd (ground (arith, e, h))

module _ (C : Client) (S : IsStore C) (L : Library) (orders : Orders) (rounds : ℕ)
    (kyuubi : KyuubiCluster) (service : Service) where
  abbrev infos : List ExposedInfo
  infos = exposed_infos kyuubi service

  -- The last two steps, after steps that have left the cluster and the service as they were.
  last_steps :
      (w0 w : C.World)
      → Shows C Kind.kyuubi_cluster (object_key Kind.kyuubi_cluster kyuubi) w0 kyuubi
      → Shows C Kind.service (shared_key kyuubi) w0 service
      → Moves C (IsOwned kyuubi) w0 w
      → Publishes C kyuubi (service_and_status L C kyuubi) infos service w
  unfolding create_or_update_service construct_desired_service
  last_steps w0 w s t m =
      let (there, shown, same) = m.steady Kind.service (shared_key kyuubi) service t in
      let here : Shows C Kind.service (shared_key kyuubi) w service =
        subst (Shows C Kind.service (shared_key kyuubi) w) same shown in
      let cluster : Shows C Kind.kyuubi_cluster (object_key Kind.kyuubi_cluster kyuubi) w kyuubi =
        m.confined Kind.kyuubi_cluster _ (not-IsOwned kyuubi _) ∙ s in
      status-Publishes L C S kyuubi service service w w
        (service_found C S (construct_desired_service L kyuubi).0 service w here) cluster
        (rw (S.keyed Kind.service (shared_key kyuubi) w service here) here)

  clusters-Leaves :
      (w : C.World)
      → Shows C Kind.kyuubi_cluster (object_key Kind.kyuubi_cluster kyuubi) w kyuubi
      → Shows C Kind.service (shared_key kyuubi) w service
      → Leaves C
          (IsPublished C kyuubi infos service)
          (create_or_update_clusters L C orders rounds kyuubi)
          w
  unfolding create_or_update_clusters
  clusters-Leaves w s t =
      let P = IsPublished C kyuubi infos service in
      >>=-Leaves C P (create_or_update_k8s_resources L C kyuubi) _ w w (Moves-refl C w)
        (access_moves C S L orders rounds kyuubi w)
        (λ a w1 m1.
          >>=-Leaves C P (create_or_update_kyuubi_configmap L C orders rounds kyuubi) _ w w1 m1
            (conf_moves C S L orders rounds kyuubi w1)
            (λ b w2 m2.
              >>=-Leaves C P (create_or_update_cluster_refs_configmap L C orders rounds kyuubi) _ w
                w2 m2 (refs_moves C S L orders rounds kyuubi w2)
                (λ c w3 m3.
                  >>=-Leaves C P (create_or_update_kyuubi L C kyuubi) _ w w3 m3
                    (workload_moves C S L orders rounds kyuubi w3)
                    (λ d w4 m4 h. (last_steps w w4 s t m4).1))))

module _ (C : Client) (S : IsStore C) (L : Library) (orders : Orders) where
  -- On an API server with no other clients and no failures, for a plain request whose cluster and the
  -- service of that cluster are there, whatever the StatefulSet and the other objects are: if the
  -- references give a config map, the loops of the comparisons visit each entry once and each poll has at
  -- least one round, Reconcile returns no error, and afterwards the status of the cluster exposes the
  -- ports of the service. The cluster is as it was but for its status and what the API server keeps in
  -- its meta data, and the service is as it was.
  pub reconcile-Publishes :
      (rounds : ℕ) (req : NamespacedName) (kyuubi : KyuubiCluster) (service : Service)
      (refs : ConfigMap) (w : C.World)
      → IsPlain L req
      → Shows C Kind.kyuubi_cluster req w kyuubi
      → Shows C Kind.service (shared_key kyuubi) w service
      → IsRange orders.kyuubi_compare
      → IsRange orders.refs_compare
      → desired_cluster_refs_config_map L orders.refs kyuubi ≡ inr refs
      → Publishes C kyuubi
          (reconcile L C orders (suc rounds) req)
          (exposed_infos kyuubi service)
          service
          w
  reconcile-Publishes rounds req kyuubi service refs w p s t r r' e =
      let there : Shows C Kind.kyuubi_cluster (object_key Kind.kyuubi_cluster kyuubi) w kyuubi =
        rw (S.keyed Kind.kyuubi_cluster req w kyuubi s) s in
      let same = reconcile_shown C S L orders (suc rounds) req kyuubi w p s in
      let ends = reconcile-Ends C S L orders rounds req kyuubi refs w p s r r' e in
      (
        ends.returns,
        rw same (
            clusters-Leaves C S L orders (suc rounds) kyuubi service w there t
              (ap (λ o. o.0) (sym same) ∙ ends.returns)),
      )
