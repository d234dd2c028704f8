-- ===== src/Controller/Reconcile/Confined.antt =====
-- A pass changes only the places of its cluster, whatever its outcome.
use kyuubi_operator.Base.{
  ◌∙◌, ℕ, ◌≡◌, refl, subst, ◌⊎◌, inl, inr, arith, ◌==◌, Bool-cases, Option-cases,
}
use kyuubi_operator.K8s.Objects.{NamespacedName, Service}
use kyuubi_operator.K8s.Client.{Kind, object_key, Client, Library, failed, not_found}
use kyuubi_operator.K8s.Exec.{err}
use kyuubi_operator.K8s.Store.{shown_once, IsStore, Shows, restated}
use kyuubi_operator.K8s.Steady.{
  Moves-weaken, KeepsTime, KeepsTime-refl, Similar, Moves, Moves-refl, Moves-trans, >>=-Moves,
  write-Moves,
}
use kyuubi_operator.Api.{KyuubiCluster}
use kyuubi_operator.Controller.Rbac.{create_or_update_k8s_resources}
use kyuubi_operator.Controller.Workload.{create_or_update_kyuubi}
use kyuubi_operator.Controller.Services.{create_or_update_service}
use kyuubi_operator.Controller.ConfigMaps.{
  Orders, create_or_update_kyuubi_configmap, create_or_update_cluster_refs_configmap,
}
use kyuubi_operator.Controller.Status.{update_kyuubi_cluster_status}
use kyuubi_operator.Controller.Status.Sent.{update_kyuubi_cluster_status-StatusKeeps}
use kyuubi_operator.Controller.Reconcile.{reconcile, request_name, create_or_update_clusters}
use kyuubi_operator.Controller.Reconcile.Owned.{
  IsOwned, not-IsOwned, access_moves, conf_moves, refs_moves, workload_moves, service_moves,
}

-- The places of a cluster: its own, those of the objects that share a name, and that of the config map
-- of its references.
abbrev pub IsPlace : KyuubiCluster → Kind → NamespacedName → Type 0
IsPlace kyuubi k key =
    ((k ≡ Kind.kyuubi_cluster) × (key ≡ object_key Kind.kyuubi_cluster kyuubi))
    ⊎ IsOwned kyuubi k key

module _ (C : Client) (S : IsStore C) (L : Library) (orders : Orders) (rounds : ℕ)
    (kyuubi : KyuubiCluster) where
  status_moves :
      (service : Service) (w0 w : C.World)
      → Shows C Kind.kyuubi_cluster (object_key Kind.kyuubi_cluster kyuubi) w0 kyuubi
      → Moves C (IsOwned kyuubi) w0 w
      → Moves C (IsPlace kyuubi) w (update_kyuubi_cluster_status C kyuubi service w).1
  status_moves service w0 w s m =
      let key = object_key Kind.kyuubi_cluster kyuubi in
      let there : Shows C Kind.kyuubi_cluster key w kyuubi =
        m.confined Kind.kyuubi_cluster key (not-IsOwned kyuubi key) ∙ s in
      let k = update_kyuubi_cluster_status-StatusKeeps C S kyuubi kyuubi service w there in
      let time : KeepsTime kyuubi.status k.status = elim k.timed [
        | inl t ↦ t
        | inr e ↦ rw e (KeepsTime-refl kyuubi.status)
      ] in
      let moved : Moves C (IsPlace kyuubi) w k.after =
        write-Moves C Kind.kyuubi_cluster key (restated kyuubi k.others k.status) w k.after
          (inl (refl, refl))
          (λ o t.
            subst (λ x. Similar Kind.kyuubi_cluster x (restated kyuubi k.others k.status))
              (shown_once C Kind.kyuubi_cluster key w kyuubi o there t)
              (k.others, k.status, k.uid, time, refl))
          k.shown k.apart in
      rw k.returns moved

  pub create_or_update_clusters-Moves :
      (w : C.World)
      → Shows C Kind.kyuubi_cluster (object_key Kind.kyuubi_cluster kyuubi) w kyuubi
      → Moves C (IsPlace kyuubi) w (create_or_update_clusters L C orders rounds kyuubi w).1
  unfolding create_or_update_clusters
  create_or_update_clusters-Moves w s =
      let more : (k : Kind) (key : NamespacedName) → IsOwned kyuubi k key → IsPlace kyuubi k key =
        λ k key p. inr p in
      >>=-Moves C more (create_or_update_k8s_resources L C kyuubi) _ w w (Moves-refl C w)
        (access_moves C S L orders rounds kyuubi w)
        (λ a w1 m1.
          >>=-Moves C more (create_or_update_kyuubi_configmap L C orders rounds kyuubi) _ w w1 m1
            (conf_moves C S L orders rounds kyuubi w1)
            (λ b w2 m2.
              >>=-Moves C more (create_or_update_cluster_refs_configmap L C orders rounds kyuubi) _
                w w2 m2 (refs_moves C S L orders rounds kyuubi w2)
                (λ c w3 m3.
                  >>=-Moves C more (create_or_update_kyuubi L C kyuubi) _ w w3 m3
                    (workload_moves C S L orders rounds kyuubi w3)
                    (λ d w4 m4.
                      >>=-Moves C more (create_or_update_service L C kyuubi) _ w w4 m4
                        (service_moves C S L orders rounds kyuubi w4)
                        (λ service w5 m5.
                          Moves-trans C w w5 _ (Moves-weaken C _ _ w w5 more m5)
                            (status_moves service w w5 s m5))))))

module _ (C : Client) (S : IsStore C) (L : Library) (orders : Orders) (rounds : ℕ) where
  -- The places of the clusters that the client shows for a request.
  abbrev pub IsServed : NamespacedName → C.World → Kind → NamespacedName → Type 0
  IsServed req w k key =
      (kyuubi : KyuubiCluster) × Shows C Kind.kyuubi_cluster req w kyuubi × IsPlace kyuubi k key

  -- What the Get of the cluster leads to.
  reconcile_missing :
      (req : NamespacedName) (w : C.World)
      → (C.get Kind.kyuubi_cluster req w).0 ≡ failed not_found
      → reconcile L C orders rounds req w ≡ (err not_found, w)
  unfolding reconcile
  reconcile_missing req w e = ground (arith, S.quiet Kind.kyuubi_cluster req w)

  reconcile_handles :
      (req : NamespacedName) (kyuubi : KyuubiCluster) (w : C.World)
      → Shows C Kind.kyuubi_cluster req w kyuubi
      → ((reconcile L C orders rounds req w).1 ≡ w)
        ⊎ ((reconcile L C orders rounds req w).1
            ≡ (create_or_update_clusters L C orders rounds kyuubi w).1)
  unfolding reconcile
  reconcile_handles req kyuubi w s =
      let quiet = S.quiet Kind.kyuubi_cluster req w in
      elim (Option-cases (request_name L req)) [
        | inl n ↦ inl (ground (arith, quiet))
        | inr (name, n) ↦ elim (Bool-cases (name == kyuubi.meta.name)) [
          | inl e ↦ inr (ground (arith, quiet))
          | inr e ↦ inl (ground (arith, quiet))
        ]
      ]

  -- On an API server with no other clients and no failures, whatever comes of a pass (an error, a
  -- panic, a poll that still waits): every object that was there is there afterwards; service accounts,
  -- roles, role bindings and services are as they were, config maps have the same meta data, and
  -- clusters differ in their status at most (and in what the API server keeps of their meta data), where
  -- a status that had infos, which may be an empty list, has infos afterwards and the same creation
  -- time; and nothing has changed at places that do not belong to the requested cluster.
  pub reconcile-Moves :
      (req : NamespacedName) (w : C.World)
      → Moves C (IsServed req w) w (reconcile L C orders rounds req w).1
  reconcile-Moves req w = elim (S.answers Kind.kyuubi_cluster req w) [
    | inl e ↦ rw (reconcile_missing req w e) (Moves-refl C w)
    | inr (kyuubi, s) ↦ elim (reconcile_handles req kyuubi w s) [
      | inl e ↦ rw e (Moves-refl C w)
      | inr e ↦ rw e (
          Moves-weaken C (IsPlace kyuubi) (IsServed req w) w _ (λ k key p. (kyuubi, s, p))
            (create_or_update_clusters-Moves C S L orders rounds kyuubi w
              (rw (S.keyed Kind.kyuubi_cluster req w kyuubi s) s)))
    ]
  ]
