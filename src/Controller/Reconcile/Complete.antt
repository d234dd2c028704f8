-- ===== src/Controller/Reconcile/Complete.antt =====
-- One whole call of `createOrUpdateClusters`, on an API server with no other clients.
use kyuubi_operator.Base.{ℕ, suc, ◌≡◌, refl, sym, ap, ◌≢◌, inl, inr, [], ◌∷◌, ◌++◌}
use kyuubi_operator.K8s.Held.{Trail, IsNew, >>-Ends, Ends, >>=-Ends}
use kyuubi_operator.Controller.Names.Distinct.{resource_names_distinct}
use kyuubi_operator.Controller.Reconcile.{◌>>=◌, ◌>>◌, create_or_update_clusters}
use kyuubi_operator.Base.Dict.{IsRange}
use kyuubi_operator.K8s.Objects.{ConfigMap}
use kyuubi_operator.Controller.Workload.{create_or_update_kyuubi}
use kyuubi_operator.Controller.Services.{create_or_update_service}
use kyuubi_operator.Controller.ClusterRefs.{desired_cluster_refs_config_map}
use kyuubi_operator.K8s.Client.{Kind, object_key, Client, Library}
use kyuubi_operator.K8s.Store.{IsStore, Shows}
use kyuubi_operator.Api.{KyuubiCluster}
use kyuubi_operator.Controller.Rbac.{create_or_update_k8s_resources}
use kyuubi_operator.Controller.ConfigMaps.{Orders}
use kyuubi_operator.Controller.Status.{update_kyuubi_cluster_status}
use kyuubi_operator.Controller.Reconcile.Wanted.{
  access, objects, conf_map, cluster_wanted, all_wanted, wanted_map, wanted_workload, shared_key,
  refs_key, objects_apart,
}
use kyuubi_operator.Controller.Reconcile.Provided.{
  update_kyuubi_cluster_status-Ends, create_or_update_k8s_resources-Ends,
  create_or_update_kyuubi_configmap-Places, create_or_update_cluster_refs_configmap-Places,
  create_or_update_kyuubi-Places, create_or_update_service-Places,
}

module _ (C : Client) (S : IsStore C) (L : Library) (orders : Orders) (rounds : ℕ)
    (kyuubi : KyuubiCluster) where
  -- The workload, the service and the status.
  later_end :
      (w0 : C.World) (refs : ConfigMap) (w : C.World)
      → let maps =
          wanted_map (refs_key kyuubi) refs
            ∷ conf_map C L orders kyuubi w0
            ∷ access C L orders kyuubi w0
          ++ cluster_wanted C L orders kyuubi w0 ∷ [] in
        Trail C w0 maps w
        → Ends C w0
            (create_or_update_kyuubi L C kyuubi
              >> (create_or_update_service L C kyuubi >>= update_kyuubi_cluster_status C kyuubi))
            (all_wanted C L orders kyuubi w0 refs)
            w
  later_end w0 refs w t =
      let maps =
        wanted_map (refs_key kyuubi) refs
          ∷ conf_map C L orders kyuubi w0
          ∷ access C L orders kyuubi w0
        ++ cluster_wanted C L orders kyuubi w0 ∷ [] in
      let more = wanted_workload C L orders kyuubi w0 ∷ maps in
      let six : IsNew C Kind.stateful_set (shared_key kyuubi) maps = (
        inl (λ e. cc),
        (inl (λ e. cc), (inl (λ e. cc), (inl (λ e. cc), (inl (λ e. cc), (inl (λ e. cc), tt))))),
      ) in
      let seven : IsNew C Kind.service (shared_key kyuubi) more = (
        inl (λ e. cc),
        (
          inl (λ e. cc),
          (inl (λ e. cc), (inl (λ e. cc), (inl (λ e. cc), (inl (λ e. cc), (inl (λ e. cc), tt))))),
        ),
      ) in
      >>=-Ends C w0 _ _ Kind.stateful_set (shared_key kyuubi) _ maps _ w
        (create_or_update_kyuubi-Places C S L orders rounds kyuubi w0 maps w t six) six t
        (λ a w1 t1.
          >>=-Ends C w0 _ _ Kind.service (shared_key kyuubi) _ more _ w1
            (create_or_update_service-Places C S L orders rounds kyuubi w0 more w1 t1 seven) seven
            t1
            (λ service w2 t2.
              update_kyuubi_cluster_status-Ends C S L orders rounds kyuubi w0
                (objects C L orders kyuubi w0 refs) service w2
                (objects_apart C L orders kyuubi w0 refs) t2))

  names_apart : refs_key kyuubi ≢ shared_key kyuubi
  names_apart e = (resource_names_distinct kyuubi kyuubi).2 (sym (ap (λ k. k.name) e))

  -- On an API server with no other clients and no failures, where the cluster is there, its
  -- references give a config map, the orders of the comparisons are orders and each poll has at least
  -- one round: `createOrUpdateClusters` returns no error, and afterwards all that the operator wants
  -- for the cluster is there: the service account, the role, the role binding and the service, each
  -- as it was before or, if it was missing, as desired; both config maps with the desired contents;
  -- and the StatefulSet, the very one that was there if it had the desired specification and the
  -- desired one otherwise. The cluster is as it was but for its status, and the fields of its meta
  -- data that the API server keeps, and at all other places the API server shows what it showed
  -- before.
  pub create_or_update_clusters-Ends :
      (refs : ConfigMap) (old : KyuubiCluster) (w : C.World)
      → Shows C Kind.kyuubi_cluster (object_key Kind.kyuubi_cluster kyuubi) w old
      → IsRange orders.kyuubi_compare
      → IsRange orders.refs_compare
      → desired_cluster_refs_config_map L orders.refs kyuubi ≡ inr refs
      → Ends C w
          (create_or_update_clusters L C orders (suc rounds) kyuubi)
          (all_wanted C L orders kyuubi w refs)
          w
  unfolding create_or_update_clusters
  create_or_update_clusters-Ends refs old w s r r' e =
      let before = access C L orders kyuubi w ++ cluster_wanted C L orders kyuubi w ∷ [] in
      let start : Trail C w (cluster_wanted C L orders kyuubi w ∷ []) w = record {
        held = (
          (
            old,
            s,
            record {
              old = old;
              was = s;
              others = old.meta.others;
              uid = refl;
              status = old.status;
              same = refl;
            },
          ),
          tt,
        );
        others = λ j key d. refl;
      } in
      >>-Ends C w (create_or_update_k8s_resources L C kyuubi) _ before _ w
        (create_or_update_k8s_resources-Ends C S L orders rounds kyuubi w start)
        (λ w1 t1.
          >>=-Ends C w _ _ Kind.config_map (shared_key kyuubi) _ before _ w1
            (create_or_update_kyuubi_configmap-Places C S L orders rounds kyuubi w1 r)
            (inl (λ e. cc), (inl (λ e. cc), (inl (λ e. cc), (inl (λ e. cc), tt)))) t1
            (λ a w2 t2.
              >>=-Ends C w _ _ Kind.config_map (refs_key kyuubi) _
                (conf_map C L orders kyuubi w ∷ before) _ w2
                (create_or_update_cluster_refs_configmap-Places C S L orders rounds kyuubi refs w2
                  r' e)
                (
                  inr names_apart,
                  (inl (λ e. cc), (inl (λ e. cc), (inl (λ e. cc), (inl (λ e. cc), tt)))),
                )
                t2 (λ b w3 t3. later_end w refs w3 t3)))
