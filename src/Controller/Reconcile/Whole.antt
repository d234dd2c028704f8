-- ===== src/Controller/Reconcile/Whole.antt =====
-- One call of `Reconcile`, on an API server with no other clients.
use kyuubi_operator.Base.{ℕ, suc, ◌≡◌, ap, ◌∙◌, sym, inr, arith}
use kyuubi_operator.Base.Dict.{IsRange}
use kyuubi_operator.K8s.Objects.{NamespacedName, ConfigMap}
use kyuubi_operator.K8s.Client.{Kind, object_key, Client, Library}
use kyuubi_operator.K8s.Store.{IsStore, Shows}
use kyuubi_operator.K8s.Held.{Ends}
use kyuubi_operator.Api.{KyuubiCluster}
use kyuubi_operator.Controller.ClusterRefs.{desired_cluster_refs_config_map}
use kyuubi_operator.Controller.ConfigMaps.{Orders}
use kyuubi_operator.Controller.Reconcile.{reconcile, create_or_update_clusters}
use kyuubi_operator.Controller.Reconcile.Requests.{IsPlain, reconcile_lem}
use kyuubi_operator.Controller.Reconcile.Wanted.{all_wanted}
use kyuubi_operator.Controller.Reconcile.Complete.{create_or_update_clusters-Ends}

module _ (C : Client) (S : IsStore C) (L : Library) (orders : Orders) where
  -- The request of a cluster that is there leads to `createOrUpdateClusters`.
  pub reconcile_shown :
      (rounds : ℕ) (req : NamespacedName) (kyuubi : KyuubiCluster) (w : C.World)
      → IsPlain L req
      → Shows C Kind.kyuubi_cluster req w kyuubi
      → reconcile L C orders rounds req w ≡ create_or_update_clusters L C orders rounds kyuubi w
  reconcile_shown rounds req kyuubi w p s =
      let name : req.name ≡ kyuubi.meta.name =
        sym (ap (λ k. k.name) (S.keyed Kind.kyuubi_cluster req w kyuubi s)) in
      reconcile_lem L C orders rounds req w p
      ∙ ground (arith, s, S.quiet Kind.kyuubi_cluster req w, name)

  -- On an API server with no other clients and no failures, for a plain request whose cluster is
  -- there: if the references of the cluster give a config map, the loops of the comparisons visit
  -- each entry once and each poll has at least one round, then `Reconcile` returns no error.
  -- Afterwards the service account, the role, the role binding and the service are there, each as it
  -- was before or, if it was missing, as desired; so are both config maps with the desired contents
  -- and the StatefulSet, the very one that was there if it had the desired specification and the
  -- desired one otherwise; the cluster is as it was but for its status, and the fields of its meta
  -- data that the API server keeps; and all other places are as before.
  pub reconcile-Ends :
      (rounds : ℕ) (req : NamespacedName) (kyuubi : KyuubiCluster) (refs : ConfigMap) (w : C.World)
      → IsPlain L req
      → Shows C Kind.kyuubi_cluster req w kyuubi
      → IsRange orders.kyuubi_compare
      → IsRange orders.refs_compare
      → desired_cluster_refs_config_map L orders.refs kyuubi ≡ inr refs
      → Ends C w (reconcile L C orders (suc rounds) req) (all_wanted C L orders kyuubi w refs) w
  reconcile-Ends rounds req kyuubi refs w p s r r' e =
      let there : Shows C Kind.kyuubi_cluster (object_key Kind.kyuubi_cluster kyuubi) w kyuubi =
        rw (S.keyed Kind.kyuubi_cluster req w kyuubi s) s in
      let same = reconcile_shown (suc rounds) req kyuubi w p s in
      let pass =
        create_or_update_clusters-Ends C S L orders rounds kyuubi refs kyuubi w there r r' e in
      record {
        value = pass.value;
        returns = ap (λ o. o.0) same ∙ pass.returns;
        trail = rw same pass.trail;
      }
