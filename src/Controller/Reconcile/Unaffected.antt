-- ===== src/Controller/Reconcile/Unaffected.antt =====
-- What becomes of the StatefulSet when a cluster changes.
use kyuubi_operator.Base.{ℕ, suc, ◌≡◌, sym, ap, subst, ◌∙◌, inl, inr, true, arith}
use kyuubi_operator.Base.Dict.{IsRange}
use kyuubi_operator.K8s.Objects.{NamespacedName, ConfigMap, StatefulSet}
use kyuubi_operator.K8s.Equality.{spec_equal}
use kyuubi_operator.K8s.Client.{object_key, Kind, Client, Library}
use kyuubi_operator.K8s.Store.{IsStore, Shows, shown_once}
use kyuubi_operator.K8s.Held.{Holds}
use kyuubi_operator.Api.{KyuubiCluster}
use kyuubi_operator.Controller.Workload.{construct_desired_kyuubi_workload}
use kyuubi_operator.Controller.Workload.Restated.{Alike, spec_agrees}
use kyuubi_operator.Controller.ClusterRefs.{desired_cluster_refs_config_map}
use kyuubi_operator.Controller.ConfigMaps.{Orders}
use kyuubi_operator.Controller.Reconcile.{reconcile}
use kyuubi_operator.Controller.Reconcile.Requests.{IsPlain}
use kyuubi_operator.Controller.Reconcile.Steps.{IsApplied}
use kyuubi_operator.Controller.Reconcile.Wanted.{shared_key, refs_key, conf_map, wanted_map}
use kyuubi_operator.Controller.Reconcile.Whole.{reconcile-Ends}

-- One that has the desired specification is the one that is there afterwards.
applied_same :
    (C : Client) (desired existing o : StatefulSet) (w : C.World)
    → IsApplied C desired w o
    → Shows C Kind.stateful_set (object_key Kind.stateful_set desired) w existing
    → spec_equal existing.spec desired.spec ≡ true
    → o ≡ existing
applied_same C desired existing o w a s same =
    let key = object_key Kind.stateful_set desired in
    elim a.origin [
      | inl t ↦ shown_once C Kind.stateful_set key w o existing t s
      | inr (_, inl missing) ↦ absurd (ground (arith, missing, s))
      | inr (_, inr (old, t, differs)) ↦
          let e = shown_once C Kind.stateful_set key w old existing t s in
          absurd (ground (arith, e, same, differs))
    ]

module _ (C : Client) (S : IsStore C) (L : Library) (orders : Orders) where
  -- On an API server with no other clients and no failures, let a cluster change in anything but its
  -- name, the replicas, the image and the types of its references: in its Kyuubi configuration, say,
  -- or in the settings that its references hold. If the StatefulSet that is there has the
  -- specification that was wanted before the change, then after a pass the config maps have the
  -- contents that are wanted after the change, but the StatefulSet is the one that was there. The
  -- request is plain, the references give a config map, the loops of the comparisons visit each entry
  -- once and each poll has at least one round.
  pub reconcile_unaffected :
      (rounds : ℕ) (req : NamespacedName) (before after : KyuubiCluster) (refs : ConfigMap)
      (existing : StatefulSet) (w : C.World)
      → IsPlain L req
      → Shows C Kind.kyuubi_cluster req w after
      → IsRange orders.kyuubi_compare
      → IsRange orders.refs_compare
      → desired_cluster_refs_config_map L orders.refs after ≡ inr refs
      → Alike before after
      → Shows C Kind.stateful_set (shared_key after) w existing
      → spec_equal existing.spec (construct_desired_kyuubi_workload L before).0.spec ≡ true
      → let w' = (reconcile L C orders (suc rounds) req w).1 in
        Shows C Kind.stateful_set (shared_key after) w' existing
        × Holds C w' (conf_map C L orders after w)
        × Holds C w' (wanted_map (refs_key after) refs)
  unfolding construct_desired_kyuubi_workload
  reconcile_unaffected rounds req before after refs existing w p s r r' e alike there same =
      let w' = (reconcile L C orders (suc rounds) req w).1 in
      let (_, ((o, shown, applied), (refs_map, (kyuubi_map, _)))) =
        (reconcile-Ends C S L orders rounds req after refs w p s r r' e).trail.held in
      let wanted = sym (ap (spec_equal existing.spec) (spec_agrees before after alike L)) ∙ same in
      let kept : o ≡ existing =
        applied_same C (construct_desired_kyuubi_workload L after).0 existing o w applied there
          wanted in
      (subst (Shows C Kind.stateful_set (shared_key after) w') kept shown, kyuubi_map, refs_map)
