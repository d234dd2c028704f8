-- ===== src/Controller/Reconcile/Reached.antt =====
-- The operator over time: passes for any requests, between which users create and change KyuubiCluster
-- resources. A deletion is no such step: after it, the API server removes the objects of the cluster.
use kyuubi_operator.Base.{ℕ, ◌≡◌, refl, ◌∙◌, ◌≢◌}
use kyuubi_operator.K8s.Objects.{NamespacedName}
use kyuubi_operator.K8s.Client.{Kind, Obj, Client, Library}
use kyuubi_operator.K8s.Store.{IsStore, Shows, Keeps}
use kyuubi_operator.K8s.Steady.{Similar, Similar-refl, Similar-trans}
use kyuubi_operator.Api.{KyuubiCluster}
use kyuubi_operator.Controller.ConfigMaps.{Orders}
use kyuubi_operator.Controller.Reconcile.{reconcile}
use kyuubi_operator.Controller.Reconcile.Confined.{IsPlace, reconcile-Moves}

module _ (C : Client) (L : Library) where
  -- One step: a pass, in any orders and with any number of rounds for its polls; or a change by users,
  -- who create and change KyuubiCluster resources, delete none of them and touch nothing else.
  pub data Step (w w' : C.World) : Type 0 where
    pass :
        (orders : Orders) (rounds : ℕ) (req : NamespacedName)
        → w' ≡ (reconcile L C orders rounds req w).1
        → Step w w'
    edit :
        ((k : Kind) (key : NamespacedName) → k ≢ Kind.kyuubi_cluster → Keeps C k key w w')
        → ((req : NamespacedName) (kyuubi : KyuubiCluster)
            → Shows C Kind.kyuubi_cluster req w kyuubi
            → (kyuubi' : KyuubiCluster) × Shows C Kind.kyuubi_cluster req w' kyuubi')
        → Step w w'

  pub data Reach (w : C.World) : C.World → Type 0 where
    here : Reach w w
    next : {u v : C.World} → Reach w u → Step u v → Reach w v

  -- The clusters that have been there on the way, and a place that belongs to one of them.
  pub data Claimed (k : Kind) (key : NamespacedName) {w : C.World}
      : (v : C.World) → Reach w v → Type 0 where
    now :
        {u v : C.World} (r : Reach w u) (s : Step u v) (req : NamespacedName)
        (kyuubi : KyuubiCluster)
        → Shows C Kind.kyuubi_cluster req u kyuubi
        → IsPlace kyuubi k key
        → Claimed k key v (next r s)
    earlier :
        {u v : C.World} (r : Reach w u) (s : Step u v)
        → Claimed k key u r
        → Claimed k key v (next r s)

module _ (C : Client) (S : IsStore C) (L : Library) where
  step_keeps :
      {u v : C.World} (k : Kind) (key : NamespacedName) (o : Obj k)
      → Step C L u v
      → k ≢ Kind.kyuubi_cluster
      → Shows C k key u o
      → (o' : Obj k) × Shows C k key v o' × Similar k o o'
  step_keeps {u} k key o (pass orders rounds req e) n s =
      rw e ((reconcile-Moves C S L orders rounds req u).steady k key o s)
  step_keeps k key o (edit keeps there) n s = (o, keeps k key n ∙ s, Similar-refl k o)

  step_apart :
      {u v : C.World} (k : Kind) (key : NamespacedName)
      → Step C L u v
      → k ≢ Kind.kyuubi_cluster
      → ((req : NamespacedName) (kyuubi : KyuubiCluster)
          → Shows C Kind.kyuubi_cluster req u kyuubi
          → ¬ IsPlace kyuubi k key)
      → Keeps C k key u v
  step_apart {u} k key (pass orders rounds req e) n none_owns = rw e (
      (reconcile-Moves C S L orders rounds req u).confined k key
        (λ (kyuubi, s, p). none_owns req kyuubi s p))
  step_apart k key (edit keeps there) n none_owns = keeps k key n

  -- On an API server without failures on which only the operator acts, and users create and change
  -- KyuubiCluster resources without deleting any, at any time later: an object of another kind that was
  -- there is there; service accounts, roles, role bindings and services are as they were, and config maps
  -- have the same meta data. And a place that has never belonged to a cluster is as it was.
  pub Reach-guarded :
      {w v : C.World} (r : Reach C L w v) (k : Kind) (key : NamespacedName)
      → k ≢ Kind.kyuubi_cluster
      → ((o : Obj k) → Shows C k key w o → (o' : Obj k) × Shows C k key v o' × Similar k o o')
        × (¬ Claimed C L k key v r → Keeps C k key w v)
  Reach-guarded here k key n = (λ o s. (o, s, Similar-refl k o), λ h. refl)
  Reach-guarded (next r step) k key n =
      let before = Reach-guarded r k key n in
      (
        λ o s.
            let (o', s', p) = before.0 o s in
            let (o'', s'', q) = step_keeps k key o' step n s' in
            (o'', s'', Similar-trans k o o' o'' p q),
        λ h.
            step_apart k key step n (λ req kyuubi s p. h (now r step req kyuubi s p))
            ∙ before.1 (λ c. h (earlier r step c)),
      )
