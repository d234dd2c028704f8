-- ===== src/Controller/Reconcile/Requests.antt =====
-- Which requests lead to which actions.
use kyuubi_operator.Base.{
  ℕ, String, ◌<>◌, ◌≡◌, refl, ◌⊎◌, inl, inr, true, some, [], ◌∷◌, arith, ◌==◌, if◌then◌else◌,
}
use text.Mathlib.TextLemmas.{cons-append, nil-append}
use kyuubi_operator.Base.Text.{split}
use kyuubi_operator.Base.Text.Laws.{Lacks, split-append, split_lacking}
use kyuubi_operator.K8s.Objects.{NamespacedName}
use kyuubi_operator.K8s.Client.{Reply, Kind, Client, Library, Error, found, failed}
use kyuubi_operator.K8s.Exec.{Outcome, ok, err, raise, ◌>>◌}
use kyuubi_operator.Api.{KyuubiCluster}
use kyuubi_operator.Controller.ClusterRefs.{nil_defaults}
use kyuubi_operator.Controller.ClusterRefs.Errors.{desired_of_lacking, any_lacks}
use kyuubi_operator.Controller.Rbac.{create_or_update_k8s_resources}
use kyuubi_operator.Controller.ConfigMaps.{
  Orders, create_or_update_kyuubi_configmap, create_or_update_cluster_refs_configmap,
}
use kyuubi_operator.Controller.Reconcile.Settled.{refs_refused}
use kyuubi_operator.Controller.Reconcile.{request_name, create_or_update_clusters, reconcile}

-- `NamespacedName.String`, with a namespace and a name that have no slash.
pub record IsPlain (L : Library) (req : NamespacedName) : Type 0 where
  pub sprint : L.sprint req ≡ req.namespace <> ("/" <> req.name)
  pub namespace : Lacks b'/' req.namespace
  pub name : Lacks b'/' req.name

split_slash :
    (s t : String) → Lacks b'/' s → Lacks b'/' t → split b'/' (s <> ("/" <> t)) ≡ s ∷ t ∷ []
split_slash s t h g =
    rw cons-append
      (rw nil-append (rw (split-append b'/' "/" s t refl h) (rw (split_lacking b'/' t g))))

-- The second piece of a plain request is its name.
pub request_name-eq-name :
    (L : Library) (req : NamespacedName) → IsPlain L req → request_name L req ≡ some req.name
unfolding request_name
request_name-eq-name L req p =
    rw (p.sprint) (rw (split_slash req.namespace req.name p.namespace p.name))

pub Reply-found :
    {A : Type 0} (r : Reply A) → ((a : A) × (r ≡ found a)) ⊎ ((e : Error) × (r ≡ failed e))
Reply-found (found a) = inl (a, refl)
Reply-found (failed e) = inr (e, refl)

module _ (L : Library) (C : Client) (orders : Orders) (rounds : ℕ) where
  -- What follows the Get of the cluster, which has left the world `w`.
  abbrev pub handled : NamespacedName → C.World → Reply KyuubiCluster → Outcome (Unit {0}) × C.World
  handled req w (failed e) = (err e, w)
  handled req w (found kyuubi) =
      if req.name == kyuubi.meta.name
      then create_or_update_clusters L C orders rounds kyuubi w
      else (ok tt, w)

  reconcile_name :
      (req : NamespacedName) (w : C.World) (name : String)
      → request_name L req ≡ some name
      → (kyuubi : KyuubiCluster) → (C.get Kind.kyuubi_cluster req w).0 ≡ found kyuubi
      → reconcile L C orders rounds req w ≡ (
          if name == kyuubi.meta.name
          then create_or_update_clusters L C orders rounds kyuubi
              (C.get Kind.kyuubi_cluster req w).1
          else (ok tt, (C.get Kind.kyuubi_cluster req w).1))
  unfolding reconcile
  reconcile_name req w name q kyuubi e = ground arith

  reconcile_error :
      (req : NamespacedName) (w : C.World) (e : Error)
      → (C.get Kind.kyuubi_cluster req w).0 ≡ failed e
      → reconcile L C orders rounds req w ≡ (err e, (C.get Kind.kyuubi_cluster req w).1)
  unfolding reconcile
  reconcile_error req w e h = ground arith

  -- For a plain request: a cluster that the Get finds is created or updated if it has the requested
  -- name, and otherwise nothing is done; an error of the Get is returned, also the one that says that
  -- there is no such cluster. The method never indexes out of range.
  pub reconcile_lem :
      (req : NamespacedName) (w : C.World)
      → IsPlain L req
      → reconcile L C orders rounds req w
        ≡ handled req (C.get Kind.kyuubi_cluster req w).1 (C.get Kind.kyuubi_cluster req w).0
  reconcile_lem req w p = elim (Reply-found (C.get Kind.kyuubi_cluster req w).0) [
    | inl (kyuubi, e) ↦ rw e (reconcile_name req w req.name (request_name-eq-name L req p) kyuubi e)
    | inr (x, e) ↦ rw e (reconcile_error req w x e)
  ]

  refs_fail :
      (kyuubi : KyuubiCluster)
      → any_lacks kyuubi.spec.cluster_refs ≡ true
      → create_or_update_cluster_refs_configmap L C orders rounds kyuubi ≡ raise nil_defaults
  refs_fail kyuubi h =
      refs_refused L C orders rounds kyuubi nil_defaults (desired_of_lacking L orders.refs kyuubi h)

  -- If a referenced Spark cluster has no defaults, the work ends after the access objects and the
  -- config map of Kyuubi: the error of the Spark defaults is returned, unless an earlier step fails,
  -- and neither workload, service nor status is touched.
  pub create_or_update_clusters_lacking :
      (kyuubi : KyuubiCluster)
      → any_lacks kyuubi.spec.cluster_refs ≡ true
      → create_or_update_clusters L C orders rounds kyuubi ≡ (do
        create_or_update_k8s_resources L C kyuubi
        create_or_update_kyuubi_configmap L C orders rounds kyuubi
        raise nil_defaults)
  unfolding create_or_update_clusters
  create_or_update_clusters_lacking kyuubi h = rw (refs_fail kyuubi h)
