-- ===== src/Controller/Reconcile/Wanted.antt =====
-- What the operator wants for a cluster.
use kyuubi_operator.Base.{◌≡◌, sym, ◌∙◌, inl, inr, List, [], ◌∷◌, ◌++◌}
use kyuubi_operator.K8s.Held.{Trail, IsNew, Wanted}
use kyuubi_operator.Controller.Reconcile.Steps.{IsKept, IsApplied}
use kyuubi_operator.K8s.Objects.{ConfigMap, NamespacedName, StatefulSet}
use kyuubi_operator.Controller.Services.{construct_desired_service}
use kyuubi_operator.K8s.Client.{Kind, Obj, object_key, Client, Library}
use kyuubi_operator.Api.{KyuubiCluster, KyuubiClusterStatus}
use kyuubi_operator.Base.Dict.{Dict}
use kyuubi_operator.K8s.Store.{Shows, SameUid, restated}
use kyuubi_operator.Controller.Rbac.{
  construct_service_account, construct_role, construct_role_binding,
}
use kyuubi_operator.Controller.Names.{
  cluster_resource_name, nine_resource_name, default_cluster_refs_name_suffix,
}
use kyuubi_operator.Controller.Workload.{construct_desired_kyuubi_workload}
use kyuubi_operator.Controller.ConfigMaps.{Orders, construct_kyuubi_config_map}
use kyuubi_operator.Controller.Reconcile.Applied.{HasContents}

abbrev pub wanted_map : NamespacedName → ConfigMap → Wanted
wanted_map key desired = record { kind = Kind.config_map; key = key; IsGood = HasContents desired }

module _ (kyuubi : KyuubiCluster) where
  -- The key that the objects of the cluster share, and that of the config map for the references.
  abbrev pub shared_key : NamespacedName
  shared_key = record { namespace = kyuubi.meta.namespace; name = cluster_resource_name kyuubi [] }

  abbrev pub refs_key : NamespacedName
  refs_key = record {
    namespace = kyuubi.meta.namespace;
    name = nine_resource_name kyuubi (default_cluster_refs_name_suffix ∷ []);
  }

-- A cluster that is the one shown at a key in the world `w0`, but for its status and what the API
-- server keeps in its meta data.
pub record IsRestated (C : Client) (key : NamespacedName) (w0 : C.World) (cluster : KyuubiCluster)
    : Type 0 where
  pub old : KyuubiCluster
  pub was : Shows C Kind.kyuubi_cluster key w0 old
  pub others : Dict
  pub uid : SameUid others old
  pub status : KyuubiClusterStatus
  pub same : cluster ≡ restated old others status

module _ (C : Client) (L : Library) (orders : Orders) (kyuubi : KyuubiCluster) (w0 : C.World) where
  -- The object that was there at first, or the desired one.
  abbrev pub wanted_object : (k : Kind) → Obj k → Wanted
  wanted_object k desired = record {
    kind = k;
    key = shared_key kyuubi;
    IsGood = IsKept C k desired w0;
  }

  abbrev pub wanted_workload : Wanted
  wanted_workload = record {
    kind = Kind.stateful_set;
    key = shared_key kyuubi;
    IsGood = IsApplied C (construct_desired_kyuubi_workload L kyuubi).0 w0;
  }

  -- The cluster itself.
  abbrev pub cluster_wanted : Wanted
  cluster_wanted = record {
    kind = Kind.kyuubi_cluster;
    key = object_key Kind.kyuubi_cluster kyuubi;
    IsGood = IsRestated C (object_key Kind.kyuubi_cluster kyuubi) w0;
  }

  abbrev pub access : List Wanted
  access =
      wanted_object Kind.role_binding (construct_role_binding L kyuubi).0
      ∷ wanted_object Kind.role (construct_role L kyuubi).0
      ∷ wanted_object Kind.service_account (construct_service_account L kyuubi).0
      ∷ []

  abbrev pub conf_map : Wanted
  conf_map =
      wanted_map (shared_key kyuubi) (construct_kyuubi_config_map L orders.kyuubi_conf kyuubi).0

  -- The objects that the operator wants for the cluster.
  abbrev pub objects : ConfigMap → List Wanted
  objects refs =
      wanted_object Kind.service (construct_desired_service L kyuubi).0
      ∷ wanted_workload
      ∷ wanted_map (refs_key kyuubi) refs
      ∷ conf_map
      ∷ access

  -- The cluster is none of them.
  pub objects_apart :
      (refs : ConfigMap)
      → IsNew C Kind.kyuubi_cluster (object_key Kind.kyuubi_cluster kyuubi) (objects refs)
  objects_apart refs = (
    inl (λ e. cc),
    (
      inl (λ e. cc),
      (inl (λ e. cc), (inl (λ e. cc), (inl (λ e. cc), (inl (λ e. cc), (inl (λ e. cc), tt))))),
    ),
  )

  -- All that the operator wants, and the cluster.
  abbrev pub all_wanted : ConfigMap → List Wanted
  all_wanted refs = objects refs ++ cluster_wanted ∷ []

  -- What was not touched since the start is kept since then.
  pub IsKept-back :
      (k : Kind) (desired : Obj k) (fs : List Wanted) (w : C.World)
      → Trail C w0 fs w
      → IsNew C k (object_key k desired) fs
      → (o : Obj k) → IsKept C k desired w o
      → IsKept C k desired w0 o
  IsKept-back k desired fs w t d o (inl (e, m)) =
      inl (e, sym (t.others k (object_key k desired) d) ∙ m)
  IsKept-back k desired fs w t d o (inr s) = inr (sym (t.others k (object_key k desired) d) ∙ s)

  pub IsApplied-back :
      (desired : StatefulSet) (fs : List Wanted) (w : C.World)
      → Trail C w0 fs w
      → IsNew C Kind.stateful_set (object_key Kind.stateful_set desired) fs
      → (o : StatefulSet) → IsApplied C desired w o
      → IsApplied C desired w0 o
  IsApplied-back desired fs w t d o a =
      let back = sym (t.others Kind.stateful_set (object_key Kind.stateful_set desired) d) in
      record {
        same = a.same;
        origin = elim a.origin [
          | inl s ↦ inl (back ∙ s)
          | inr (e, r) ↦ elim r [
            | inl missing ↦ inr (e, inl (back ∙ missing))
            | inr (old, s, differs) ↦ inr (e, inr (old, back ∙ s, differs))
          ]
        ];
      }
