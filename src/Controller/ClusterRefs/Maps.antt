-- ===== src/Controller/ClusterRefs/Maps.antt =====
-- The data of the config map of the cluster references is a map: no key occurs twice.
use kyuubi_operator.K8s.Objects.{NamespacedName, ConfigMap}
use kyuubi_operator.K8s.Client.{Kind, object_key, Library, Error}
use kyuubi_operator.Base.{
  String, ℕ, suc, ◌≡◌, refl, sym, ◌∙◌, subst, ◌⊎◌, inl, inr, Option, none, some, List, [], ◌∷◌,
  arith, Sum-cases,
}
use kyuubi_operator.Base.Dict.{Dict, Order, IsMap, entries, insert}
use kyuubi_operator.Base.Dict.Laws.{insert-IsMap}
use kyuubi_operator.Controller.Names.{default_spark_conf_file}
use kyuubi_operator.Controller.Utils.{map2_string}
use kyuubi_operator.Api.{ClusterType, ClusterRef, KyuubiCluster}
use kyuubi_operator.Controller.ClusterRefs.{
  default_cluster_refs_name_suffix, nine_resource_name, spark_conf, case_data, ref_loop, refs_data,
  hdfs_sites, desired_cluster_refs_config_map,
}
use kyuubi_operator.Controller.ClusterRefs.Errors.{
  ref_loop_next, ref_loop_stop, ref_loop_nil, refs_object, desired_of_data, desired_of_error,
}

inr_inj : {x y : Dict} → ◌≡◌ {A = Error ⊎ Dict} (inr x) (inr y) → x ≡ y
inr_inj e = ground arith

module _ (L : Library) (orders : ℕ → Order) (kyuubi : KyuubiCluster)
    (sites : Option Dict × Option Dict) where
  case_data-IsMap :
      (t : ClusterType) (n : ℕ) (cluster : ClusterRef) (contents d : Dict)
      → case_data L orders kyuubi sites t n cluster contents ≡ inr d
      → IsMap contents
      → IsMap d
  unfolding case_data
  case_data-IsMap ClusterType.spark n cluster contents d e u =
      elim (Sum-cases (spark_conf L (orders n) kyuubi cluster.spark)) [
        | inl (x, p) ↦ absurd (ground arith)
        | inr (conf, p) ↦ subst IsMap (spark_result conf p) (insert-IsMap _ _ contents u)
      ]
    where
      spark_result :
          (conf : Dict)
          → spark_conf L (orders n) kyuubi cluster.spark ≡ inr conf
          → insert default_spark_conf_file (map2_string (orders (suc n)) conf) contents ≡ d
      spark_result conf p = ground arith
  case_data-IsMap ClusterType.hdfs n cluster contents d e u =
      subst IsMap (inr_inj e) (insert-IsMap _ _ _ (insert-IsMap _ _ contents u))
  case_data-IsMap ClusterType.metastore n cluster contents d e u =
      subst IsMap (inr_inj e) (insert-IsMap _ _ contents u)
  case_data-IsMap ClusterType.flink n cluster contents d e u = subst IsMap (inr_inj e) u

  ref_loop-IsMap :
      (n : ℕ) (refs : List ClusterRef) (contents d : Dict)
      → ref_loop L orders kyuubi sites n refs contents ≡ inr d
      → IsMap contents
      → IsMap d
  ref_loop-IsMap n [] contents d e u =
      subst IsMap (inr_inj (sym (ref_loop_nil L orders kyuubi sites n contents) ∙ e)) u
  ref_loop-IsMap n (cluster ∷ rest) contents d e u =
      elim (Sum-cases (case_data L orders kyuubi sites cluster.type n cluster contents)) [
        | inl (x, p) ↦
            absurd (ground (arith, ref_loop_stop L orders kyuubi sites n cluster rest contents x p))
        | inr (c, p) ↦
            ref_loop-IsMap (suc (suc n)) rest c d
              (sym (ref_loop_next L orders kyuubi sites n cluster rest contents c p refl) ∙ e)
              (case_data-IsMap cluster.type n cluster contents c p u)
      ]

-- The config map that the operator wants has no key twice.
pub desired_cluster_refs-IsMap :
    (L : Library) (orders : ℕ → Order) (kyuubi : KyuubiCluster) (refs : ConfigMap)
    → desired_cluster_refs_config_map L orders kyuubi ≡ inr refs
    → IsMap (entries refs.contents)
desired_cluster_refs-IsMap L orders kyuubi refs e = elim (Sum-cases (refs_data L orders kyuubi)) [
  | inl (x, p) ↦ absurd (ground (arith, desired_of_error L orders kyuubi x p))
  | inr (d, p) ↦
      let c : refs.contents ≡ some d =
        refs_contents d (sym (desired_of_data L orders kyuubi d p) ∙ e) in
      rw c (
        ref_loop-IsMap L orders kyuubi (hdfs_sites (none, none) kyuubi.spec.cluster_refs) 0
          kyuubi.spec.cluster_refs [] d p tt)
]
  where
    refs_contents : (d : Dict) → refs_object L orders kyuubi d ≡ inr refs → refs.contents ≡ some d
    refs_contents d q = ground arith

key_of :
    {a a' b b' : String}
    → a ≡ a'
    → b ≡ b'
    → ◌≡◌ {A = NamespacedName}
        (record { namespace = a; name = b })
        (record { namespace = a'; name = b' })
key_of p q = rw (p, q) refl

-- The config map that the operator wants has the key of the cluster's references.
pub desired_cluster_refs-key :
    (L : Library) (orders : ℕ → Order) (kyuubi : KyuubiCluster) (refs : ConfigMap)
    → desired_cluster_refs_config_map L orders kyuubi ≡ inr refs
    → object_key Kind.config_map refs ≡ record {
      namespace = kyuubi.meta.namespace;
      name = nine_resource_name kyuubi (default_cluster_refs_name_suffix ∷ []);
    }
desired_cluster_refs-key L orders kyuubi refs e = elim (Sum-cases (refs_data L orders kyuubi)) [
  | inl (x, p) ↦ absurd (ground (arith, desired_of_error L orders kyuubi x p))
  | inr (d, p) ↦ refs_key d (sym (desired_of_data L orders kyuubi d p) ∙ e)
]
  where
    refs_key :
        (d : Dict)
        → refs_object L orders kyuubi d ≡ inr refs
        → object_key Kind.config_map refs ≡ record {
          namespace = kyuubi.meta.namespace;
          name = nine_resource_name kyuubi (default_cluster_refs_name_suffix ∷ []);
        }
    refs_key d q =
        let n : refs.meta.namespace ≡ kyuubi.meta.namespace = ground arith in
        let m : refs.meta.name ≡ nine_resource_name kyuubi (default_cluster_refs_name_suffix ∷ []) =
          ground arith in
        key_of n m
