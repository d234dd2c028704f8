-- ===== src/Controller/ClusterRefs/Errors.antt =====
-- When the config map of the cluster references cannot be made.
use kyuubi_operator.Base.{
  ℕ, suc, ◌≡◌, refl, ◌⊎◌, inl, inr, Bool, true, false, ◌||◌, Option, none, some, List, [], ◌∷◌,
  arith, if◌then◌else◌, Bool-cases, Option-cases,
}
use kyuubi_operator.Base.Dict.{Dict, Order, insert, assign_all}
use kyuubi_operator.Controller.Names.{default_spark_conf_file}
use kyuubi_operator.Controller.Utils.{map2_string}
use kyuubi_operator.K8s.Objects.{ConfigMap}
use kyuubi_operator.K8s.Client.{Library, Error}
use kyuubi_operator.Api.{ClusterType, ClusterRef, KyuubiCluster}
use kyuubi_operator.Controller.Rbac.{owned}
use kyuubi_operator.Controller.ClusterRefs.{
  nil_defaults, spark_conf, case_data, hdfs_sites, spark_base, ref_loop, refs_data,
  desired_cluster_refs_config_map, cluster_refs_meta,
}

-- A reference to a Spark cluster with no defaults.
abbrev type_lacks : ClusterType → ClusterRef → Bool
type_lacks ClusterType.spark cluster = elim cluster.spark.spark_defaults [
  | none ↦ true
  | some d ↦ false
]
type_lacks _ cluster = false

abbrev pub any_lacks : List ClusterRef → Bool
any_lacks [] = false
any_lacks (cluster ∷ rest) = type_lacks cluster.type cluster || any_lacks rest

module _ (L : Library) (orders : ℕ → Order) (kyuubi : KyuubiCluster)
    (sites : Option Dict × Option Dict) where
  case_data_fails :
      (t : ClusterType) (n : ℕ) (cluster : ClusterRef) (contents : Dict)
      → type_lacks t cluster ≡ true
      → case_data L orders kyuubi sites t n cluster contents ≡ inl nil_defaults
  unfolding case_data spark_conf
  case_data_fails ClusterType.spark n cluster contents h = ground arith
  case_data_fails _ n cluster contents h = cc

  case_data_total :
      (t : ClusterType) (n : ℕ) (cluster : ClusterRef) (contents : Dict)
      → type_lacks t cluster ≡ false
      → (d : Dict) × (case_data L orders kyuubi sites t n cluster contents ≡ inr d)
  unfolding case_data spark_conf
  case_data_total ClusterType.spark n cluster contents h =
      elim (Option-cases cluster.spark.spark_defaults) [
        | inl e ↦ absurd (ground arith)
        | inr (d, e) ↦ (
          insert default_spark_conf_file
              (map2_string (orders (suc n))
                (assign_all (orders n d) (spark_base L kyuubi cluster.spark)))
              contents,
          ground arith,
        )
      ]
  case_data_total ClusterType.hdfs n cluster contents h = (_, refl)
  case_data_total ClusterType.metastore n cluster contents h = (_, refl)
  case_data_total ClusterType.flink n cluster contents h = (_, refl)

  -- A round that succeeds hands over to the rest of the loop.
  pub ref_loop_next :
      (n : ℕ) (cluster : ClusterRef) (rest : List ClusterRef) (contents d : Dict) {r : Error ⊎ Dict}
      → case_data L orders kyuubi sites cluster.type n cluster contents ≡ inr d
      → ref_loop L orders kyuubi sites (suc (suc n)) rest d ≡ r
      → ref_loop L orders kyuubi sites n (cluster ∷ rest) contents ≡ r
  unfolding ref_loop
  ref_loop_next n cluster rest contents d e h = rw (e, ref_loop) h

  pub ref_loop_stop :
      (n : ℕ) (cluster : ClusterRef) (rest : List ClusterRef) (contents : Dict) (x : Error)
      → case_data L orders kyuubi sites cluster.type n cluster contents ≡ inl x
      → ref_loop L orders kyuubi sites n (cluster ∷ rest) contents ≡ inl x
  unfolding ref_loop
  ref_loop_stop n cluster rest contents x e = rw (e, ref_loop)

  pub ref_loop_nil :
      (n : ℕ) (contents : Dict) → ref_loop L orders kyuubi sites n [] contents ≡ inr contents
  unfolding ref_loop
  ref_loop_nil n contents = refl

  ref_loop_fails :
      (n : ℕ) (refs : List ClusterRef) (contents : Dict)
      → any_lacks refs ≡ true
      → ref_loop L orders kyuubi sites n refs contents ≡ inl nil_defaults
  ref_loop_fails n [] contents h = cc
  ref_loop_fails n (cluster ∷ rest) contents h =
      elim (Bool-cases (type_lacks cluster.type cluster)) [
        | inl l ↦
            ref_loop_stop n cluster rest contents nil_defaults
              (case_data_fails cluster.type n cluster contents l)
        | inr l ↦
            let (d, e) = case_data_total cluster.type n cluster contents l in
            ref_loop_next n cluster rest contents d e
              (ref_loop_fails (suc (suc n)) rest d (ground arith))
      ]

  ref_loop_total :
      (n : ℕ) (refs : List ClusterRef) (contents : Dict)
      → any_lacks refs ≡ false
      → (d : Dict) × (ref_loop L orders kyuubi sites n refs contents ≡ inr d)
  ref_loop_total n [] contents h = (contents, ref_loop_nil n contents)
  ref_loop_total n (cluster ∷ rest) contents h =
      let (d, e) = case_data_total cluster.type n cluster contents (ground arith) in
      let (d', e') = ref_loop_total (suc (suc n)) rest d (ground arith) in
      (d', ref_loop_next n cluster rest contents d e e')

module _ (L : Library) (orders : ℕ → Order) (kyuubi : KyuubiCluster) where
  -- The object with the meta data that `SetControllerReference` leaves, or its error.
  abbrev pub refs_object : Dict → Error ⊎ ConfigMap
  refs_object d = elim (owned L kyuubi (cluster_refs_meta L orders kyuubi)).1 [
    | none ↦ inr (record {
      meta = (owned L kyuubi (cluster_refs_meta L orders kyuubi)).0;
      contents = some d;
    })
    | some e ↦ inl e
  ]

  pub desired_of_data :
      (d : Dict)
      → refs_data L orders kyuubi ≡ inr d
      → desired_cluster_refs_config_map L orders kyuubi ≡ refs_object d
  unfolding desired_cluster_refs_config_map
  desired_of_data d e = ground arith

  pub desired_of_error :
      (x : Error)
      → refs_data L orders kyuubi ≡ inl x
      → desired_cluster_refs_config_map L orders kyuubi ≡ inl x
  unfolding desired_cluster_refs_config_map
  desired_of_error x e = ground arith

-- Some Spark cluster lacks its defaults.
pub desired_of_lacking :
    (L : Library) (orders : ℕ → Order) (kyuubi : KyuubiCluster)
    → any_lacks kyuubi.spec.cluster_refs ≡ true
    → desired_cluster_refs_config_map L orders kyuubi ≡ inl nil_defaults
desired_of_lacking L orders kyuubi h = desired_of_error L orders kyuubi nil_defaults (
    ref_loop_fails L orders kyuubi (hdfs_sites (none, none) kyuubi.spec.cluster_refs) 0
      kyuubi.spec.cluster_refs [] h)

-- The config map of the cluster references cannot be made, with the error that the Spark defaults
-- are nil, if some referenced Spark cluster has none. If all have some, it is made unless
-- `SetControllerReference` fails, and it is the object with the meta data so set.
pub desired_cluster_refs_config_map_lem :
    (L : Library) (orders : ℕ → Order) (kyuubi : KyuubiCluster)
    → (d : Dict) × (desired_cluster_refs_config_map L orders kyuubi ≡ (
        if any_lacks kyuubi.spec.cluster_refs
        then inl nil_defaults
        else refs_object L orders kyuubi d))
desired_cluster_refs_config_map_lem L orders kyuubi =
    elim (Bool-cases (any_lacks kyuubi.spec.cluster_refs)) [
      | inl h ↦ ([], rw h (desired_of_lacking L orders kyuubi h))
      | inr h ↦
          let (d, e) =
            ref_loop_total L orders kyuubi (hdfs_sites (none, none) kyuubi.spec.cluster_refs) 0
              kyuubi.spec.cluster_refs [] h in
          (d, rw h (desired_of_data L orders kyuubi d e))
    ]
