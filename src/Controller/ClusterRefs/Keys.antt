-- ===== src/Controller/ClusterRefs/Keys.antt =====
-- The keys that the config map of the cluster references has.
use kyuubi_operator.Base.{
  Sum-cases, ℕ, suc, String, ◌≡◌, refl, sym, ◌∙◌, inl, inr, true, Option, List, [], ◌∷◌, arith, All,
}
use kyuubi_operator.Base.Dict.{Dict, Order, insert, has_key, entries}
use kyuubi_operator.Base.Dict.Laws.{lookup-insert, lookup-insert_self}
use kyuubi_operator.K8s.Client.{Library}
use kyuubi_operator.Controller.Names.{default_spark_conf_file}
use kyuubi_operator.Controller.Utils.{map2_string, map2_xml}
use kyuubi_operator.Controller.ClusterRefs.Errors.{ref_loop_next, ref_loop_stop, ref_loop_nil}
use kyuubi_operator.Api.{ClusterType, ClusterRef, KyuubiCluster}
use kyuubi_operator.Controller.ClusterRefs.{case_data, ref_loop, spark_conf, hive_conf}

pub has_key-insert_self : (k v : String) (m : Dict) → has_key k (insert k v m) ≡ true
has_key-insert_self k v m = rw (lookup-insert_self k v m, has_key) refl

pub has_key-insert :
    (j k v : String) (m : Dict) → has_key j m ≡ true → has_key j (insert k v m) ≡ true
has_key-insert j k v m h = ground (arith, lookup-insert j k v m)

-- The keys of the volumes that a reference of this type adds.
abbrev pub keys_of : ClusterType → List String
keys_of ClusterType.spark = "spark-defaults.conf" ∷ []
keys_of ClusterType.hdfs = "hdfs-site.xml" ∷ "core-site.xml" ∷ []
keys_of ClusterType.metastore = "hive-site.xml" ∷ []
keys_of ClusterType.flink = []

abbrev pub HasKeys : List String → Dict → Type 0
HasKeys ks m = All (λ k. has_key k m ≡ true) ks

module _ (L : Library) (orders : ℕ → Order) (kyuubi : KyuubiCluster)
    (sites : Option Dict × Option Dict) where
  -- A round keeps the keys, and adds those of its reference.
  case_data-has_key :
      (t : ClusterType) (n : ℕ) (cluster : ClusterRef) (contents d : Dict) (k : String)
      → case_data L orders kyuubi sites t n cluster contents ≡ inr d
      → has_key k contents ≡ true
      → has_key k d ≡ true
  unfolding case_data
  case_data-has_key ClusterType.spark n cluster contents d k e h =
      elim (Sum-cases (spark_conf L (orders n) kyuubi cluster.spark)) [
        | inl (x, p) ↦ absurd (ground arith)
        | inr (conf, p) ↦ ground (
          arith,
          has_key-insert k default_spark_conf_file (map2_string (orders (suc n)) conf) contents h,
        )
      ]
  case_data-has_key ClusterType.hdfs n cluster contents d k e h = ground (
    arith,
    has_key-insert k "core-site.xml" (map2_xml L (orders (suc n)) (entries cluster.hdfs.core_site))
        _
        (has_key-insert k "hdfs-site.xml" (map2_xml L (orders n) (entries cluster.hdfs.hdfs_site))
          contents h),
  )
  case_data-has_key ClusterType.metastore n cluster contents d k e h = ground (
    arith,
    has_key-insert k "hive-site.xml"
        (map2_xml L (orders (suc n))
          (hive_conf (orders n) sites.0 sites.1 cluster.metastore.hive_site))
        contents h,
  )
  case_data-has_key ClusterType.flink n cluster contents d k e h = ground arith

  case_data-HasKeys :
      (t : ClusterType) (n : ℕ) (cluster : ClusterRef) (contents d : Dict)
      → case_data L orders kyuubi sites t n cluster contents ≡ inr d
      → HasKeys (keys_of t) d
  unfolding case_data
  case_data-HasKeys ClusterType.spark n cluster contents d e =
      elim (Sum-cases (spark_conf L (orders n) kyuubi cluster.spark)) [
        | inl (x, p) ↦ absurd (ground arith)
        | inr (conf, p) ↦ (
          ground (
            arith,
            has_key-insert_self default_spark_conf_file (map2_string (orders (suc n)) conf)
                contents,
          ),
          tt,
        )
      ]
  case_data-HasKeys ClusterType.hdfs n cluster contents d e = (
    ground (
      arith,
      has_key-insert "hdfs-site.xml" "core-site.xml"
          (map2_xml L (orders (suc n)) (entries cluster.hdfs.core_site)) _
          (has_key-insert_self "hdfs-site.xml"
            (map2_xml L (orders n) (entries cluster.hdfs.hdfs_site)) contents),
    ),
    (
      ground (
        arith,
        has_key-insert_self "core-site.xml"
            (map2_xml L (orders (suc n)) (entries cluster.hdfs.core_site))
            (insert "hdfs-site.xml" (map2_xml L (orders n) (entries cluster.hdfs.hdfs_site))
              contents),
      ),
      tt,
    ),
  )
  case_data-HasKeys ClusterType.metastore n cluster contents d e = (
    ground (
      arith,
      has_key-insert_self "hive-site.xml"
          (map2_xml L (orders (suc n))
            (hive_conf (orders n) sites.0 sites.1 cluster.metastore.hive_site))
          contents,
    ),
    tt,
  )
  case_data-HasKeys ClusterType.flink n cluster contents d e = tt

  ref_loop-has_key :
      (n : ℕ) (refs : List ClusterRef) (contents d : Dict) (k : String)
      → ref_loop L orders kyuubi sites n refs contents ≡ inr d
      → has_key k contents ≡ true
      → has_key k d ≡ true
  ref_loop-has_key n [] contents d k e h =
      ground (arith, ref_loop_nil L orders kyuubi sites n contents)
  ref_loop-has_key n (cluster ∷ rest) contents d k e h =
      elim (Sum-cases (case_data L orders kyuubi sites cluster.type n cluster contents)) [
        | inl (x, p) ↦
            absurd (ground (arith, ref_loop_stop L orders kyuubi sites n cluster rest contents x p))
        | inr (c, p) ↦
            ref_loop-has_key (suc (suc n)) rest c d k
              (sym (ref_loop_next L orders kyuubi sites n cluster rest contents c p refl) ∙ e)
              (case_data-has_key cluster.type n cluster contents c k p h)
      ]

  HasKeys-ref_loop :
      (n : ℕ) (refs : List ClusterRef) (contents d : Dict) (ks : List String)
      → ref_loop L orders kyuubi sites n refs contents ≡ inr d
      → HasKeys ks contents
      → HasKeys ks d
  HasKeys-ref_loop n refs contents d [] e h = tt
  HasKeys-ref_loop n refs contents d (k ∷ ks) e (h, hs) =
      (ref_loop-has_key n refs contents d k e h, HasKeys-ref_loop n refs contents d ks e hs)

  -- Every reference finds its keys in the finished data.
  pub ref_loop-HasKeys :
      (n : ℕ) (refs : List ClusterRef) (contents d : Dict)
      → ref_loop L orders kyuubi sites n refs contents ≡ inr d
      → All (λ cluster. HasKeys (keys_of cluster.type) d) refs
  ref_loop-HasKeys n [] contents d e = tt
  ref_loop-HasKeys n (cluster ∷ rest) contents d e =
      elim (Sum-cases (case_data L orders kyuubi sites cluster.type n cluster contents)) [
        | inl (x, p) ↦
            absurd (ground (arith, ref_loop_stop L orders kyuubi sites n cluster rest contents x p))
        | inr (c, p) ↦
            let e' : ref_loop L orders kyuubi sites (suc (suc n)) rest c ≡ inr d =
              sym (ref_loop_next L orders kyuubi sites n cluster rest contents c p refl) ∙ e in
            (
              HasKeys-ref_loop (suc (suc n)) rest c d _ e'
                  (case_data-HasKeys cluster.type n cluster contents c p),
              ref_loop-HasKeys (suc (suc n)) rest c d e',
            )
      ]
