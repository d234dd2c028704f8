-- ===== src/DeepCopy.antt =====
-- api/v1alpha1/zz_generated.deepcopy.go: `copy_x` is the method `DeepCopyInto` of the type `X`, from
-- the struct `in` to what it leaves in `out`, and `deep_copy_x` is `DeepCopy`.
pub mod Heap
pub mod Shape
pub mod References
pub mod Slices
pub mod Copier
pub mod Structs
pub mod Apart
use kyuubi_operator.Base.{ℕ, Option, none, some, List, [], ◌∷◌}
use kyuubi_operator.Base.Dict.{Order, assign_all}
use kyuubi_operator.Api.{ImageConfig, ResourceConfig}
use kyuubi_operator.DeepCopy.Heap.{
  Foreign, Address, StoredSparkCluster, StoredMetastoreCluster, StoredHdfsCluster, StoredClusterRef,
  StoredSpec, StoredExposedInfo, StoredStatus, StoredKyuubiCluster, StoredKyuubiClusterList, Cell,
  dict_at, refs_at, infos_at, clusters_at, Alloc, pure, alloc, store, load, ◌>>=◌, ◌>>◌,
}

-- `DeepCopyInto` of the types of the Kubernetes libraries.
pub record ForeignCopies (F : Foreign) : Type 0 where
  pub copy_meta : F.Meta → Alloc F F.Meta
  pub copy_port : F.Port → Alloc F F.Port
  pub copy_time : F.Time → Alloc F F.Time
  pub copy_list_meta : F.ListMeta → Alloc F F.ListMeta

-- `runtime.Object`, as far as these methods make it.
pub data Object (F : Foreign) : Type 0 where
  cluster : StoredKyuubiCluster F → Object F
  cluster_list : StoredKyuubiClusterList F → Object F

-- The loop over a map that fills the new map at the address `a` runs in the order `ranges a`.
module _ {F : Foreign} (G : ForeignCopies F) (ranges : ℕ → Order) where
  -- The copy of a map: nil stays nil.
  unfoldable pub copy_dict : Address → Alloc F Address
  copy_dict none = pure F none
  copy_dict (some p) = do
    entries ← load F p
    a ← alloc F (Cell.dict [])
    store F a (Cell.dict (assign_all (ranges a (dict_at F entries)) []))
    pure F (some a)

  -- The loop over a slice.
  unfoldable pub copy_loop : {A : Type 0} → (A → Alloc F A) → List A → Alloc F (List A)
  copy_loop copy [] = pure F []
  copy_loop copy (x ∷ xs) = do y ← copy x; ys ← copy_loop copy xs; pure F (y ∷ ys)

  -- The copy of a slice, whose elements the loop writes one by one into the new slice: nothing reads
  -- that before the loop has ended, and so it gets them at once. `wrap` makes a cell of a slice.
  unfoldable pub copy_slice :
      {A : Type 0}
      → (List A → Cell F)
      → (Option (Cell F) → List A)
      → (A → Alloc F A)
      → Address
      → Alloc F Address
  unfolding copy_loop
  copy_slice wrap slice_at copy none = pure F none
  copy_slice wrap slice_at copy (some p) = do
    elements ← load F p
    a ← alloc F (wrap [])
    copied ← copy_loop copy (slice_at elements)
    store F a (wrap copied)
    pure F (some a)

  unfoldable pub copy_image_config : ImageConfig → Alloc F ImageConfig
  copy_image_config x = pure F x

  unfoldable pub copy_resource_config : ResourceConfig → Alloc F ResourceConfig
  copy_resource_config x = pure F x

  unfoldable pub copy_spark_cluster : StoredSparkCluster → Alloc F StoredSparkCluster
  copy_spark_cluster x = do
    defaults ← copy_dict x.spark_defaults
    pure F (record x { spark_image = x.spark_image; spark_defaults = defaults })

  unfoldable pub copy_metastore_cluster : StoredMetastoreCluster → Alloc F StoredMetastoreCluster
  copy_metastore_cluster x = do site ← copy_dict x.hive_site; pure F (record x { hive_site = site })

  unfoldable pub copy_hdfs_cluster : StoredHdfsCluster → Alloc F StoredHdfsCluster
  copy_hdfs_cluster x = do
    core ← copy_dict x.core_site
    hdfs ← copy_dict x.hdfs_site
    pure F (record x { core_site = core; hdfs_site = hdfs })

  unfoldable pub copy_cluster_ref : StoredClusterRef → Alloc F StoredClusterRef
  unfolding copy_spark_cluster copy_metastore_cluster copy_hdfs_cluster
  copy_cluster_ref x = do
    spark ← copy_spark_cluster x.spark
    metastore ← copy_metastore_cluster x.metastore
    hdfs ← copy_hdfs_cluster x.hdfs
    pure F (record x { spark = spark; metastore = metastore; hdfs = hdfs })

  unfoldable pub copy_spec : StoredSpec → Alloc F StoredSpec
  unfolding copy_slice copy_cluster_ref
  copy_spec x = do
    conf ← copy_dict x.kyuubi_conf
    refs ← copy_slice Cell.refs (refs_at F) copy_cluster_ref x.cluster_refs
    pure F (record x {
      kyuubi_image = x.kyuubi_image;
      kyuubi_resource = x.kyuubi_resource;
      kyuubi_conf = conf;
      cluster_refs = refs;
    })

  unfoldable pub copy_exposed_info : StoredExposedInfo F → Alloc F (StoredExposedInfo F)
  copy_exposed_info x = do
    port ← G.copy_port x.service_port
    pure F (record x { service_port = port })

  unfoldable pub copy_status : StoredStatus F → Alloc F (StoredStatus F)
  unfolding copy_slice copy_exposed_info
  copy_status x = do
    infos ← copy_slice Cell.infos (infos_at F) copy_exposed_info x.exposed_infos
    created ← G.copy_time x.creation_time
    updated ← G.copy_time x.update_time
    pure F (record x { exposed_infos = infos; creation_time = created; update_time = updated })

  unfoldable pub copy_kyuubi_cluster : StoredKyuubiCluster F → Alloc F (StoredKyuubiCluster F)
  unfolding copy_spec copy_status
  copy_kyuubi_cluster x = do
    meta ← G.copy_meta x.meta
    spec ← copy_spec x.spec
    status ← copy_status x.status
    pure F (record x { type_meta = x.type_meta; meta = meta; spec = spec; status = status })

  unfoldable pub copy_kyuubi_cluster_list :
      StoredKyuubiClusterList F → Alloc F (StoredKyuubiClusterList F)
  unfolding copy_slice copy_kyuubi_cluster
  copy_kyuubi_cluster_list x = do
    meta ← G.copy_list_meta x.list_meta
    items ← copy_slice Cell.clusters (clusters_at F) copy_kyuubi_cluster x.items
    pure F (record x { type_meta = x.type_meta; list_meta = meta; items = items })

  -- The body of each `DeepCopy`, with the `DeepCopyInto` that it calls: a nil receiver gives nil.
  unfoldable pub deep_copy : {A : Type 0} → (A → Alloc F A) → Option A → Alloc F (Option A)
  deep_copy copy none = pure F none
  deep_copy copy (some x) = do out ← copy x; pure F (some out)

  unfoldable pub deep_copy_image_config : Option ImageConfig → Alloc F (Option ImageConfig)
  unfolding deep_copy copy_image_config
  deep_copy_image_config = deep_copy copy_image_config

  unfoldable pub deep_copy_resource_config : Option ResourceConfig → Alloc F (Option ResourceConfig)
  unfolding deep_copy copy_resource_config
  deep_copy_resource_config = deep_copy copy_resource_config

  unfoldable pub deep_copy_spark_cluster :
      Option StoredSparkCluster → Alloc F (Option StoredSparkCluster)
  unfolding deep_copy copy_spark_cluster
  deep_copy_spark_cluster = deep_copy copy_spark_cluster

  unfoldable pub deep_copy_metastore_cluster :
      Option StoredMetastoreCluster → Alloc F (Option StoredMetastoreCluster)
  unfolding deep_copy copy_metastore_cluster
  deep_copy_metastore_cluster = deep_copy copy_metastore_cluster

  unfoldable pub deep_copy_hdfs_cluster :
      Option StoredHdfsCluster → Alloc F (Option StoredHdfsCluster)
  unfolding deep_copy copy_hdfs_cluster
  deep_copy_hdfs_cluster = deep_copy copy_hdfs_cluster

  unfoldable pub deep_copy_cluster_ref : Option StoredClusterRef → Alloc F (Option StoredClusterRef)
  unfolding deep_copy copy_cluster_ref
  deep_copy_cluster_ref = deep_copy copy_cluster_ref

  unfoldable pub deep_copy_spec : Option StoredSpec → Alloc F (Option StoredSpec)
  unfolding deep_copy copy_spec
  deep_copy_spec = deep_copy copy_spec

  unfoldable pub deep_copy_exposed_info :
      Option (StoredExposedInfo F) → Alloc F (Option (StoredExposedInfo F))
  unfolding deep_copy copy_exposed_info
  deep_copy_exposed_info = deep_copy copy_exposed_info

  unfoldable pub deep_copy_status : Option (StoredStatus F) → Alloc F (Option (StoredStatus F))
  unfolding deep_copy copy_status
  deep_copy_status = deep_copy copy_status

  unfoldable pub deep_copy_kyuubi_cluster :
      Option (StoredKyuubiCluster F) → Alloc F (Option (StoredKyuubiCluster F))
  unfolding deep_copy copy_kyuubi_cluster
  deep_copy_kyuubi_cluster = deep_copy copy_kyuubi_cluster

  unfoldable pub deep_copy_kyuubi_cluster_list :
      Option (StoredKyuubiClusterList F) → Alloc F (Option (StoredKyuubiClusterList F))
  unfolding deep_copy copy_kyuubi_cluster_list
  deep_copy_kyuubi_cluster_list = deep_copy copy_kyuubi_cluster_list

  -- `DeepCopyObject`: a nil copy is returned as a nil interface.
  unfoldable pub deep_copy_cluster_object :
      Option (StoredKyuubiCluster F) → Alloc F (Option (Object F))
  unfolding deep_copy_kyuubi_cluster
  deep_copy_cluster_object x = do
    copied ← deep_copy_kyuubi_cluster x
    pure F (elim copied [ some c ↦ some (Object.cluster c) | none ↦ none ])

  unfoldable pub deep_copy_list_object :
      Option (StoredKyuubiClusterList F) → Alloc F (Option (Object F))
  unfolding deep_copy_kyuubi_cluster_list
  deep_copy_list_object x = do
    copied ← deep_copy_kyuubi_cluster_list x
    pure F (elim copied [ some c ↦ some (Object.cluster_list c) | none ↦ none ])
