-- ===== src/DeepCopy/Structs.antt =====
-- The copies of the structs.
use kyuubi_operator.Base.{ℕ, String, refl, Option, List}
use kyuubi_operator.Base.Dict.{Order, IsRange}
use kyuubi_operator.Api.{ExposedType, ResourceConfig, ClusterType, ImageConfig}
use kyuubi_operator.DeepCopy.Heap.{TypeMeta, Foreign, Address, StoredSparkCluster}
use kyuubi_operator.DeepCopy.Shape.{Shape, plain, pair, along}
use kyuubi_operator.DeepCopy.References.{dict_shape}
use kyuubi_operator.DeepCopy.Slices.{slice_shape}
use kyuubi_operator.DeepCopy.{
  clusters_at, refs_at, infos_at, StoredSpec, copy_kyuubi_cluster_list, StoredExposedInfo,
  StoredKyuubiClusterList, copy_spec, copy_status, StoredStatus, copy_exposed_info,
  copy_kyuubi_cluster, StoredKyuubiCluster, Cell, copy_metastore_cluster, copy_hdfs_cluster,
  StoredMetastoreCluster, StoredClusterRef, copy_cluster_ref, StoredHdfsCluster, ForeignCopies,
  copy_spark_cluster,
}
use kyuubi_operator.DeepCopy.Copier.{
  IsCopier, plain-IsCopier, pair-IsCopier, along-IsCopier, slice-IsCopier, dict-IsCopier,
}

-- The values of the maps and of the structs.
abbrev pub MapValue : Type 0
MapValue = Option (String → Option String)

abbrev pub SparkValue : Type 0
SparkValue = (String × ImageConfig × String) × MapValue

abbrev pub RefValue : Type 0
RefValue = (String × ClusterType) × (SparkValue × (MapValue × (MapValue × MapValue)))

abbrev pub SpecValue : Type 0
SpecValue = (String × ImageConfig × ResourceConfig) × (MapValue × Option (List RefValue))

module _ (F : Foreign) where
  -- The methods of the Kubernetes libraries copy.
  pub record ForeignShapes (G : ForeignCopies F) : Type 1 where
    pub MetaValue : Type 0
    pub PortValue : Type 0
    pub TimeValue : Type 0
    pub ListMetaValue : Type 0
    pub meta_shape : Shape F F.Meta MetaValue
    pub port_shape : Shape F F.Port PortValue
    pub time_shape : Shape F F.Time TimeValue
    pub list_meta_shape : Shape F F.ListMeta ListMetaValue
    pub meta-IsCopier : IsCopier F meta_shape G.copy_meta
    pub port-IsCopier : IsCopier F port_shape G.copy_port
    pub time-IsCopier : IsCopier F time_shape G.copy_time
    pub list_meta-IsCopier : IsCopier F list_meta_shape G.copy_list_meta

  -- The fields of the structs: those that are assigned, and those that are copied.
  abbrev pub spark_fields : StoredSparkCluster → (String × ImageConfig × String) × Address
  spark_fields x = ((x.spark_master, x.spark_image, x.spark_namespace), x.spark_defaults)

  abbrev pub spark_shape : Shape F StoredSparkCluster SparkValue
  spark_shape =
      along F spark_fields (pair F (plain F (String × ImageConfig × String)) (dict_shape F))

  abbrev pub metastore_shape : Shape F StoredMetastoreCluster MapValue
  metastore_shape = along F (λ x. x.hive_site) (dict_shape F)

  abbrev pub hdfs_shape : Shape F StoredHdfsCluster (MapValue × MapValue)
  hdfs_shape = along F (λ x. (x.core_site, x.hdfs_site)) (pair F (dict_shape F) (dict_shape F))

  abbrev ref_fields :
      StoredClusterRef
      → (String × ClusterType) × (StoredSparkCluster × (StoredMetastoreCluster × StoredHdfsCluster))
  ref_fields x = ((x.name, x.type), (x.spark, (x.metastore, x.hdfs)))

  abbrev pub ref_shape : Shape F StoredClusterRef RefValue
  ref_shape = along F ref_fields (
      pair F (plain F (String × ClusterType))
        (pair F spark_shape (pair F metastore_shape hdfs_shape)))

  abbrev spec_fields : StoredSpec → (String × ImageConfig × ResourceConfig) × (Address × Address)
  spec_fields x =
      ((x.kyuubi_version, x.kyuubi_image, x.kyuubi_resource), (x.kyuubi_conf, x.cluster_refs))

  abbrev pub spec_shape : Shape F StoredSpec SpecValue
  spec_shape = along F spec_fields (
      pair F (plain F (String × ImageConfig × ResourceConfig))
        (pair F (dict_shape F) (slice_shape F (refs_at F) ref_shape)))

  module _ (G : ForeignCopies F) (ranges : ℕ → Order) (q : (a : ℕ) → IsRange (ranges a)) where
    spark-IsCopier : IsCopier F spark_shape (copy_spark_cluster G ranges)
    unfolding copy_spark_cluster
    spark-IsCopier =
        along-IsCopier F spark_fields (copy_spark_cluster G ranges)
          (pair-IsCopier F (plain-IsCopier F _) (dict-IsCopier F G ranges q)) (λ x h. refl)

    metastore-IsCopier : IsCopier F metastore_shape (copy_metastore_cluster G ranges)
    unfolding copy_metastore_cluster
    metastore-IsCopier =
        along-IsCopier F (λ x. x.hive_site) (copy_metastore_cluster G ranges)
          (dict-IsCopier F G ranges q) (λ x h. refl)

    hdfs-IsCopier : IsCopier F hdfs_shape (copy_hdfs_cluster G ranges)
    unfolding copy_hdfs_cluster
    hdfs-IsCopier =
        along-IsCopier F (λ x. (x.core_site, x.hdfs_site)) (copy_hdfs_cluster G ranges)
          (pair-IsCopier F (dict-IsCopier F G ranges q) (dict-IsCopier F G ranges q)) (λ x h. refl)

    ref-IsCopier : IsCopier F ref_shape (copy_cluster_ref G ranges)
    unfolding copy_cluster_ref
    ref-IsCopier =
        along-IsCopier F ref_fields (copy_cluster_ref G ranges)
          (pair-IsCopier F (plain-IsCopier F _)
            (pair-IsCopier F spark-IsCopier (pair-IsCopier F metastore-IsCopier hdfs-IsCopier)))
          (λ x h. refl)

    spec-IsCopier : IsCopier F spec_shape (copy_spec G ranges)
    unfolding copy_spec
    spec-IsCopier =
        along-IsCopier F spec_fields (copy_spec G ranges)
          (pair-IsCopier F (plain-IsCopier F _) (
            pair-IsCopier F (dict-IsCopier F G ranges q)
              (slice-IsCopier F G ranges Cell.refs (refs_at F) (λ xs. refl) ref-IsCopier)))
          (λ x h. refl)

    module _ (K : ForeignShapes G) where
      abbrev InfoValue : Type 0
      InfoValue = (String × ExposedType × String) × K.PortValue

      abbrev StatusValue : Type 0
      StatusValue = Option (List InfoValue) × (K.TimeValue × K.TimeValue)

      abbrev pub ClusterValue : Type 0
      ClusterValue = TypeMeta × (K.MetaValue × (SpecValue × StatusValue))

      abbrev info_fields : StoredExposedInfo F → (String × ExposedType × String) × F.Port
      info_fields x = ((x.name, x.exposed_type, x.service_name), x.service_port)

      abbrev info_shape : Shape F (StoredExposedInfo F) InfoValue
      info_shape =
          along F info_fields (pair F (plain F (String × ExposedType × String)) K.port_shape)

      abbrev status_fields : StoredStatus F → Address × (F.Time × F.Time)
      status_fields x = (x.exposed_infos, (x.creation_time, x.update_time))

      abbrev status_shape : Shape F (StoredStatus F) StatusValue
      status_shape =
          along F status_fields
            (pair F (slice_shape F (infos_at F) info_shape) (pair F K.time_shape K.time_shape))

      abbrev cluster_fields :
          StoredKyuubiCluster F → TypeMeta × (F.Meta × (StoredSpec × StoredStatus F))
      cluster_fields x = (x.type_meta, (x.meta, (x.spec, x.status)))

      abbrev pub cluster_shape : Shape F (StoredKyuubiCluster F) ClusterValue
      cluster_shape =
          along F cluster_fields
            (pair F (plain F TypeMeta) (pair F K.meta_shape (pair F spec_shape status_shape)))

      abbrev list_fields : StoredKyuubiClusterList F → TypeMeta × (F.ListMeta × Address)
      list_fields x = (x.type_meta, (x.list_meta, x.items))

      abbrev pub cluster_list_shape :
          Shape F
            (StoredKyuubiClusterList F)
            (TypeMeta × (K.ListMetaValue × Option (List ClusterValue)))
      cluster_list_shape = along F list_fields (
          pair F (plain F TypeMeta)
            (pair F K.list_meta_shape (slice_shape F (clusters_at F) cluster_shape)))

      info-IsCopier : IsCopier F info_shape (copy_exposed_info G ranges)
      unfolding copy_exposed_info
      info-IsCopier =
          along-IsCopier F info_fields (copy_exposed_info G ranges)
            (pair-IsCopier F (plain-IsCopier F _) K.port-IsCopier) (λ x h. refl)

      status-IsCopier : IsCopier F status_shape (copy_status G ranges)
      unfolding copy_status
      status-IsCopier =
          along-IsCopier F status_fields (copy_status G ranges)
            (pair-IsCopier F
              (slice-IsCopier F G ranges Cell.infos (infos_at F) (λ xs. refl) info-IsCopier)
              (pair-IsCopier F K.time-IsCopier K.time-IsCopier))
            (λ x h. refl)

      pub cluster-IsCopier : IsCopier F cluster_shape (copy_kyuubi_cluster G ranges)
      unfolding copy_kyuubi_cluster
      cluster-IsCopier =
          along-IsCopier F cluster_fields (copy_kyuubi_cluster G ranges)
            (pair-IsCopier F (plain-IsCopier F _)
              (pair-IsCopier F K.meta-IsCopier (pair-IsCopier F spec-IsCopier status-IsCopier)))
            (λ x h. refl)

      pub cluster_list-IsCopier : IsCopier F cluster_list_shape (copy_kyuubi_cluster_list G ranges)
      unfolding copy_kyuubi_cluster_list
      cluster_list-IsCopier =
          along-IsCopier F list_fields (copy_kyuubi_cluster_list G ranges)
            (pair-IsCopier F (plain-IsCopier F _) (
              pair-IsCopier F K.list_meta-IsCopier (
                slice-IsCopier F G ranges Cell.clusters (clusters_at F) (λ xs. refl)
                  cluster-IsCopier)))
            (λ x h. refl)
