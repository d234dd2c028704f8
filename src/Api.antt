-- ===== src/Api.antt =====
-- api/v1alpha1/kyuubicluster_types.go: the KyuubiCluster resource.
-- A nil map or slice is `none`. An `int32` is only copied by the code, and is kept as a number.
pub mod Registration
pub mod Webhook
pub mod Schemes
use kyuubi_operator.Base.{ℕ, String, Option, List}
use kyuubi_operator.Base.Dict.{Dict}
use kyuubi_operator.K8s.Objects.{ObjectMeta, ServicePort}

-- The values that the field's validation admits.
pub data ClusterType : Type 0 where
  spark metastore hdfs flink : ClusterType

pub record ImageConfig : Type 0 where
  pub repository : String
  pub tag : String
  pub pull_policy : String
  pub pull_secrets : String

pub record ResourceConfig : Type 0 where
  pub replicas : ℕ

pub record SparkCluster : Type 0 where
  pub spark_master : String
  pub spark_image : ImageConfig
  pub spark_namespace : String
  pub spark_defaults : Option Dict

pub record MetastoreCluster : Type 0 where
  pub hive_site : Option Dict

pub record HdfsCluster : Type 0 where
  pub core_site : Option Dict
  pub hdfs_site : Option Dict

pub record ClusterRef : Type 0 where
  pub name : String
  pub type : ClusterType
  pub spark : SparkCluster
  pub metastore : MetastoreCluster
  pub hdfs : HdfsCluster

pub record KyuubiClusterSpec : Type 0 where
  pub kyuubi_version : String
  pub kyuubi_image : ImageConfig
  pub kyuubi_resource : ResourceConfig
  pub kyuubi_conf : Option Dict
  pub cluster_refs : List ClusterRef

abbrev pub ExposedType : Type 0
ExposedType = String

abbrev pub kyuubi_rest : ExposedType
kyuubi_rest = "rest"

abbrev pub kyuubi_thrift_binary : ExposedType
kyuubi_thrift_binary = "thrift-binary"

pub record ExposedInfo : Type 0 where
  pub name : String
  pub exposed_type : ExposedType
  pub service_name : String
  pub service_port : ServicePort

pub record KyuubiClusterStatus : Type 0 where
  pub exposed_infos : Option (List ExposedInfo)
  pub creation_time : ℕ
  pub update_time : ℕ

pub record KyuubiCluster : Type 0 where
  pub meta : ObjectMeta
  pub spec : KyuubiClusterSpec
  pub status : KyuubiClusterStatus
