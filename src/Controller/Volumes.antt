-- ===== src/Controller/Volumes.antt =====
-- The volumes of the pod and their mounts (constructVolumeMounts, constructVolumes).
pub mod Names
pub mod Distinct
use kyuubi_operator.Base.{String, ◌<>◌, List, [], ◌∷◌, ◌++◌}
use kyuubi_operator.K8s.Objects.{Volume, VolumeMount}
use kyuubi_operator.Api.{ClusterType, ClusterRef, KyuubiCluster}
use kyuubi_operator.Controller.Names.{
  cluster_resource_name, nine_resource_name, default_cluster_refs_name_suffix,
  default_kyuubi_conf_file, default_kyuubi_conf_dir, default_spark_conf_file,
  default_spark_conf_dir, default_hive_site_file, default_hdfs_site_file, default_core_site_file,
}

-- `fmt.Sprintf("%s/%s", dir, file)` and the sub path, as each mount has them.
abbrev pub mount : String → String → String → VolumeMount
mount name dir file = record { name = name; mount_path = dir <> ("/" <> file); sub_path = file }

-- The mounts that one cluster reference adds.
unfoldable pub mounts_of : KyuubiCluster → ClusterType → List VolumeMount
mounts_of kyuubi ClusterType.spark =
    mount (kyuubi.meta.name <> "-spark") default_spark_conf_dir default_spark_conf_file ∷ []
mounts_of kyuubi ClusterType.hdfs =
    mount (kyuubi.meta.name <> "-hdfssite") default_spark_conf_dir default_hdfs_site_file
    ∷ mount (kyuubi.meta.name <> "-coresite") default_spark_conf_dir default_core_site_file
    ∷ []
mounts_of kyuubi ClusterType.metastore =
    mount (kyuubi.meta.name <> "-hivesite") default_spark_conf_dir default_hive_site_file ∷ []
mounts_of kyuubi ClusterType.flink = []

unfoldable pub mount_loop : KyuubiCluster → List VolumeMount → List ClusterRef → List VolumeMount
mount_loop kyuubi mounts [] = mounts
mount_loop kyuubi mounts (cluster ∷ rest) =
    mount_loop kyuubi (mounts ++ mounts_of kyuubi cluster.type) rest

unfoldable pub construct_volume_mounts : KyuubiCluster → List VolumeMount
unfolding mounts_of mount_loop
construct_volume_mounts kyuubi =
    mount_loop kyuubi
      (mount (cluster_resource_name kyuubi []) default_kyuubi_conf_dir default_kyuubi_conf_file
        ∷ [])
      kyuubi.spec.cluster_refs

-- A volume that shows one key of a config map under the key's own name.
abbrev pub volume : String → String → String → Volume
volume name config_map file = record {
  name = name;
  config_map = config_map;
  items = record { key = file; path = file } ∷ [];
}

abbrev cluster_refs_name : KyuubiCluster → String
cluster_refs_name kyuubi = nine_resource_name kyuubi (default_cluster_refs_name_suffix ∷ [])

-- The volumes that one cluster reference adds.
unfoldable pub volumes_of : KyuubiCluster → ClusterType → List Volume
volumes_of kyuubi ClusterType.spark =
    volume (kyuubi.meta.name <> "-spark") (cluster_refs_name kyuubi) default_spark_conf_file ∷ []
volumes_of kyuubi ClusterType.hdfs =
    volume (kyuubi.meta.name <> "-hdfssite") (cluster_refs_name kyuubi) default_hdfs_site_file
    ∷ volume (kyuubi.meta.name <> "-coresite") (cluster_refs_name kyuubi) default_core_site_file
    ∷ []
volumes_of kyuubi ClusterType.metastore =
    volume (kyuubi.meta.name <> "-hivesite") (cluster_refs_name kyuubi) default_hive_site_file ∷ []
volumes_of kyuubi ClusterType.flink = []

unfoldable pub volume_loop : KyuubiCluster → List Volume → List ClusterRef → List Volume
volume_loop kyuubi volumes [] = volumes
volume_loop kyuubi volumes (cluster ∷ rest) =
    volume_loop kyuubi (volumes ++ volumes_of kyuubi cluster.type) rest

unfoldable pub construct_volumes : KyuubiCluster → List Volume
unfolding volumes_of volume_loop
construct_volumes kyuubi =
    volume_loop kyuubi
      (volume (cluster_resource_name kyuubi []) (cluster_resource_name kyuubi [])
          default_kyuubi_conf_file
        ∷ [])
      kyuubi.spec.cluster_refs
