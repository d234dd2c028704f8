-- ===== src/Controller/Names.antt =====
-- constants.go, and the names, labels and environment of common.go.
pub mod Distinct
use kyuubi_operator.Base.{String, ◌<>◌, List, [], ◌∷◌}
use kyuubi_operator.Base.Dict.{Dict}
use kyuubi_operator.K8s.Objects.{EnvVar}
use kyuubi_operator.Api.{KyuubiCluster}

abbrev pub default_kyuubi_conf_file : String
default_kyuubi_conf_file = "kyuubi-defaults.conf"

abbrev pub default_kyuubi_conf_dir : String
default_kyuubi_conf_dir = "/opt/kyuubi/conf"

abbrev pub default_spark_conf_file : String
default_spark_conf_file = "spark-defaults.conf"

abbrev pub default_spark_conf_dir : String
default_spark_conf_dir = "/opt/spark/conf"

abbrev pub default_hive_site_file : String
default_hive_site_file = "hive-site.xml"

abbrev pub default_hdfs_site_file : String
default_hdfs_site_file = "hdfs-site.xml"

abbrev pub default_core_site_file : String
default_core_site_file = "core-site.xml"

abbrev pub default_name_suffix : String
default_name_suffix = "-kyuubi"

abbrev pub default_cluster_refs_name_suffix : String
default_cluster_refs_name_suffix = "-clusterrefs"

abbrev pub default_cluster_sign : String
default_cluster_sign = "kyuubi"

abbrev pub fs_default_fs_conf_key : String
fs_default_fs_conf_key = "fs.defaultFS"

abbrev pub dfs_name_spaces_conf_key : String
dfs_name_spaces_conf_key = "dfs.nameservices"

-- `strings.Join(suffixs, "-")`
unfoldable pub join : List String → String
join [] = ""
join (s ∷ []) = s
join (s ∷ t ∷ rest) = s <> ("-" <> join (t ∷ rest))

unfoldable pub nine_resource_name : KyuubiCluster → List String → String
unfolding join
nine_resource_name cluster suffixs = cluster.meta.name <> join suffixs

unfoldable pub cluster_resource_name : KyuubiCluster → List String → String
unfolding join
cluster_resource_name cluster suffixs = cluster.meta.name <> (default_name_suffix <> join suffixs)

unfoldable pub cluster_resource_labels : KyuubiCluster → Dict
cluster_resource_labels cluster =
    ("cluster", cluster.meta.name) ∷ ("app", default_cluster_sign) ∷ []

unfoldable pub default_downward_api : List EnvVar
default_downward_api =
    record { name = "POD_IP"; field_path = "status.podIP" }
    ∷ record { name = "POD_NAME"; field_path = "metadata.name" }
    ∷ record { name = "NAMESPACE"; field_path = "metadata.namespace" }
    ∷ record { name = "POD_UID"; field_path = "metadata.uid" }
    ∷ record { name = "HOST_IP"; field_path = "status.hostIP" }
    ∷ []
