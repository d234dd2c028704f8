-- ===== src/Controller/ClusterRefs.antt =====
-- The data of the config map for the referenced clusters (desiredClusterRefsConfigMap). Each
-- reference runs at most two loops over maps, in the orders `orders n` and `orders (n + 1)`.
pub mod Conf
pub mod Hive
pub mod Errors
pub mod Maps
pub mod Keys
pub mod NameNodes
use kyuubi_operator.Base.{
  ℕ, suc, String, ◌<>◌, ◌==◌, if◌then◌else◌, Option, none, some, List, [], ◌∷◌, ◌⊎◌, inl, inr,
}
use kyuubi_operator.Base.Dict.{Dict, Order, insert, index, has_key, entries, assign_all}
use kyuubi_operator.Base.Text.{split}
use kyuubi_operator.K8s.Objects.{ConfigMap, ObjectMeta}
use kyuubi_operator.K8s.Client.{Library, Error, other}
use kyuubi_operator.Api.{ClusterType, ClusterRef, SparkCluster, KyuubiCluster}
use kyuubi_operator.Controller.Names.{
  nine_resource_name, cluster_resource_labels, default_cluster_refs_name_suffix,
  default_spark_conf_file, fs_default_fs_conf_key, dfs_name_spaces_conf_key,
}
use kyuubi_operator.Controller.Utils.{map2_string, map2_xml}
use kyuubi_operator.Controller.Rbac.{owned}

abbrev pub nil_defaults : Error
nil_defaults = other "spark default conf should not be nil"

-- The case of a Spark cluster up to the loop over its defaults: `sparkConf` as computed.
unfoldable pub spark_base : Library → KyuubiCluster → SparkCluster → Dict
spark_base L kyuubi cluster =
    let tag = if cluster.spark_image.tag == "" then "latest" else cluster.spark_image.tag in
    let master =
      "k8s://https://"
      <> (L.getenv "KUBERNETES_SERVICE_HOST" <> (":" <> L.getenv "KUBERNETES_SERVICE_PORT")) in
    insert "spark.kubernetes.namespace" kyuubi.meta.namespace (
      insert "spark.kubernetes.container.image" (cluster.spark_image.repository <> (":" <> tag))
        (insert "spark.master" master []))

unfoldable pub spark_conf : Library → Order → KyuubiCluster → SparkCluster → Error ⊎ Dict
unfolding spark_base
spark_conf L range kyuubi cluster = elim cluster.spark_defaults [
  | none ↦ inl nil_defaults
  | some defaults ↦ inr (assign_all (range defaults) (spark_base L kyuubi cluster))
]

-- What the Hive configuration takes from `core-site.xml`.
unfoldable pub core_conf : Option Dict → Dict → Dict
core_conf none conf = conf
core_conf (some core_site) conf =
    if has_key fs_default_fs_conf_key core_site
    then insert fs_default_fs_conf_key (index core_site fs_default_fs_conf_key) conf
    else conf

abbrev pub name_space : Dict → String
name_space conf = index conf dfs_name_spaces_conf_key

-- The loop over the name nodes.
unfoldable pub name_node_loop : Dict → List String → Dict → Dict
name_node_loop hdfs_site [] conf = conf
name_node_loop hdfs_site (v ∷ rest) conf =
    let key = "dfs.namenode.rpc-address." <> (name_space conf <> ("." <> v)) in
    name_node_loop hdfs_site rest (insert key (index hdfs_site key) conf)

-- The name nodes of a name service that has several.
unfoldable pub ha_conf : Dict → Dict → Dict
unfolding name_node_loop
ha_conf hdfs_site conf =
    let nodes_key = "dfs.ha.namenodes." <> name_space conf in
    let conf' = insert nodes_key (index hdfs_site nodes_key) conf in
    let provider_key = "dfs.client.failover.proxy.provider." <> name_space conf' in
    let conf'' =
      insert provider_key
        "org.apache.hadoop.hdfs.server.namenode.ha.ConfiguredFailoverProxyProvider" conf' in
    let name_nodes = index hdfs_site ("dfs.ha.namenodes." <> name_space conf'') in
    name_node_loop hdfs_site (split b',' name_nodes) conf''

-- The one name node of a name service that does not list any.
unfoldable pub single_conf : Dict → Dict → Dict
single_conf hdfs_site conf =
    let key = "dfs.namenode.rpc-address." <> name_space conf in
    insert key (index hdfs_site key) conf

-- What the Hive configuration takes from `hdfs-site.xml`.
unfoldable pub hdfs_conf : Option Dict → Dict → Dict
hdfs_conf none conf = conf
hdfs_conf (some hdfs_site) conf =
    if has_key dfs_name_spaces_conf_key hdfs_site
    then (let conf' =
          insert dfs_name_spaces_conf_key (index hdfs_site dfs_name_spaces_conf_key) conf in
        if has_key ("dfs.ha.namenodes." <> name_space conf') hdfs_site
        then ha_conf hdfs_site conf'
        else single_conf hdfs_site conf')
    else conf

-- The case of a metastore up to `map2Xml`: `clusterConf`.
unfoldable pub hive_conf : Order → Option Dict → Option Dict → Option Dict → Dict
hive_conf range hdfs_site core_site hive_site =
    assign_all (range (entries hive_site)) (hdfs_conf hdfs_site (core_conf core_site []))

-- The first loop: the sites of the last HDFS cluster, or those given.
unfoldable pub hdfs_sites : Option Dict × Option Dict → List ClusterRef → Option Dict × Option Dict
hdfs_sites sites [] = sites
hdfs_sites sites (cluster ∷ rest) =
    hdfs_sites
      (elim cluster.type [
        | ClusterType.hdfs ↦ (cluster.hdfs.hdfs_site, cluster.hdfs.core_site)
        | _ ↦ sites
      ])
      rest

module _ (L : Library) (orders : ℕ → Order) (kyuubi : KyuubiCluster)
    (sites : Option Dict × Option Dict) where
  -- The cases of the switch on the type of the cluster.
  unfoldable pub case_data : ClusterType → ℕ → ClusterRef → Dict → Error ⊎ Dict
  case_data ClusterType.spark n cluster contents =
      elim (spark_conf L (orders n) kyuubi cluster.spark) [
        | inl e ↦ inl e
        | inr conf ↦
            inr (insert default_spark_conf_file (map2_string (orders (suc n)) conf) contents)
      ]
  case_data ClusterType.hdfs n cluster contents = inr (
      insert "core-site.xml" (map2_xml L (orders (suc n)) (entries cluster.hdfs.core_site))
        (insert "hdfs-site.xml" (map2_xml L (orders n) (entries cluster.hdfs.hdfs_site)) contents))
  case_data ClusterType.metastore n cluster contents = inr (
      insert "hive-site.xml"
        (map2_xml L (orders (suc n))
          (hive_conf (orders n) sites.0 sites.1 cluster.metastore.hive_site))
        contents)
  case_data ClusterType.flink n cluster contents = inr contents

  -- One round of the second loop: what `cmDesired.Data` becomes.
  abbrev pub ref_data : ℕ → ClusterRef → Dict → Error ⊎ Dict
  ref_data n cluster contents = case_data cluster.type n cluster contents

  unfoldable pub ref_loop : ℕ → List ClusterRef → Dict → Error ⊎ Dict
  ref_loop n [] contents = inr contents
  ref_loop n (cluster ∷ rest) contents = elim (ref_data n cluster contents) [
    | inl e ↦ inl e
    | inr contents' ↦ ref_loop (suc (suc n)) rest contents'
  ]

module _ (L : Library) (orders : ℕ → Order) where
  abbrev pub refs_data : KyuubiCluster → Error ⊎ Dict
  refs_data kyuubi =
      ref_loop L orders kyuubi (hdfs_sites (none, none) kyuubi.spec.cluster_refs) 0
        kyuubi.spec.cluster_refs []

  abbrev pub cluster_refs_meta : KyuubiCluster → ObjectMeta
  cluster_refs_meta kyuubi = record {
    name = nine_resource_name kyuubi (default_cluster_refs_name_suffix ∷ []);
    namespace = kyuubi.meta.namespace;
    labels = cluster_resource_labels kyuubi;
    owner_references = [];
    others = [];
  }

  -- The config map, or the error with which the method returns.
  unfoldable pub desired_cluster_refs_config_map : KyuubiCluster → Error ⊎ ConfigMap
  desired_cluster_refs_config_map kyuubi = elim (refs_data kyuubi) [
    | inl e ↦ inl e
    | inr contents ↦
        let (meta, e) = owned L kyuubi (cluster_refs_meta kyuubi) in
        elim e [ some e' ↦ inl e' | none ↦ inr (record { meta = meta; contents = some contents }) ]
  ]
