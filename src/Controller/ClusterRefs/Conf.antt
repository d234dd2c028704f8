-- ===== src/Controller/ClusterRefs/Conf.antt =====
-- What the Spark and Hive configurations hold at each key.
use kyuubi_operator.Base.{
  String, ◌<>◌, ◌≡◌, inr, Option, none, some, [], arith, ◌==◌, if◌then◌else◌,
}
use mathlib.Core.Option.{or_else}
use kyuubi_operator.Base.Dict.{Dict, Order, lookup, assign_all, entries, IsMap, IsRange}
use kyuubi_operator.Base.Dict.Laws.{lookup-nil, lookup-insert, lookup-assign_all}
use kyuubi_operator.K8s.Client.{Library}
use kyuubi_operator.Api.{SparkCluster, KyuubiCluster}
use kyuubi_operator.Controller.ClusterRefs.{spark_base, spark_conf, hive_conf, hdfs_conf, core_conf}

-- A range over a map and its lookups, after a loop of assignments.
lookup-assign_range :
    (range : Order) (es m : Dict) (k : String)
    → IsRange range
    → IsMap es
    → lookup k (assign_all (range es) m) ≡ or_else (lookup k es) (lookup k m)
unfolding or_else
lookup-assign_range range es m k r u =
    ground (arith, lookup-assign_all k (range es) m (r.range-IsMap es u), r.lookup-range es u k)

-- What the operator itself puts in the Spark configuration.
abbrev pub computed_spark : Library → KyuubiCluster → SparkCluster → String → Option String
computed_spark L kyuubi cluster k =
    if k == "spark.kubernetes.namespace"
    then some kyuubi.meta.namespace
    else if k == "spark.kubernetes.container.image"
    then some (
        cluster.spark_image.repository
        <> (":" <> (if cluster.spark_image.tag == "" then "latest" else cluster.spark_image.tag)))
    else if k == "spark.master"
    then some (
        "k8s://https://"
        <> (L.getenv "KUBERNETES_SERVICE_HOST" <> (":" <> L.getenv "KUBERNETES_SERVICE_PORT")))
    else none

lookup-spark_base :
    (L : Library) (kyuubi : KyuubiCluster) (cluster : SparkCluster) (k : String)
    → lookup k (spark_base L kyuubi cluster) ≡ computed_spark L kyuubi cluster k
unfolding spark_base
lookup-spark_base L kyuubi cluster k = simp (lookup-insert, lookup-nil) (ground arith)

-- With defaults given, the Spark configuration holds at each key the value of the defaults, and
-- where they have none what the operator computes: the master from its environment, the image (with the
-- tag `latest` if none is given) and the namespace of the cluster. `sparkMaster` and `sparkNamespace`
-- of the reference are not read. This holds in whatever order the loop runs.
pub lookup-spark_conf :
    (L : Library) (range : Order) (kyuubi : KyuubiCluster) (cluster : SparkCluster)
    (defaults : Dict)
    → IsRange range
    → IsMap defaults
    → cluster.spark_defaults ≡ some defaults
    → (conf : Dict) × (spark_conf L range kyuubi cluster ≡ inr conf)
      × ((k : String)
          → lookup k conf ≡ or_else (lookup k defaults) (computed_spark L kyuubi cluster k))
unfolding spark_conf
lookup-spark_conf L range kyuubi cluster defaults r u e = (
  assign_all (range defaults) (spark_base L kyuubi cluster),
  rw e,
  λ k. rw (← lookup-spark_base L kyuubi cluster k) (lookup-assign_range range defaults _ k r u),
)

-- The loop over `hiveSite`, after what is derived from the HDFS sites.
pub lookup-hive_sites :
    (range : Order) (hdfs_site core_site hive_site : Option Dict)
    → IsRange range
    → IsMap (entries hive_site)
    → (k : String)
    → lookup k (hive_conf range hdfs_site core_site hive_site)
      ≡ or_else
          (lookup k (entries hive_site))
          (lookup k (hdfs_conf hdfs_site (core_conf core_site [])))
unfolding hive_conf
lookup-hive_sites range hdfs_site core_site hive_site r u k =
    lookup-assign_range range (entries hive_site) _ k r u
