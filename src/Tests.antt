-- ===== src/Tests.antt =====
-- Inputs for runs of the operator; the child modules apply the theorems to them.
mod World
mod Functions
mod Steps
mod DeepCopies
mod Clients
mod Starts
mod Passes
mod Histories
mod Texts
use kyuubi_operator.Controller.Reconcile.Requests.{IsPlain}
use kyuubi_operator.Base.{◌<>◌, refl, Option, none, some, List, [], ◌∷◌, arith, ◌==◌, if◌then◌else◌}
use kyuubi_operator.K8s.Client.{Library}
use kyuubi_operator.Base.Dict.{Dict, Order, IsRange}
use kyuubi_operator.Api.{
  ClusterType, ClusterRef, KyuubiCluster, SparkCluster, HdfsCluster, ImageConfig,
}
use kyuubi_operator.K8s.Objects.{NamespacedName}
use kyuubi_operator.Controller.ConfigMaps.{Orders}
use kyuubi_operator.Controller.Status.{exposed_infos}

abbrev pub in_order : Order
in_order m = m

pub in_order-IsRange : IsRange in_order
in_order-IsRange = record { range-IsMap = λ m u. u; lookup-range = λ m u k. refl }

abbrev pub library : Library
library = record {
  controller_reference = λ kyuubi meta. (kyuubi.meta.name ∷ [], none);
  getenv = λ name. if name == "KUBERNETES_SERVICE_HOST" then "10.0.0.1" else "443";
  format_xml = λ xml prefix indent. xml;
  sprint = λ req. req.namespace <> ("/" <> req.name);
}

abbrev pub image : ImageConfig
image = record { repository = "r"; tag = ""; pull_policy = "Always"; pull_secrets = "" }

abbrev pub spark_with : Option Dict → SparkCluster
spark_with defaults = record {
  spark_master = "k8s";
  spark_image = image;
  spark_namespace = "dwh";
  spark_defaults = defaults;
}

abbrev pub no_hdfs : HdfsCluster
no_hdfs = record { core_site = none; hdfs_site = none }

abbrev pub ha_site : Dict
ha_site =
    ("dfs.nameservices", "n")
    ∷ ("dfs.ha.namenodes.n", "nn1,nn2")
    ∷ ("dfs.namenode.rpc-address.n.nn1", "h1:8020")
    ∷ ("dfs.namenode.rpc-address.n.nn2", "h2:8020")
    ∷ []

abbrev pub ha_hdfs : HdfsCluster
ha_hdfs = record { core_site = some (("fs.defaultFS", "hdfs://n") ∷ []); hdfs_site = some ha_site }

abbrev pub ref_of : ClusterType → Option Dict → HdfsCluster → ClusterRef
ref_of t defaults hdfs = record {
  name = "ref";
  type = t;
  spark = spark_with defaults;
  metastore = record { hive_site = some (("a", "b") ∷ []) };
  hdfs = hdfs;
}

abbrev pub cluster_with : List ClusterRef → KyuubiCluster
cluster_with refs = record {
  meta = record { name = "k"; namespace = "ns"; labels = []; owner_references = []; others = [] };
  spec = record {
    kyuubi_version = "1.8.1";
    kyuubi_image = image;
    kyuubi_resource = record { replicas = 1 };
    kyuubi_conf = some (("x", "y") ∷ []);
    cluster_refs = refs;
  };
  status = record { exposed_infos = none; creation_time = 0; update_time = 0 };
}

abbrev pub all_refs : List ClusterRef
all_refs =
    ref_of ClusterType.metastore none no_hdfs
    ∷ ref_of ClusterType.spark (some (("spark.master", "local") ∷ [])) no_hdfs
    ∷ ref_of ClusterType.hdfs none ha_hdfs
    ∷ []

abbrev pub orders : Orders
orders = record {
  kyuubi_conf = in_order;
  kyuubi_compare = in_order;
  refs = λ n. in_order;
  refs_compare = in_order;
}

abbrev pub plain : NamespacedName
plain = record { namespace = "ns"; name = "k" }

pub plain-IsPlain : IsPlain library plain
plain-IsPlain = record { sprint = refl; namespace = omega arith; name = omega arith }
