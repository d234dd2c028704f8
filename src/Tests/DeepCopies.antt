-- ===== src/Tests/DeepCopies.antt =====
-- A list of one cluster in memory, and its copies.
use kyuubi_operator.Base.{ℕ, String, ◌≡◌, refl, ◌≢◌, Option, none, some, [], ◌∷◌, arith}
use mathlib.Core.Logic.{ite}
use native.Mathlib.Decide.{ℕ_discrete}
use kyuubi_operator.Base.Dict.{Order, IsRange, lookup}
use kyuubi_operator.Api.{ClusterType}
use kyuubi_operator.DeepCopy.Heap.{
  Foreign, Cell, Heap, pure, StoredKyuubiCluster, StoredKyuubiClusterList, StoredClusterRef, fill,
}
use kyuubi_operator.DeepCopy.Shape.{Copied, plain}
use kyuubi_operator.DeepCopy.References.{dict_shape}
use kyuubi_operator.DeepCopy.Copier.{plain-IsCopier, dict-IsCopier}
use kyuubi_operator.DeepCopy.Structs.{ForeignShapes, cluster_shape, cluster_list_shape}
use kyuubi_operator.DeepCopy.Apart.{
  deep_copy_cluster_object-Copied, deep_copy_list_object-Copied, copy_kyuubi_cluster_list_apart,
}
use kyuubi_operator.DeepCopy.{
  ForeignCopies, Object, copy_dict, deep_copy_cluster_object, deep_copy_list_object,
  copy_kyuubi_cluster_list,
}
use kyuubi_operator.Tests.{in_order, in_order-IsRange, image}

-- Objects of the libraries: the meta data has a map of labels, the rest no memory.
abbrev foreign : Foreign
foreign = record { Meta = Option ℕ; Port = ℕ; Time = ℕ; ListMeta = String; Other = Unit {0} }

abbrev ranges : ℕ → Order
ranges a = in_order

ranges-IsRange : (a : ℕ) → IsRange (ranges a)
ranges-IsRange a = in_order-IsRange

abbrev no_copies : ForeignCopies foreign
no_copies = record {
  copy_meta = pure foreign;
  copy_port = pure foreign;
  copy_time = pure foreign;
  copy_list_meta = pure foreign;
}

abbrev foreign_copies : ForeignCopies foreign
foreign_copies = record no_copies { copy_meta = copy_dict no_copies ranges }

abbrev foreign_shapes : ForeignShapes foreign foreign_copies
foreign_shapes = record {
  MetaValue = Option (String → Option String);
  PortValue = ℕ;
  TimeValue = ℕ;
  ListMetaValue = String;
  meta_shape = dict_shape foreign;
  port_shape = plain foreign ℕ;
  time_shape = plain foreign ℕ;
  list_meta_shape = plain foreign String;
  meta-IsCopier = dict-IsCopier foreign no_copies ranges ranges-IsRange;
  port-IsCopier = plain-IsCopier foreign ℕ;
  time-IsCopier = plain-IsCopier foreign ℕ;
  list_meta-IsCopier = plain-IsCopier foreign String;
}

abbrev hdfs_ref : StoredClusterRef
hdfs_ref = record {
  name = "hdfs";
  type = ClusterType.hdfs;
  spark = record {
    spark_master = "k8s";
    spark_image = image;
    spark_namespace = "";
    spark_defaults = none;
  };
  metastore = record { hive_site = none };
  hdfs = record { core_site = none; hdfs_site = some 1 };
}

abbrev cluster : StoredKyuubiCluster foreign
cluster = record {
  type_meta = record { kind = "KyuubiCluster"; api_version = "v1alpha1" };
  meta = some 0;
  spec = record {
    kyuubi_version = "1.8.1";
    kyuubi_image = image;
    kyuubi_resource = record { replicas = 1 };
    kyuubi_conf = none;
    cluster_refs = some 2;
  };
  status = record { exposed_infos = none; creation_time = 1; update_time = 2 };
}

abbrev clusters : StoredKyuubiClusterList foreign
clusters = record {
  type_meta = record { kind = "KyuubiClusterList"; api_version = "v1alpha1" };
  list_meta = "7";
  items = some 3;
}

abbrev heap : Heap foreign
heap = record {
  cells = λ a. ite (ℕ_discrete a 1) (some (Cell.dict (("a", "b") ∷ []))) (
      ite (ℕ_discrete a 2) (some (Cell.refs (hdfs_ref ∷ [])))
        (ite (ℕ_discrete a 3) (some (Cell.clusters (cluster ∷ []))) (some (Cell.dict []))));
  next = 4;
}

-- The cluster refers to allocated memory below 3 only, and its copy to that from 4 on.
cluster-Within :
    (cluster_shape foreign foreign_copies ranges ranges-IsRange foreign_shapes).Within 0 4 heap
      cluster
unfolding ℕ_discrete lookup
cluster-Within = (
  tt,
  (
    (omega arith, omega arith, tt),
    (
      (
        tt,
        (
          tt,
          (
            omega arith,
            omega arith,
            ((tt, ((tt, tt), (tt, (tt, (omega arith, omega arith, (refl, tt)))))), tt),
          ),
        ),
      ),
      (tt, (tt, tt)),
    ),
  ),
)

clusters-Within :
    (cluster_list_shape foreign foreign_copies ranges ranges-IsRange foreign_shapes).Within 0 4 heap
      clusters
unfolding ℕ_discrete
clusters-Within = (tt, (tt, (omega arith, omega arith, (cluster-Within, tt))))

deep_copy_cluster_object-Copied_example :
    ((x' : StoredKyuubiCluster foreign) × (h' : Heap foreign) × (deep_copy_cluster_object
          foreign_copies ranges
          (some cluster)
          heap
        ≡ (some (Object.cluster x'), h'))
      × Copied foreign
          (cluster_shape foreign foreign_copies ranges ranges-IsRange foreign_shapes)
          cluster
          heap
          x'
          h')
    × (deep_copy_cluster_object foreign_copies ranges none heap ≡ (none, heap))
deep_copy_cluster_object-Copied_example =
    deep_copy_cluster_object-Copied foreign foreign_copies ranges ranges-IsRange foreign_shapes
      cluster heap cluster-Within

deep_copy_list_object-Copied_example :
    (x' : StoredKyuubiClusterList foreign) × (h' : Heap foreign) × (deep_copy_list_object
        foreign_copies ranges
        (some clusters)
        heap
      ≡ (some (Object.cluster_list x'), h'))
    × Copied foreign
        (cluster_list_shape foreign foreign_copies ranges ranges-IsRange foreign_shapes)
        clusters
        heap
        x'
        h'
deep_copy_list_object-Copied_example =
    deep_copy_list_object-Copied foreign foreign_copies ranges ranges-IsRange foreign_shapes
      clusters heap clusters-Within

-- A write of an empty map to one address.
abbrev written : ℕ → Heap foreign → Heap foreign
written a h = record h { cells = fill foreign a (Cell.dict []) h.cells }

written_elsewhere : (a b : ℕ) (h : Heap foreign) → b ≢ a → (written a h).cells b ≡ h.cells b
unfolding ℕ_discrete
written_elsewhere a b h n = ground arith

copy_kyuubi_cluster_list_apart_example :
    let S = cluster_list_shape foreign foreign_copies ranges ranges-IsRange foreign_shapes in
    let o = copy_kyuubi_cluster_list foreign_copies ranges clusters heap in
    (S.value (written 5 o.1) clusters ≡ S.value heap clusters)
    × (S.value (written 0 o.1) o.0 ≡ S.value heap clusters)
copy_kyuubi_cluster_list_apart_example =
    copy_kyuubi_cluster_list_apart foreign foreign_copies ranges ranges-IsRange foreign_shapes
      clusters heap (written 5 (copy_kyuubi_cluster_list foreign_copies ranges clusters heap).1)
      (written 0 (copy_kyuubi_cluster_list foreign_copies ranges clusters heap).1) clusters-Within
      (λ a p q.
        written_elsewhere 5 a (copy_kyuubi_cluster_list foreign_copies ranges clusters heap).1
          (omega (arith, q)))
      (λ a p q.
        written_elsewhere 0 a (copy_kyuubi_cluster_list foreign_copies ranges clusters heap).1
          (omega (arith, p)))
