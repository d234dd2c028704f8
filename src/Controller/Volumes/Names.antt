-- ===== src/Controller/Volumes/Names.antt =====
-- The mounts of the container and the volumes of the pod belong together.
use kyuubi_operator.Base.{String, ◌≡◌, refl, List, [], ◌∷◌, ◌++◌, map}
use mathlib.Core.List.{map-append}
use kyuubi_operator.K8s.Objects.{Volume, VolumeMount}
use kyuubi_operator.Api.{ClusterType, ClusterRef, KyuubiCluster}
use kyuubi_operator.Controller.Volumes.{
  mounts_of, mount_loop, construct_volume_mounts, volumes_of, volume_loop, construct_volumes,
}

abbrev pub mount_parts : VolumeMount → String × String
mount_parts m = (m.name, m.sub_path)

abbrev pub first_path : Volume → String × String
first_path v = elim v.items [ [] ↦ (v.name, "") | item ∷ rest ↦ (v.name, item.path) ]

parts_of :
    (kyuubi : KyuubiCluster) (t : ClusterType)
    → map mount_parts (mounts_of kyuubi t) ≡ map first_path (volumes_of kyuubi t)
unfolding mounts_of volumes_of
parts_of kyuubi ClusterType.spark = refl
parts_of kyuubi ClusterType.hdfs = refl
parts_of kyuubi ClusterType.metastore = refl
parts_of kyuubi ClusterType.flink = refl

parts_loop :
    (kyuubi : KyuubiCluster) (ms : List VolumeMount) (vs : List Volume) (refs : List ClusterRef)
    → map mount_parts ms ≡ map first_path vs
    → map mount_parts (mount_loop kyuubi ms refs) ≡ map first_path (volume_loop kyuubi vs refs)
unfolding mount_loop volume_loop
parts_loop kyuubi ms vs [] h = h
parts_loop kyuubi ms vs (cluster ∷ rest) h =
    parts_loop kyuubi (ms ++ mounts_of kyuubi cluster.type) (vs ++ volumes_of kyuubi cluster.type)
      rest (simp (map-append, h, parts_of kyuubi cluster.type))

-- The container mounts the volumes of the pod, each once and in their order, and the sub path of a
-- mount is the path under which its volume shows a key.
pub mounts-eq-volumes :
    (kyuubi : KyuubiCluster)
    → map mount_parts (construct_volume_mounts kyuubi) ≡ map first_path (construct_volumes kyuubi)
unfolding construct_volume_mounts construct_volumes
mounts-eq-volumes kyuubi = parts_loop kyuubi _ _ kyuubi.spec.cluster_refs refl
