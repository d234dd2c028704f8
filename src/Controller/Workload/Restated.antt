-- ===== src/Controller/Workload/Restated.antt =====
-- What the specification of the workload depends on.
use kyuubi_operator.Base.{String, ◌≡◌, refl, ap, ap₂, sym, ◌∙◌, List, [], ◌∷◌, ◌++◌, map}
use kyuubi_operator.K8s.Client.{Library}
use kyuubi_operator.Api.{KyuubiCluster, ClusterType, ClusterRef}
use kyuubi_operator.K8s.Objects.{VolumeMount, Volume}
use kyuubi_operator.Controller.Names.{
  cluster_resource_name, nine_resource_name, cluster_resource_labels, default_kyuubi_conf_dir,
  default_kyuubi_conf_file,
}
use kyuubi_operator.Controller.Volumes.{
  mount, volume, mounts_of, mount_loop, construct_volume_mounts, volumes_of, volume_loop,
  construct_volumes,
}
use kyuubi_operator.Controller.Workload.{construct_desired_kyuubi_workload}

abbrev pub types : List ClusterRef → List ClusterType
types refs = map (λ (r : ClusterRef). r.type) refs

-- Two clusters of one name that want the same replicas of the same image, and whose references have
-- the same types in the same order.
pub record Alike (a b : KyuubiCluster) : Type 0 where
  pub name : a.meta.name ≡ b.meta.name
  pub image : a.spec.kyuubi_image ≡ b.spec.kyuubi_image
  pub resource : a.spec.kyuubi_resource ≡ b.spec.kyuubi_resource
  pub refs : types a.spec.cluster_refs ≡ types b.spec.cluster_refs

-- What the two loops have in common.
unfoldable added : {A : Type 0} → (ClusterType → List A) → List A → List ClusterType → List A
added f found [] = found
added f found (t ∷ ts) = added f (found ++ f t) ts

added-agrees :
    {A : Type 0} (f g : ClusterType → List A) (found : List A) (ts : List ClusterType)
    → ((t : ClusterType) → f t ≡ g t)
    → added f found ts ≡ added g found ts
unfolding added
added-agrees f g found [] e = refl
added-agrees f g found (t ∷ ts) e =
    added-agrees f g (found ++ f t) ts e ∙ ap (λ x. added g (found ++ x) ts) (e t)

mount_loop-added :
    (kyuubi : KyuubiCluster) (mounts : List VolumeMount) (refs : List ClusterRef)
    → mount_loop kyuubi mounts refs ≡ added (mounts_of kyuubi) mounts (types refs)
unfolding mount_loop added
mount_loop-added kyuubi mounts [] = refl
mount_loop-added kyuubi mounts (r ∷ rest) =
    mount_loop-added kyuubi (mounts ++ mounts_of kyuubi r.type) rest

volume_loop-added :
    (kyuubi : KyuubiCluster) (volumes : List Volume) (refs : List ClusterRef)
    → volume_loop kyuubi volumes refs ≡ added (volumes_of kyuubi) volumes (types refs)
unfolding volume_loop added
volume_loop-added kyuubi volumes [] = refl
volume_loop-added kyuubi volumes (r ∷ rest) =
    volume_loop-added kyuubi (volumes ++ volumes_of kyuubi r.type) rest

module _ (a b : KyuubiCluster) (p : a.meta.name ≡ b.meta.name) where
  mounts_of-agrees : (t : ClusterType) → mounts_of a t ≡ mounts_of b t
  unfolding mounts_of
  mounts_of-agrees ClusterType.spark = rw p refl
  mounts_of-agrees ClusterType.hdfs = rw p refl
  mounts_of-agrees ClusterType.metastore = rw p refl
  mounts_of-agrees ClusterType.flink = refl

  volumes_of-agrees : (t : ClusterType) → volumes_of a t ≡ volumes_of b t
  unfolding volumes_of nine_resource_name
  volumes_of-agrees ClusterType.spark = rw p refl
  volumes_of-agrees ClusterType.hdfs = rw p refl
  volumes_of-agrees ClusterType.metastore = rw p refl
  volumes_of-agrees ClusterType.flink = refl

module _ (a b : KyuubiCluster) (e : Alike a b) where
  name_agrees : cluster_resource_name a [] ≡ cluster_resource_name b []
  unfolding cluster_resource_name
  name_agrees = rw e.name refl

  loops_agree :
      {A : Type 0} (f g : ClusterType → List A) (found : String → List A)
      → ((t : ClusterType) → f t ≡ g t)
      → added f (found (cluster_resource_name a [])) (types a.spec.cluster_refs)
        ≡ added g (found (cluster_resource_name b [])) (types b.spec.cluster_refs)
  loops_agree f g found h =
      added-agrees f g (found (cluster_resource_name a [])) (types a.spec.cluster_refs) h
      ∙ ap₂ (λ n. added g (found n)) name_agrees e.refs

  mounts_agree : construct_volume_mounts a ≡ construct_volume_mounts b
  unfolding construct_volume_mounts
  mounts_agree =
      mount_loop-added a _ a.spec.cluster_refs
      ∙ loops_agree (mounts_of a) (mounts_of b)
          (λ n. mount n default_kyuubi_conf_dir default_kyuubi_conf_file ∷ [])
          (mounts_of-agrees a b e.name)
      ∙ sym (mount_loop-added b _ b.spec.cluster_refs)

  volumes_agree : construct_volumes a ≡ construct_volumes b
  unfolding construct_volumes
  volumes_agree =
      volume_loop-added a _ a.spec.cluster_refs
      ∙ loops_agree (volumes_of a) (volumes_of b) (λ n. volume n n default_kyuubi_conf_file ∷ [])
          (volumes_of-agrees a b e.name)
      ∙ sym (volume_loop-added b _ b.spec.cluster_refs)

  -- The workload depends on nothing else of the cluster's specification.
  pub spec_agrees :
      (L : Library)
      → (construct_desired_kyuubi_workload L a).0.spec
        ≡ (construct_desired_kyuubi_workload L b).0.spec
  unfolding construct_desired_kyuubi_workload cluster_resource_labels
  spec_agrees L = rw (mounts_agree, volumes_agree, name_agrees, e.name, e.image, e.resource) refl
