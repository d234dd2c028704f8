-- ===== src/DeepCopy/Heap.antt =====
-- The memory of a Go program, as far as the deep copies of api/v1alpha1 read and write it: maps and
-- slices stand at addresses, and a struct holds the addresses of its maps and slices. A nil map or
-- slice is `none`.
use kyuubi_operator.Base.{ℕ, suc, String, Option, some, List, []}
use native.Mathlib.Decide.{ℕ_discrete}
use mathlib.Core.Logic.{ite}
use kyuubi_operator.Base.Dict.{Dict}
use kyuubi_operator.Api.{ClusterType, ImageConfig, ResourceConfig, ExposedType}

-- Types of the Kubernetes libraries, as they stand in memory: `ObjectMeta`, `ServicePort`, `Time`,
-- `ListMeta`, and what their own memory holds.
pub record Foreign : Type 1 where
  pub Meta : Type 0
  pub Port : Type 0
  pub Time : Type 0
  pub ListMeta : Type 0
  pub Other : Type 0

abbrev pub Address : Type 0
Address = Option ℕ

pub record StoredSparkCluster : Type 0 where
  pub spark_master : String
  pub spark_image : ImageConfig
  pub spark_namespace : String
  pub spark_defaults : Address

pub record StoredMetastoreCluster : Type 0 where
  pub hive_site : Address

pub record StoredHdfsCluster : Type 0 where
  pub core_site : Address
  pub hdfs_site : Address

pub record StoredClusterRef : Type 0 where
  pub name : String
  pub type : ClusterType
  pub spark : StoredSparkCluster
  pub metastore : StoredMetastoreCluster
  pub hdfs : StoredHdfsCluster

pub record StoredSpec : Type 0 where
  pub kyuubi_version : String
  pub kyuubi_image : ImageConfig
  pub kyuubi_resource : ResourceConfig
  pub kyuubi_conf : Address
  pub cluster_refs : Address

pub record TypeMeta : Type 0 where
  pub kind : String
  pub api_version : String

module _ (F : Foreign) where
  pub record StoredExposedInfo : Type 0 where
    pub name : String
    pub exposed_type : ExposedType
    pub service_name : String
    pub service_port : F.Port

  pub record StoredStatus : Type 0 where
    pub exposed_infos : Address
    pub creation_time : F.Time
    pub update_time : F.Time

  pub record StoredKyuubiCluster : Type 0 where
    pub type_meta : TypeMeta
    pub meta : F.Meta
    pub spec : StoredSpec
    pub status : StoredStatus

  pub record StoredKyuubiClusterList : Type 0 where
    pub type_meta : TypeMeta
    pub list_meta : F.ListMeta
    pub items : Address

  pub data Cell : Type 0 where
    dict : Dict → Cell
    refs : List StoredClusterRef → Cell
    infos : List StoredExposedInfo → Cell
    clusters : List StoredKyuubiCluster → Cell
    other : F.Other → Cell

  pub record Heap : Type 0 where
    pub cells : ℕ → Option Cell
    -- All addresses from here on are free.
    pub next : ℕ

  -- What an address of each type refers to.
  abbrev pub dict_at : Option Cell → Dict
  dict_at (some (Cell.dict d)) = d
  dict_at _ = []

  abbrev pub refs_at : Option Cell → List StoredClusterRef
  refs_at (some (Cell.refs xs)) = xs
  refs_at _ = []

  abbrev pub infos_at : Option Cell → List StoredExposedInfo
  infos_at (some (Cell.infos xs)) = xs
  infos_at _ = []

  abbrev pub clusters_at : Option Cell → List StoredKyuubiCluster
  clusters_at (some (Cell.clusters xs)) = xs
  clusters_at _ = []

  abbrev pub Alloc : Type 0 → Type 0
  Alloc A = Heap → A × Heap

  abbrev pub pure : {A : Type 0} → A → Alloc A
  pure a h = (a, h)

  abbrev pub fill : ℕ → Cell → (ℕ → Option Cell) → ℕ → Option Cell
  fill a c cells b = ite (ℕ_discrete b a) (some c) (cells b)

  -- `make`, and a write to what it has made.
  abbrev pub alloc : Cell → Alloc ℕ
  alloc c h = (h.next, record { cells = fill h.next c h.cells; next = suc h.next })

  abbrev pub store : ℕ → Cell → Alloc (Unit {0})
  store a c h = (tt, record h { cells = fill a c h.cells })

  abbrev pub load : ℕ → Alloc (Option Cell)
  load a h = (h.cells a, h)

module _ {F : Foreign} {A B : Type 0} where
  infixl 10 ◌>>=◌
  abbrev pub ◌>>=◌ : Alloc F A → (A → Alloc F B) → Alloc F B
  ◌>>=◌ m f h = let (a, h') = m h in f a h'

module _ {F : Foreign} {B : Type 0} where
  infixl 10 ◌>>◌
  abbrev pub ◌>>◌ : Alloc F (Unit {0}) → Alloc F B → Alloc F B
  m >> n = m >>= λ _. n
