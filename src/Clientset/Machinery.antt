-- ===== src/Clientset/Machinery.antt =====
-- What both clients under client/clientset/versioned share: the types of the Kubernetes libraries,
-- and the interface `KyuubiClusterInterface`.
use kyuubi_operator.Base.{ℕ, String, Bool, Option, none, List, []}
use kyuubi_operator.Api.{KyuubiCluster, ImageConfig}
use kyuubi_operator.K8s.Client.{Error}

-- Types that the clients only pass on, and the zero value of `ListMeta`.
pub record Machinery : Type 1 where
  pub Context : Type 0
  pub GetOptions : Type 0
  pub CreateOptions : Type 0
  pub UpdateOptions : Type 0
  pub DeleteOptions : Type 0
  pub PatchOptions : Type 0
  pub PatchType : Type 0
  pub Selection : Type 0
  pub Watch : Type 0
  pub ListMeta : Type 0
  pub no_list_meta : ListMeta

abbrev pub no_image : ImageConfig
no_image = record { repository = ""; tag = ""; pull_policy = ""; pull_secrets = "" }

-- `KyuubiCluster{}`
abbrev pub zero_cluster : KyuubiCluster
zero_cluster = record {
  meta = record { name = ""; namespace = ""; labels = []; owner_references = []; others = [] };
  spec = record {
    kyuubi_version = "";
    kyuubi_image = no_image;
    kyuubi_resource = record { replicas = 0 };
    kyuubi_conf = none;
    cluster_refs = [];
  };
  status = record { exposed_infos = none; creation_time = 0; update_time = 0 };
}

-- What a Go function returns, unless it panics.
pub data Panicking (A : Type 0) : Type 0 where
  returns : A → Panicking A
  panics : Panicking A

module _ (M : Machinery) where
  -- The fields that the clients name. `timeout_seconds` is an `int64`, here its two's complement.
  pub record ListOptions : Type 0 where
    pub timeout_seconds : Option ℕ
    pub watch : Bool
    pub selection : M.Selection

  pub record KyuubiClusterList : Type 0 where
    pub list_meta : M.ListMeta
    pub items : List KyuubiCluster

  -- `KyuubiClusterList{}`
  abbrev pub zero_list : KyuubiClusterList
  zero_list = record { list_meta = M.no_list_meta; items = [] }

  -- A method returns a pointer, which is nil or not, and an error; both can be there.
  abbrev pub Method : Type 0 → Type 0 → Type 0
  Method W A = W → Panicking (A × Option Error) × W

  -- A method with an error only.
  abbrev pub Action : Type 0 → Type 0
  Action W = W → Panicking (Option Error) × W

  -- The cluster that is passed to a method is not nil.
  pub record KyuubiClusterInterface (W : Type 0) : Type 0 where
    pub create : M.Context → KyuubiCluster → M.CreateOptions → Method W (Option KyuubiCluster)
    pub update : M.Context → KyuubiCluster → M.UpdateOptions → Method W (Option KyuubiCluster)
    pub update_status :
        M.Context → KyuubiCluster → M.UpdateOptions → Method W (Option KyuubiCluster)
    pub delete : M.Context → String → M.DeleteOptions → Action W
    pub delete_collection : M.Context → M.DeleteOptions → ListOptions → Action W
    pub get : M.Context → String → M.GetOptions → Method W (Option KyuubiCluster)
    pub list : M.Context → ListOptions → Method W (Option KyuubiClusterList)
    pub watch : M.Context → ListOptions → Method W (Option M.Watch)
    pub patch :
        M.Context
        → String
        → M.PatchType
        → String
        → M.PatchOptions
        → List String
        → Method W (Option KyuubiCluster)
