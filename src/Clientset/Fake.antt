-- ===== src/Clientset/Fake.antt =====
-- client/clientset/versioned/typed/kyuubi-operator/v1alpha1/fake/fake_kyuubicluster.go: the methods
-- of `FakeKyuubiClusters`, which ignore the context.
pub mod Listed
use kyuubi_operator.Base.{String, Bool, Option, none, some, List, [], ◌∷◌, ◌++◌, if◌then◌else◌}
use kyuubi_operator.Api.{KyuubiCluster}
use kyuubi_operator.Api.Registration.{GroupVersionResource, GroupVersionKind, scheme_group_version}
use kyuubi_operator.K8s.Client.{Error}
use kyuubi_operator.Clientset.Machinery.{
  Machinery, ListOptions, KyuubiClusterList, zero_cluster, zero_list, Method, Action, Panicking,
  returns, panics, KyuubiClusterInterface,
}
use kyuubi_operator.Clientset.Tracking.{
  Object, cluster, cluster_list, Fake, get_action, list_action, watch_action, create_action,
  update_action, update_subresource_action, delete_action_with_options, delete_collection_action,
  patch_subresource_action,
}

abbrev pub kyuubiclusters_resource : GroupVersionResource
kyuubiclusters_resource = record {
  group_version = scheme_group_version;
  resource = "kyuubiclusters";
}

abbrev pub kyuubiclusters_kind : GroupVersionKind
kyuubiclusters_kind = record { group_version = scheme_group_version; kind = "KyuubiCluster" }

-- `if obj == nil { return nil, err }`, and the type assertion on `obj`.
unfoldable pub as_cluster :
    {M : Machinery}
    → Option (Object M) × Option Error
    → Panicking (Option KyuubiCluster × Option Error)
as_cluster (none, err) = returns (none, err)
as_cluster (some (cluster c), err) = returns (some c, err)
as_cluster (some _, err) = panics

-- The loop over the items appends those whose labels match.
unfoldable pub list_loop :
    (KyuubiCluster → Bool) → List KyuubiCluster → List KyuubiCluster → List KyuubiCluster
list_loop match_ [] items = items
list_loop match_ (item ∷ rest) items =
    list_loop match_ rest (if match_ item then items ++ item ∷ [] else items)

module _ (M : Machinery) (W : Type 0) where
  pub record FakeKyuubiClusters : Type 1 where
    pub fake : Fake M W
    pub ns : String

-- `if label == nil { label = everything }`
abbrev pub or_else : {A : Type 0} → A → Option A → A
or_else a none = a
or_else a (some b) = b

-- What a method makes of an answer.
abbrev pub answered : {A B W : Type 0} → (A → B) → A × W → B × W
answered f (a, w) = (f a, w)

-- The error of an answer.
abbrev pub error_of : {A : Type 0} → A × Option Error → Panicking (Option Error)
error_of (o, err) = returns err

module _ {M : Machinery} {W : Type 0} where
  -- `label`, or everything where it is nil.
  unfoldable pub label_of : (F : Fake M W) → ListOptions M → F.Selector
  label_of F opts = or_else F.everything (F.extract_label opts)

  -- What List makes of the answer.
  unfoldable pub filtered :
      (F : Fake M W)
      → ListOptions M
      → Option (Object M) × Option Error
      → Panicking (Option (KyuubiClusterList M) × Option Error)
  unfolding list_loop label_of
  filtered F opts (none, err) = returns (none, err)
  filtered F opts (some (cluster_list l), err) = returns (
    some (record {
      list_meta = l.list_meta;
      items = list_loop (λ item. F.matches (label_of F opts) item.meta.labels) l.items [];
    }),
    err,
  )
  filtered F opts (some _, err) = panics

  unfoldable pub get :
      FakeKyuubiClusters M W → M.Context → String → M.GetOptions → Method M W (Option KyuubiCluster)
  unfolding as_cluster
  get c ctx name options w =
      answered as_cluster
        (c.fake.invokes (get_action kyuubiclusters_resource c.ns name) (cluster zero_cluster) w)

  unfoldable pub list :
      FakeKyuubiClusters M W → M.Context → ListOptions M → Method M W (Option (KyuubiClusterList M))
  unfolding filtered
  list c ctx opts w = answered (filtered c.fake opts) (
      c.fake.invokes (list_action kyuubiclusters_resource kyuubiclusters_kind c.ns opts)
        (cluster_list (zero_list M)) w)

  unfoldable pub watch :
      FakeKyuubiClusters M W → M.Context → ListOptions M → Method M W (Option M.Watch)
  watch c ctx opts w =
      answered returns (c.fake.invokes_watch (watch_action kyuubiclusters_resource c.ns opts) w)

  unfoldable pub create :
      FakeKyuubiClusters M W
      → M.Context
      → KyuubiCluster
      → M.CreateOptions
      → Method M W (Option KyuubiCluster)
  unfolding as_cluster
  create c ctx kyuubi_cluster opts w = answered as_cluster (
      c.fake.invokes (create_action kyuubiclusters_resource c.ns kyuubi_cluster)
        (cluster zero_cluster) w)

  unfoldable pub update :
      FakeKyuubiClusters M W
      → M.Context
      → KyuubiCluster
      → M.UpdateOptions
      → Method M W (Option KyuubiCluster)
  unfolding as_cluster
  update c ctx kyuubi_cluster opts w = answered as_cluster (
      c.fake.invokes (update_action kyuubiclusters_resource c.ns kyuubi_cluster)
        (cluster zero_cluster) w)

  unfoldable pub update_status :
      FakeKyuubiClusters M W
      → M.Context
      → KyuubiCluster
      → M.UpdateOptions
      → Method M W (Option KyuubiCluster)
  unfolding as_cluster
  update_status c ctx kyuubi_cluster opts w = answered as_cluster (
      c.fake.invokes
        (update_subresource_action kyuubiclusters_resource "status" c.ns kyuubi_cluster)
        (cluster zero_cluster) w)

  unfoldable pub delete : FakeKyuubiClusters M W → M.Context → String → M.DeleteOptions → Action M W
  delete c ctx name opts w = answered error_of (
      c.fake.invokes (delete_action_with_options kyuubiclusters_resource c.ns name opts)
        (cluster zero_cluster) w)

  unfoldable pub delete_collection :
      FakeKyuubiClusters M W → M.Context → M.DeleteOptions → ListOptions M → Action M W
  delete_collection c ctx opts list_opts w = answered error_of (
      c.fake.invokes (delete_collection_action kyuubiclusters_resource c.ns list_opts)
        (cluster_list (zero_list M)) w)

  unfoldable pub patch :
      FakeKyuubiClusters M W
      → M.Context
      → String
      → M.PatchType
      → String
      → M.PatchOptions
      → List String
      → Method M W (Option KyuubiCluster)
  unfolding as_cluster
  patch c ctx name pt data_ opts subresources w = answered as_cluster (
      c.fake.invokes
        (patch_subresource_action kyuubiclusters_resource c.ns name pt data_ subresources)
        (cluster zero_cluster) w)

  -- `FakeKyuubiClusters` as a `KyuubiClusterInterface`.
  unfoldable pub cluster_interface : FakeKyuubiClusters M W → KyuubiClusterInterface M W
  unfolding get list watch create update update_status delete delete_collection patch
  cluster_interface c = record {
    create = create c;
    update = update c;
    update_status = update_status c;
    delete = delete c;
    delete_collection = delete_collection c;
    get = get c;
    list = list c;
    watch = watch c;
    patch = patch c;
  }
