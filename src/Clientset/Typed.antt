-- ===== src/Clientset/Typed.antt =====
-- client/clientset/versioned/typed/kyuubi-operator/v1alpha1/kyuubicluster.go: the methods of
-- `kyuubiClusters`. A client that is nil panics at the first call.
pub mod Timeouts
use kyuubi_operator.Base.{ℕ, ◌*◌, String, true, Option, none, some, List, [], ◌∷◌}
use Prim.Native.Nat.{◌%◌}
use kyuubi_operator.Api.{KyuubiCluster}
use kyuubi_operator.Clientset.Machinery.{
  Machinery, ListOptions, KyuubiClusterList, zero_cluster, zero_list, Method, Action, Panicking,
  returns, panics, KyuubiClusterInterface,
}
use kyuubi_operator.Clientset.Rest.{
  Verb, Params, Body, Call, Request, Rest, namespace, resource, name, sub_resource,
  versioned_params, timeout, body, of_get, of_list, of_create, of_update, of_patch, of_cluster,
  of_delete, of_bytes,
}

-- An `int64` is a number below this, in two's complement.
abbrev pub word_size : ℕ
word_size = 18446744073709551616

-- `time.Second`
abbrev pub time_second : ℕ
time_second = 1000000000

-- `time.Duration(*opts.TimeoutSeconds) * time.Second`, or zero for nil.
unfoldable pub timeout_of : Option ℕ → ℕ
timeout_of none = 0
timeout_of (some seconds) = seconds * time_second % word_size

module _ (M : Machinery) (W : Type 0) where
  pub record KyuubiClusters : Type 0 where
    pub client : Option (Rest M W)
    pub ns : String

-- The named result of a method, which is never nil.
abbrev pub filled : {W A E : Type 0} → (A × E) × W → (Option A × E) × W
filled ((a, e), w) = ((some a, e), w)

module _ {M : Machinery} {W : Type 0} where
  -- A call on the client.
  abbrev pub on_client :
      {A : Type 0} → Option (Rest M W) → (Rest M W → W → A × W) → W → Panicking A × W
  on_client none f w = (panics, w)
  on_client (some r) f w = (returns (f r w).0, (f r w).1)

  unfoldable pub get :
      KyuubiClusters M W → M.Context → String → M.GetOptions → Method M W (Option KyuubiCluster)
  get c ctx key options = on_client c.client (λ r w. filled (
      r.into_cluster ctx
        (record {
          verb = Verb.get;
          calls =
              namespace c.ns
              ∷ resource "kyuubiclusters"
              ∷ name key
              ∷ versioned_params (of_get options)
              ∷ [];
        })
        zero_cluster w))

  unfoldable pub list :
      KyuubiClusters M W → M.Context → ListOptions M → Method M W (Option (KyuubiClusterList M))
  unfolding timeout_of
  list c ctx opts = on_client c.client (λ r w. filled (
      r.into_list ctx
        (record {
          verb = Verb.get;
          calls =
              namespace c.ns
              ∷ resource "kyuubiclusters"
              ∷ versioned_params (of_list opts)
              ∷ timeout (timeout_of opts.timeout_seconds)
              ∷ [];
        })
        (zero_list M) w))

  unfoldable pub watch :
      KyuubiClusters M W → M.Context → ListOptions M → Method M W (Option M.Watch)
  unfolding timeout_of
  watch c ctx opts = on_client c.client (λ r w.
      r.watch ctx
        (record {
          verb = Verb.get;
          calls =
              namespace c.ns
              ∷ resource "kyuubiclusters"
              ∷ versioned_params (of_list (record opts { watch = true }))
              ∷ timeout (timeout_of opts.timeout_seconds)
              ∷ [];
        })
        w)

  unfoldable pub create :
      KyuubiClusters M W
      → M.Context
      → KyuubiCluster
      → M.CreateOptions
      → Method M W (Option KyuubiCluster)
  create c ctx cluster opts = on_client c.client (λ r w. filled (
      r.into_cluster ctx
        (record {
          verb = Verb.post;
          calls =
              namespace c.ns
              ∷ resource "kyuubiclusters"
              ∷ versioned_params (of_create opts)
              ∷ body (of_cluster cluster)
              ∷ [];
        })
        zero_cluster w))

  unfoldable pub update :
      KyuubiClusters M W
      → M.Context
      → KyuubiCluster
      → M.UpdateOptions
      → Method M W (Option KyuubiCluster)
  update c ctx cluster opts = on_client c.client (λ r w. filled (
      r.into_cluster ctx
        (record {
          verb = Verb.put;
          calls =
              namespace c.ns
              ∷ resource "kyuubiclusters"
              ∷ name cluster.meta.name
              ∷ versioned_params (of_update opts)
              ∷ body (of_cluster cluster)
              ∷ [];
        })
        zero_cluster w))

  unfoldable pub update_status :
      KyuubiClusters M W
      → M.Context
      → KyuubiCluster
      → M.UpdateOptions
      → Method M W (Option KyuubiCluster)
  update_status c ctx cluster opts = on_client c.client (λ r w. filled (
      r.into_cluster ctx
        (record {
          verb = Verb.put;
          calls =
              namespace c.ns
              ∷ resource "kyuubiclusters"
              ∷ name cluster.meta.name
              ∷ sub_resource ("status" ∷ [])
              ∷ versioned_params (of_update opts)
              ∷ body (of_cluster cluster)
              ∷ [];
        })
        zero_cluster w))

  unfoldable pub delete : KyuubiClusters M W → M.Context → String → M.DeleteOptions → Action M W
  delete c ctx key opts = on_client c.client (λ r w.
      r.do_error ctx
        (record {
          verb = Verb.delete;
          calls =
              namespace c.ns ∷ resource "kyuubiclusters" ∷ name key ∷ body (of_delete opts) ∷ [];
        })
        w)

  unfoldable pub delete_collection :
      KyuubiClusters M W → M.Context → M.DeleteOptions → ListOptions M → Action M W
  unfolding timeout_of
  delete_collection c ctx opts list_opts = on_client c.client (λ r w.
      r.do_error ctx
        (record {
          verb = Verb.delete;
          calls =
              namespace c.ns
              ∷ resource "kyuubiclusters"
              ∷ versioned_params (of_list list_opts)
              ∷ timeout (timeout_of list_opts.timeout_seconds)
              ∷ body (of_delete opts)
              ∷ [];
        })
        w)

  unfoldable pub patch :
      KyuubiClusters M W
      → M.Context
      → String
      → M.PatchType
      → String
      → M.PatchOptions
      → List String
      → Method M W (Option KyuubiCluster)
  patch c ctx key pt data_ opts subresources = on_client c.client (λ r w. filled (
      r.into_cluster ctx
        (record {
          verb = Verb.patch pt;
          calls =
              namespace c.ns
              ∷ resource "kyuubiclusters"
              ∷ name key
              ∷ sub_resource subresources
              ∷ versioned_params (of_patch opts)
              ∷ body (of_bytes data_)
              ∷ [];
        })
        zero_cluster w))

  -- `kyuubiClusters` as a `KyuubiClusterInterface`.
  unfoldable pub cluster_interface : KyuubiClusters M W → KyuubiClusterInterface M W
  unfolding get list watch create update update_status delete delete_collection patch
  cluster_interface c = record {
    create = create c;
    update = update c;
    update_status = update_status c;
    delete = delete c;
    delete_collection = delete_collection c;
    get = get c;
    list = list c;
    watch = watch c;
    patch = patch c;
  }
