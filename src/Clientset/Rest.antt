-- ===== src/Clientset/Rest.antt =====
-- The part of k8s.io/client-go/rest that the typed client uses, as a parameter. A request is the
-- verb that it starts with and the calls that build it, in order.
use kyuubi_operator.Base.{ℕ, String, Option, List}
use kyuubi_operator.Api.{KyuubiCluster}
use kyuubi_operator.K8s.Client.{Error}
use kyuubi_operator.Clientset.Machinery.{Machinery, ListOptions, KyuubiClusterList}

module _ (M : Machinery) where
  pub data Verb : Type 0 where
    get post put delete : Verb
    patch : M.PatchType → Verb

  -- The first argument of `VersionedParams`; the second is always `scheme.ParameterCodec`.
  pub data Params : Type 0 where
    of_get : M.GetOptions → Params
    of_list : ListOptions M → Params
    of_create : M.CreateOptions → Params
    of_update : M.UpdateOptions → Params
    of_patch : M.PatchOptions → Params

  pub data Body : Type 0 where
    of_cluster : KyuubiCluster → Body
    of_delete : M.DeleteOptions → Body
    of_bytes : String → Body

  pub data Call : Type 0 where
    namespace : String → Call
    resource : String → Call
    name : String → Call
    sub_resource : List String → Call
    versioned_params : Params → Call
    timeout : ℕ → Call
    body : Body → Call

  pub record Request : Type 0 where
    pub verb : Verb
    pub calls : List Call

  -- `rest.Interface`: `Do(ctx).Into(result)` with a given result, `Do(ctx).Error()` and
  -- `Watch(ctx)`, on a world that a request may change.
  pub record Rest (W : Type 0) : Type 0 where
    pub into_cluster : M.Context → Request → KyuubiCluster → W → (KyuubiCluster × Option Error) × W
    pub into_list :
        M.Context → Request → KyuubiClusterList M → W → (KyuubiClusterList M × Option Error) × W
    pub do_error : M.Context → Request → W → Option Error × W
    pub watch : M.Context → Request → W → (Option M.Watch × Option Error) × W
