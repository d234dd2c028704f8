-- ===== src/Clientset/Tracking.antt =====
-- The part of k8s.io/client-go/testing and of k8s.io/apimachinery/pkg/labels that the fake client
-- uses, as parameters. An action is the call that makes it, with its arguments.
use kyuubi_operator.Base.{String, Bool, Option, List}
use kyuubi_operator.Base.Dict.{Dict}
use kyuubi_operator.Api.{KyuubiCluster}
use kyuubi_operator.Api.Registration.{GroupVersionResource, GroupVersionKind}
use kyuubi_operator.K8s.Client.{Error}
use kyuubi_operator.Clientset.Machinery.{Machinery, ListOptions, KyuubiClusterList}

module _ (M : Machinery) where
  -- `runtime.Object`; `foreign` is an object of another type.
  pub data Object : Type 0 where
    cluster : KyuubiCluster → Object
    cluster_list : KyuubiClusterList M → Object
    foreign : String → Object

  pub data Action : Type 0 where
    get_action : GroupVersionResource → String → String → Action
    list_action : GroupVersionResource → GroupVersionKind → String → ListOptions M → Action
    watch_action : GroupVersionResource → String → ListOptions M → Action
    create_action : GroupVersionResource → String → KyuubiCluster → Action
    update_action : GroupVersionResource → String → KyuubiCluster → Action
    update_subresource_action : GroupVersionResource → String → String → KyuubiCluster → Action
    delete_action_with_options : GroupVersionResource → String → String → M.DeleteOptions → Action
    delete_collection_action : GroupVersionResource → String → ListOptions M → Action
    patch_subresource_action :
        GroupVersionResource → String → String → M.PatchType → String → List String → Action

  -- `testing.Fake`: an action with the object that is returned by default. The label selector of list
  -- options, which may be nil; the selector of everything; and the test of a selector on labels.
  pub record Fake (W : Type 0) : Type 1 where
    pub Selector : Type 0
    pub invokes : Action → Object → W → (Option Object × Option Error) × W
    pub invokes_watch : Action → W → (Option M.Watch × Option Error) × W
    pub extract_label : ListOptions M → Option Selector
    pub everything : Selector
    pub matches : Selector → Dict → Bool

  -- `testing.ObjectTracker`, by its state; the order of the results is that of the source.
  pub record Tracking : Type 1 where
    pub Tracker : Type 0
    pub new_object_tracker : Tracker
    pub add : Object → Tracker → Option Error × Tracker
    pub watch : GroupVersionResource → String → Tracker → (Option M.Watch × Option Error) × Tracker
