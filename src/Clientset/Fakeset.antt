-- ===== src/Clientset/Fakeset.antt =====
-- client/clientset/versioned/fake/clientset_generated.go, and fake_kyuubi-operator_client.go in
-- client/clientset/versioned/typed/kyuubi-operator/v1alpha1/fake: the fake clientset.
use kyuubi_operator.Base.{String, Bool, true, false, Option, none, some, List, [], ◌∷◌}
use kyuubi_operator.Api.Registration.{GroupVersionResource}
use kyuubi_operator.K8s.Client.{Error}
use kyuubi_operator.Clientset.Machinery.{Machinery, Panicking, returns, panics}
use kyuubi_operator.Clientset.Tracking.{Object, Action, Fake, Tracking}
use kyuubi_operator.Clientset.Rest.{Rest}
use kyuubi_operator.Clientset.Fake.{FakeKyuubiClusters}

module _ {M : Machinery} (T : Tracking M) where
  -- What a watch reactor returns: whether it has handled the action, a watch and an error.
  abbrev pub Watched : Type 0
  Watched = (Bool × Option M.Watch × Option Error) × T.Tracker

  -- A reactor to a verb and a resource, by `testing.ObjectReaction` on the tracker; and a reactor to a
  -- watch of a resource.
  pub data Reactor : Type 0 where
    object_reaction : String → String → Reactor

  pub data WatchReactor : Type 0 where
    reacts_by : String → (Action M → T.Tracker → Watched) → WatchReactor

  -- `testing.Fake`, by the reactors that have been added to it.
  pub record TestingFake : Type 0 where
    pub reactors : List Reactor
    pub watch_reactors : List WatchReactor

  -- `FakeDiscovery`, with the `testing.Fake` that it points to.
  pub record FakeDiscovery : Type 0 where
    pub fake : TestingFake

  -- `Clientset`. Its field `discovery` points to its own `testing.Fake` from the start, and so is made
  -- of that where it is read.
  pub record FakeClientset : Type 0 where
    pub fake : TestingFake
    pub tracker : T.Tracker

  -- The loop that adds the objects.
  unfoldable pub add_loop : List (Object M) → T.Tracker → Panicking T.Tracker
  add_loop [] o = returns o
  add_loop (obj ∷ objects) o =
      let rest = add_loop objects (T.add obj o).1 in
      elim (T.add obj o).0 [ none ↦ rest | some err ↦ panics ]

  -- The function that is added as a watch reactor.
  unfoldable pub watch_reaction :
      (Action M → GroupVersionResource) → (Action M → String) → Action M → T.Tracker → Watched
  watch_reaction get_resource get_namespace action o =
      let (answer, o') = T.watch (get_resource action) (get_namespace action) o in
      elim answer.1 [
        | some err ↦ ((false, none, some err), o')
        | none ↦ ((true, answer.0, none), o')
      ]

  -- `action.GetResource` and `action.GetNamespace` are the library's.
  unfoldable pub new_simple_clientset :
      (Action M → GroupVersionResource)
      → (Action M → String)
      → List (Object M)
      → Panicking FakeClientset
  unfolding add_loop watch_reaction
  new_simple_clientset get_resource get_namespace objects =
      elim (add_loop objects T.new_object_tracker) [
        | panics ↦ panics
        | returns o ↦ returns (record {
          fake = record {
            reactors = object_reaction "*" "*" ∷ [];
            watch_reactors = reacts_by "*" (watch_reaction get_resource get_namespace) ∷ [];
          };
          tracker = o;
        })
      ]

  -- `Tracker`
  unfoldable pub tracker_of : FakeClientset → T.Tracker
  tracker_of c = c.tracker

  -- `Discovery`
  unfoldable pub fake_discovery : FakeClientset → FakeDiscovery
  fake_discovery c = record { fake = c.fake }

-- `FakeKyuubiV1alpha1`, with the `testing.Fake` that it holds.
pub record FakeKyuubiV1alpha1 (M : Machinery) (W : Type 0) : Type 1 where
  pub fake : Fake M W

-- `KyuubiClusters`
unfoldable pub fake_kyuubi_clusters :
    {M : Machinery} {W : Type 0} → FakeKyuubiV1alpha1 M W → String → FakeKyuubiClusters M W
fake_kyuubi_clusters c namespace = record { fake = c.fake; ns = namespace }

-- A value of the interface `rest.Interface`: nil, or a pointer to a client, which may be nil.
pub data RestInterface (A : Type 0) : Type 0 where
  no_interface : RestInterface A
  pointer : Option A → RestInterface A

-- `RESTClient`: a nil pointer in an interface that is not nil.
unfoldable pub fake_rest_client :
    {M : Machinery} {W : Type 0} → FakeKyuubiV1alpha1 M W → RestInterface (Rest M W)
fake_rest_client c = pointer none

-- `KyuubiV1alpha1`. `invoked` is what the library makes of the reactors when an action is invoked.
unfoldable pub fake_kyuubi_v1alpha1 :
    {M : Machinery} {T : Tracking M}
    → (TestingFake T → Fake M T.Tracker)
    → FakeClientset T
    → FakeKyuubiV1alpha1 M T.Tracker
fake_kyuubi_v1alpha1 invoked c = record { fake = invoked c.fake }
