-- ===== src/Lib.antt =====
-- kyuubi-operator: a Kubernetes operator that keeps the objects of KyuubiCluster resources in place.
--
-- `main` sets up a manager with one reconciler, a webhook and two checks, and starts it. For each
-- request, `Reconcile` in internal/controller/kyuubicluster_controller.go gets the KyuubiCluster and
-- calls `createOrUpdateClusters`, which brings the objects of the cluster into place in a fixed order:
-- the service account, the role and the role binding; the config map of Kyuubi; the config map of the
-- cluster references (Spark, HDFS and Hive configurations); the StatefulSet; the service; and the
-- status of the KyuubiCluster. Each step constructs the desired object, gets the existing one, and
-- creates or updates it. The first error ends the pass. Apart from that, the repository has generated
-- code for programs that use the resource: deep copies of its types, a typed client and a fake client.
--
-- Files and sources:
-- - Api: the types of api/v1alpha1/kyuubicluster_types.go; Api.Registration: groupversion_info.go and
--   register.go there; Api.Schemes: the builder that puts the types into a scheme; Api.Webhook:
--   kyuubicluster_webhook.go there.
-- - Controller.Names: internal/controller/constants.go and common.go; Controller.Utils: utils.go.
-- - Controller.Rbac, Volumes, Workload, ClusterRefs, ConfigMaps, Services, Status and Reconcile: the
--   methods of kyuubicluster_controller.go, in the order of the file but for the last two. A method
--   has the name of its source in snake case; a loop or a body that several methods share has a name
--   of its own (`ensure`, `apply_config_map`, `ref_loop`).
-- - K8s.Objects: the fields of the Kubernetes objects that the operator names. K8s.Equality:
--   `reflect.DeepEqual` on them. K8s.Exec: methods as functions from a world to an outcome and a
--   world, in which `err` is a returned error.
-- - K8s.Client: what is not the program's, as parameters. `Client` has the calls of the controller
--   library's client and the clock over an abstract world, each of which may change the world and may
--   fail; `Library` has `ctrl.SetControllerReference`, `os.Getenv`, `xmlfmt.FormatXML` and the text of
--   a request.
-- - K8s.Store: an API server with no other clients and no failures, by what its operations promise.
--   It keeps an object as it is sent and fills in no defaults; what defaults lead to is the subject of
--   Controller.Workload.Rewritten. A write of a status leaves the rest of the cluster as it is, but for
--   the fields of the meta data that the server keeps (`restated`). K8s.Held and K8s.Steady: reasoning
--   on sequences of steps there. Memory is a cluster kept in memory; Tests has runs on it.
-- - Controller.Reconcile.Unaffected is about a pass after a change of the cluster, and
--   Controller.Reconcile.Publishing about one that finds the service. Controller.Reconcile.Reached is the
--   operator over time, as a relation: passes for any requests, in any orders, between which users create
--   and change KyuubiCluster resources. What the API server removes with a deleted cluster is not
--   modelled.
-- - DeepCopy: api/v1alpha1/zz_generated.deepcopy.go. DeepCopy.Heap is the memory that the methods read
--   and write, in which maps and slices stand at addresses; the types of the resource as they stand in
--   memory are the records Stored*. DeepCopy.Shape says what a value in memory means and where it lies.
-- - Clientset.Typed and Clientset.Fake: kyuubicluster.go in
--   client/clientset/versioned/typed/kyuubi-operator/v1alpha1, and fake_kyuubicluster.go in its folder
--   fake. Both give a KyuubiClusterInterface (Clientset.Machinery). Clientset.Config:
--   kyuubi-operator_client.go; Clientset.Sets: client/clientset/versioned/clientset.go;
--   Clientset.Fakeset: the generated fake clientset; Clientset.Schemes: register.go of both clientsets.
--   Clientset.Rest and Clientset.Tracking have the REST client and the object tracker of the Kubernetes
--   libraries, as parameters: a request is the list of the calls that build it, an action the call that
--   makes it.
-- - Main: cmd/main.go, with the two methods that set up the controller and the webhook. Each call of
--   the controller library is a parameter that may change the world and may fail.
-- - The child modules of a component hold its theorems.
--
-- How the code is modelled:
-- - A Go map is a list of entries with lookup and insertion. The order in which a `range` loop visits
--   it is an argument (`Order`), and the theorems hold for every order that visits each entry once
--   (`IsRange`). One pass runs several loops: `Orders` has an order for each. `ref_loop` counts its
--   loops in steps of two, as one round runs at most two.
-- - A nil map or slice is `none` where the code tells it from an empty one.
-- - The loop that waits for a new config map has no bound in the source. Here it takes a number of
--   rounds and ends as `waiting` when they are used up; the results below say how many are enough.
-- - `Reconcile` indexes the pieces of the request; where there are too few it ends as `panicked`.
-- - The constructors return the object and the error of `SetControllerReference`. As in the source,
--   the callers drop that error, but for the config map of the references.
-- - `others` stands for all fields that the operator leaves unset, which the API server may fill in.
-- - An `int64` is a number below 2 ^ 64, in two's complement.
-- - Pointers that the code does not compare with nil, such as the cluster that is passed to Create, are
--   not nil here.
--
-- Not modelled: logging; what is in a scheme; the values that `xmlfmt` prints; hack/code_generator.go,
-- which imports a tool; and the tests.
pub mod Base
pub mod K8s
pub mod Api
pub mod Controller
pub mod DeepCopy
pub mod Clientset
pub mod Main
pub mod Memory
mod Tests
