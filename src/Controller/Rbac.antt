-- ===== src/Controller/Rbac.antt =====
-- The service account, the role and the role binding of a cluster (constructServiceAccount to
-- createOrUpdateK8sResources in kyuubicluster_controller.go).
use kyuubi_operator.Base.{Option, [], ◌∷◌}
use kyuubi_operator.K8s.Objects.{ObjectMeta, ServiceAccount, Role, RoleBinding}
use kyuubi_operator.K8s.Client.{
  Kind, Obj, object_key, Client, Library, Error, not_found, other, found, failed,
}
use kyuubi_operator.K8s.Exec.{Exec, pure, raise, get, create, ◌>>=◌, ◌>>◌}
use kyuubi_operator.Api.{KyuubiCluster}
use kyuubi_operator.Controller.Names.{cluster_resource_name, cluster_resource_labels}

module _ (L : Library) where
  -- The `ctrl.SetControllerReference` call with which every constructor ends: the object's meta,
  -- and the error.
  abbrev pub owned : KyuubiCluster → ObjectMeta → ObjectMeta × Option Error
  owned kyuubi meta =
      let (owners, e) = L.controller_reference kyuubi meta in
      (record meta { owner_references = owners }, e)

  -- The `ObjectMeta` literal that all constructors but one share.
  abbrev pub cluster_meta : KyuubiCluster → ObjectMeta
  cluster_meta kyuubi = record {
    name = cluster_resource_name kyuubi [];
    namespace = kyuubi.meta.namespace;
    labels = cluster_resource_labels kyuubi;
    owner_references = [];
    others = [];
  }

  unfoldable pub construct_service_account : KyuubiCluster → ServiceAccount × Option Error
  construct_service_account kyuubi =
      let (meta, e) = owned kyuubi (cluster_meta kyuubi) in (record { meta = meta }, e)

  unfoldable pub construct_role : KyuubiCluster → Role × Option Error
  construct_role kyuubi =
      let (meta, e) = owned kyuubi (cluster_meta kyuubi) in
      (
        record {
          meta = meta;
          rules =
              record {
                api_groups = "" ∷ [];
                resources = "pods" ∷ "configmaps" ∷ "services" ∷ "persistentvolumeclaims" ∷ [];
                verbs = "get" ∷ "create" ∷ "list" ∷ "delete" ∷ "watch" ∷ "deletecollection" ∷ [];
              }
              ∷ [];
        },
        e,
      )

  unfoldable pub construct_role_binding : KyuubiCluster → RoleBinding × Option Error
  construct_role_binding kyuubi =
      let (meta, e) = owned kyuubi (cluster_meta kyuubi) in
      (
        record {
          meta = meta;
          subjects =
              record { kind = "ServiceAccount"; name = cluster_resource_name kyuubi [] } ∷ [];
          role_ref = record {
            api_group = "rbac.authorization.k8s.io";
            kind = "Role";
            name = cluster_resource_name kyuubi [];
          };
        },
        e,
      )

module _ (C : Client) where
  -- Get, and Create if the object is not found: the body that the three methods below share.
  unfoldable pub ensure : (k : Kind) → Obj k → Exec C.World (Unit {0})
  ensure k desired = do
    reply ← get C k (object_key k desired)
    elim reply [
      | found existing ↦ pure tt
      | failed not_found ↦ create C k desired
      | failed (other e) ↦ raise (other e)
    ]

module _ (L : Library) (C : Client) where
  -- The error of the constructor is dropped, as in the two methods that follow.
  unfoldable pub create_or_update_service_account : KyuubiCluster → Exec C.World (Unit {0})
  create_or_update_service_account kyuubi =
      ensure C Kind.service_account (construct_service_account L kyuubi).0

  unfoldable pub create_or_update_role : KyuubiCluster → Exec C.World (Unit {0})
  create_or_update_role kyuubi = ensure C Kind.role (construct_role L kyuubi).0

  unfoldable pub create_or_update_role_binding : KyuubiCluster → Exec C.World (Unit {0})
  create_or_update_role_binding kyuubi =
      ensure C Kind.role_binding (construct_role_binding L kyuubi).0

  unfoldable pub create_or_update_k8s_resources : KyuubiCluster → Exec C.World (Unit {0})
  create_or_update_k8s_resources kyuubi = do
    create_or_update_service_account kyuubi
    create_or_update_role kyuubi
    create_or_update_role_binding kyuubi
