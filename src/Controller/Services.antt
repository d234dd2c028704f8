-- ===== src/Controller/Services.antt =====
-- The service (contructDesiredService, createOrUpdateService).
pub mod First
use kyuubi_operator.Base.{Option, [], ◌∷◌}
use kyuubi_operator.K8s.Objects.{Service}
use kyuubi_operator.K8s.Client.{
  Kind, object_key, Client, Library, Error, not_found, other, found, failed,
}
use kyuubi_operator.K8s.Exec.{Exec, pure, raise, get, create, ◌>>=◌, ◌>>◌}
use kyuubi_operator.Api.{KyuubiCluster, kyuubi_rest, kyuubi_thrift_binary}
use kyuubi_operator.Controller.Names.{cluster_resource_labels}
use kyuubi_operator.Controller.Rbac.{owned, cluster_meta}

module _ (L : Library) where
  unfoldable pub construct_desired_service : KyuubiCluster → Service × Option Error
  construct_desired_service kyuubi =
      let (meta, e) = owned L kyuubi (cluster_meta L kyuubi) in
      (
        record {
          meta = meta;
          spec = record {
            type = "ClusterIP";
            ports =
                record { name = kyuubi_rest; port = 10099; target_port = 10099; others = [] }
                ∷ record {
                  name = kyuubi_thrift_binary;
                  port = 10009;
                  target_port = 10009;
                  others = [];
                }
                ∷ [];
            selector = cluster_resource_labels kyuubi;
          };
        },
        e,
      )

-- `&corev1.Service{}`
abbrev pub empty_service : Service
empty_service = record {
  meta = record { name = ""; namespace = ""; labels = []; owner_references = []; others = [] };
  spec = record { type = ""; ports = []; selector = [] };
}

module _ (C : Client) where
  -- Get, and Create if the service is not found. `existingService` is what the Get has filled in: it
  -- stays empty where the service is created.
  unfoldable pub apply_service : Service → Exec C.World Service
  apply_service desired = do
    reply ← get C Kind.service (object_key Kind.service desired)
    elim reply [
      | found existing ↦ pure existing
      | failed not_found ↦ (do create C Kind.service desired; pure empty_service)
      | failed (other e) ↦ raise (other e)
    ]

module _ (L : Library) (C : Client) where
  unfoldable pub create_or_update_service : KyuubiCluster → Exec C.World Service
  create_or_update_service kyuubi = apply_service C (construct_desired_service L kyuubi).0
