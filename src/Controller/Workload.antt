-- ===== src/Controller/Workload.antt =====
-- The StatefulSet (constructDesiredKyuubiWorkload, createOrUpdateKyuubi).
pub mod Restated
pub mod Rewritten
use kyuubi_operator.Base.{◌<>◌, true, false, Option, some, [], ◌∷◌}
use kyuubi_operator.K8s.Objects.{StatefulSet}
use kyuubi_operator.K8s.Equality.{spec_equal}
use kyuubi_operator.K8s.Client.{
  Kind, object_key, Client, Library, Error, not_found, other, found, failed,
}
use kyuubi_operator.K8s.Exec.{Exec, pure, raise, get, create, update, ◌>>=◌}
use kyuubi_operator.Api.{KyuubiCluster}
use kyuubi_operator.Controller.Names.{
  cluster_resource_name, cluster_resource_labels, default_downward_api,
}
use kyuubi_operator.Controller.Rbac.{owned, cluster_meta}
use kyuubi_operator.Controller.Volumes.{construct_volumes, construct_volume_mounts}

module _ (L : Library) where
  unfoldable pub construct_desired_kyuubi_workload : KyuubiCluster → StatefulSet × Option Error
  construct_desired_kyuubi_workload kyuubi =
      let (meta, e) = owned L kyuubi (cluster_meta L kyuubi) in
      (
        record {
          meta = meta;
          spec = record {
            match_labels = cluster_resource_labels kyuubi;
            service_name = cluster_resource_name kyuubi [];
            replicas = some kyuubi.spec.kyuubi_resource.replicas;
            template = record {
              labels = cluster_resource_labels kyuubi;
              spec = record {
                containers =
                    record {
                      name = kyuubi.meta.name;
                      image =
                          kyuubi.spec.kyuubi_image.repository
                          <> (":" <> kyuubi.spec.kyuubi_image.tag);
                      image_pull_policy = kyuubi.spec.kyuubi_image.pull_policy;
                      ports =
                          record { name = "rest"; container_port = 10099 }
                          ∷ record { name = "thrift-binary"; container_port = 10009 }
                          ∷ [];
                      env = default_downward_api;
                      liveness_probe = record {
                        command = "/bin/bash" ∷ "-c" ∷ "bin/kyuubi status" ∷ [];
                        initial_delay_seconds = 30;
                        period_seconds = 10;
                        timeout_seconds = 2;
                        failure_threshold = 10;
                        success_threshold = 1;
                      };
                      readiness_probe = record {
                        command = "/bin/bash" ∷ "-c" ∷ "$KYUUBI_HOME/bin/kyuubi status" ∷ [];
                        initial_delay_seconds = 30;
                        period_seconds = 10;
                        timeout_seconds = 2;
                        failure_threshold = 10;
                        success_threshold = 1;
                      };
                      volume_mounts = construct_volume_mounts kyuubi;
                    }
                    ∷ [];
                restart_policy = "Always";
                service_account_name = cluster_resource_name kyuubi [];
                volumes = construct_volumes kyuubi;
              };
            };
            others = [];
          };
        },
        e,
      )

module _ (C : Client) where
  -- Get; then Create, or Update if the specifications differ.
  unfoldable pub apply_workload : StatefulSet → Exec C.World (Unit {0})
  apply_workload desired = do
    reply ← get C Kind.stateful_set (object_key Kind.stateful_set desired)
    elim reply [
      | found existing ↦ elim (spec_equal existing.spec desired.spec) [
        | true ↦ pure tt
        | false ↦ update C Kind.stateful_set desired
      ]
      | failed not_found ↦ create C Kind.stateful_set desired
      | failed (other e) ↦ raise (other e)
    ]

module _ (L : Library) (C : Client) where
  unfoldable pub create_or_update_kyuubi : KyuubiCluster → Exec C.World (Unit {0})
  create_or_update_kyuubi kyuubi = apply_workload C (construct_desired_kyuubi_workload L kyuubi).0
