-- ===== src/Tests/Steps.antt =====
-- Single steps, on a cluster kept in memory.
use kyuubi_operator.Controller.Services.First.{
  Publishes, service_and_status, create_or_update_service-Publishes,
}
use kyuubi_operator.Controller.Status.{exposed_infos}
use kyuubi_operator.K8s.Client.{object_key, failed, not_found, Kind}
use kyuubi_operator.K8s.Store.{Shows}
use kyuubi_operator.K8s.Objects.{Service, Volume, StatefulSet}
use kyuubi_operator.Base.{
  ◌⊎◌, length, some, String, ◌≡◌, refl, inl, List, [], ◌∷◌, map, arith, string_discrete,
}
use kyuubi_operator.Base.Dict.{Dict, lookup}
use kyuubi_operator.Api.{KyuubiCluster}
use kyuubi_operator.Controller.Utils.Printed.{read_properties, read_properties-map2_string}
use kyuubi_operator.Controller.Volumes.Distinct.{NoRepeat, construct_volumes-NoRepeat}
use kyuubi_operator.Controller.Utils.{map2_string}
use kyuubi_operator.Controller.Wiring.{objects_wired}
use kyuubi_operator.Controller.Volumes.{construct_volumes, construct_volume_mounts}
use kyuubi_operator.K8s.Exec.{update}
use kyuubi_operator.Memory.{memory_client, key_discrete, kind_discrete, Memory, put}
use kyuubi_operator.Memory.Laws.{memory_client-IsStore}
use kyuubi_operator.Controller.Workload.{construct_desired_kyuubi_workload, create_or_update_kyuubi}
use kyuubi_operator.Controller.Services.{construct_desired_service}
use kyuubi_operator.Controller.Status.Sent.{StatusKeeps, update_kyuubi_cluster_status-StatusKeeps}
use kyuubi_operator.Tests.{in_order, in_order-IsRange, library}
use kyuubi_operator.Tests.World.{desired_service, desired_workload, kyuubi, with_cluster}
use kyuubi_operator.Controller.Names.{
  cluster_resource_name, cluster_resource_labels, default_downward_api,
}
use kyuubi_operator.Controller.Workload.Rewritten.{create_or_update_kyuubi-update}

create_or_update_service-Publishes_example :
    let key = object_key Kind.service desired_service in
    (((memory_client.get Kind.service key with_cluster).0 ≡ failed not_found)
      × Publishes memory_client kyuubi
          (service_and_status library memory_client kyuubi)
          []
          desired_service
          with_cluster
      × (length desired_service.spec.ports ≡ 2))
    ⊎ ((service : Service) × Shows memory_client Kind.service key with_cluster service
        × Publishes memory_client kyuubi
            (service_and_status library memory_client kyuubi)
            (exposed_infos kyuubi service)
            service
            with_cluster)
unfolding key_discrete kind_discrete string_discrete
create_or_update_service-Publishes_example =
    create_or_update_service-Publishes library memory_client memory_client-IsStore kyuubi
      with_cluster refl

update_kyuubi_cluster_status-StatusKeeps_example :
    StatusKeeps memory_client memory_client-IsStore kyuubi kyuubi desired_service with_cluster
unfolding key_discrete kind_discrete string_discrete
update_kyuubi_cluster_status-StatusKeeps_example =
    update_kyuubi_cluster_status-StatusKeeps memory_client memory_client-IsStore kyuubi kyuubi
      desired_service with_cluster refl

objects_wired_example :
    let workload = (construct_desired_kyuubi_workload library kyuubi).0 in
    workload.spec.service_name ≡ (construct_desired_service library kyuubi).0.meta.name
objects_wired_example = (objects_wired library kyuubi).2

-- A cluster with two settings, which two passes visit in the same order.
abbrev settings : Dict
settings = ("a", "1") ∷ ("b", "2") ∷ []

abbrev configured : KyuubiCluster
configured = record kyuubi { spec = record kyuubi.spec { kyuubi_conf = some settings } }

construct_volumes-NoRepeat_example :
    NoRepeat (map (λ (v : Volume). v.name) (construct_volumes kyuubi))
construct_volumes-NoRepeat_example =
    construct_volumes-NoRepeat kyuubi
      ((inl (λ e. cc), (inl (λ e. cc), tt)), ((inl (λ e. cc), tt), (tt, tt)))

abbrev two_settings : List (String × String)
two_settings = ("a", "1=2") ∷ ("b", "") ∷ []

read_properties-map2_string_example :
    (read_properties (map2_string in_order two_settings) ≡ two_settings)
    × ((k : String)
        → lookup k (read_properties (map2_string in_order two_settings)) ≡ lookup k two_settings)
unfolding lookup string_discrete
read_properties-map2_string_example =
    read_properties-map2_string in_order two_settings in_order-IsRange (refl, (refl, tt))
      (
        record {
          key_lacks_eq = (λ e. omega (arith, e), tt);
          key_lacks_newline = (λ e. omega (arith, e), tt);
          value_lacks_newline =
              (λ e. omega (arith, e), (λ e. omega (arith, e), (λ e. omega (arith, e), tt)));
        },
        (
          record {
            key_lacks_eq = (λ e. omega (arith, e), tt);
            key_lacks_newline = (λ e. omega (arith, e), tt);
            value_lacks_newline = tt;
          },
          tt,
        ),
      )

-- The workload that is wanted, with a default of the API server.
abbrev defaulted : StatefulSet
defaulted = record desired_workload {
  spec = record desired_workload.spec { others = ("revisionHistoryLimit", "10") ∷ [] };
}

abbrev with_workload : Memory
with_workload = put Kind.stateful_set defaulted with_cluster

create_or_update_kyuubi-update_example :
    create_or_update_kyuubi library memory_client kyuubi with_workload
    ≡ update memory_client Kind.stateful_set desired_workload with_workload
unfolding construct_desired_kyuubi_workload key_discrete kind_discrete string_discrete
    cluster_resource_name cluster_resource_labels default_downward_api construct_volume_mounts
    construct_volumes
create_or_update_kyuubi-update_example =
    create_or_update_kyuubi-update library memory_client kyuubi defaulted with_workload
      ("revisionHistoryLimit", "10") [] memory_client-IsStore.quiet refl refl
