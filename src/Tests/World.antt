-- ===== src/Tests/World.antt =====
-- A cluster with three references, and what the operator wants for it.
use kyuubi_operator.Base.{inl, inr}
use kyuubi_operator.Tests.{all_refs, in_order, library, cluster_with, orders}
use kyuubi_operator.K8s.Objects.{ConfigMap, StatefulSet, Service, ServiceAccount}
use kyuubi_operator.K8s.Client.{Kind}
use kyuubi_operator.Api.{KyuubiCluster}
use kyuubi_operator.Memory.{Memory, empty_memory, put}
use kyuubi_operator.Controller.Rbac.{construct_service_account}
use kyuubi_operator.Controller.Workload.{construct_desired_kyuubi_workload}
use kyuubi_operator.Controller.ClusterRefs.{desired_cluster_refs_config_map}
use kyuubi_operator.Controller.ConfigMaps.{construct_kyuubi_config_map}
use kyuubi_operator.Controller.Services.{construct_desired_service}

abbrev pub kyuubi : KyuubiCluster
kyuubi = cluster_with all_refs

abbrev pub with_cluster : Memory
with_cluster = put Kind.kyuubi_cluster kyuubi empty_memory

abbrev pub refs : ConfigMap
refs = elim (desired_cluster_refs_config_map library orders.refs kyuubi) [
  | inl e ↦ (construct_kyuubi_config_map library in_order kyuubi).0
  | inr cm ↦ cm
]

abbrev pub account : ServiceAccount
account = (construct_service_account library kyuubi).0

abbrev pub desired_workload : StatefulSet
desired_workload = (construct_desired_kyuubi_workload library kyuubi).0

abbrev pub desired_service : Service
desired_service = (construct_desired_service library kyuubi).0

abbrev pub conf_map : ConfigMap
conf_map = (construct_kyuubi_config_map library in_order kyuubi).0
