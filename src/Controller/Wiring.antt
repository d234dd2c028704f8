-- ===== src/Controller/Wiring.antt =====
-- The objects of a cluster refer to each other by the names, labels and ports that they have.
use kyuubi_operator.Base.{ℕ, ◌≡◌, refl, List, [], ◌∷◌, map}
use kyuubi_operator.K8s.Objects.{ServicePort, ContainerPort, Container, Subject}
use kyuubi_operator.K8s.Client.{Library}
use kyuubi_operator.Api.{KyuubiCluster}
use kyuubi_operator.Controller.Rbac.{
  construct_service_account, construct_role, construct_role_binding,
}
use kyuubi_operator.Controller.Workload.{construct_desired_kyuubi_workload}
use kyuubi_operator.Controller.Services.{construct_desired_service}

-- The ports of a container.
abbrev pub container_ports : Container → List ℕ
container_ports c = map (λ (p : ContainerPort). p.container_port) c.ports

-- Whatever the owner references: the StatefulSet and the service select the pods that the
-- StatefulSet makes; the StatefulSet names the service; the service forwards to the ports that the
-- one container opens, in their order; and the pods run under the service account, which is the one
-- subject of the binding, to the role.
pub objects_wired :
    (L : Library) (kyuubi : KyuubiCluster)
    → let workload = (construct_desired_kyuubi_workload L kyuubi).0 in
      let service = (construct_desired_service L kyuubi).0 in
      let account = (construct_service_account L kyuubi).0 in
      let binding = (construct_role_binding L kyuubi).0 in
      let pod = workload.spec.template in
      (workload.spec.match_labels ≡ pod.labels)
      × (service.spec.selector ≡ pod.labels)
      × (workload.spec.service_name ≡ service.meta.name)
      × (map container_ports pod.spec.containers
          ≡ map (λ (p : ServicePort). p.target_port) service.spec.ports ∷ [])
      × (pod.spec.service_account_name ≡ account.meta.name)
      × (map (λ (s : Subject). s.name) binding.subjects ≡ account.meta.name ∷ [])
      × (binding.role_ref.name ≡ (construct_role L kyuubi).0.meta.name)
      × (binding.meta.namespace ≡ account.meta.namespace)
unfolding construct_desired_kyuubi_workload construct_desired_service construct_service_account
    construct_role construct_role_binding
objects_wired L kyuubi = (refl, refl, refl, refl, refl, refl, refl, refl)
