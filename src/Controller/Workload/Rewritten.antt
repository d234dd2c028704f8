-- ===== src/Controller/Workload/Rewritten.antt =====
-- The workload on an API server that fills in defaults: createOrUpdateKyuubi in
-- internal/controller/kyuubicluster_controller.go.
use kyuubi_operator.Base.{String, ◌≡◌, refl, ap₂, ◌∙◌, false, [], ◌∷◌, arith}
use kyuubi_operator.Base.Dict.{Dict}
use kyuubi_operator.K8s.Objects.{StatefulSet, StatefulSetSpec}
use kyuubi_operator.K8s.Equality.{spec_equal, dict_equal}
use kyuubi_operator.K8s.Client.{Kind, object_key, Client, Library}
use kyuubi_operator.K8s.Store.{IsQuiet, Shows}
use kyuubi_operator.K8s.Exec.{update}
use kyuubi_operator.Api.{KyuubiCluster}
use kyuubi_operator.Controller.Workload.{
  construct_desired_kyuubi_workload, apply_workload, create_or_update_kyuubi,
}

lengths_differ : (entry : String × String) (rest : Dict) → dict_equal (entry ∷ rest) [] ≡ false
unfolding dict_equal
lengths_differ entry rest = ground arith

defaults_differ :
    (a b : StatefulSetSpec) (entry : String × String) (rest : Dict)
    → a.others ≡ entry ∷ rest
    → b.others ≡ []
    → spec_equal a b ≡ false
unfolding spec_equal
defaults_differ a b entry rest p q =
    let d : dict_equal a.others b.others ≡ false = ap₂ dict_equal p q ∙ lengths_differ entry rest in
    ground (arith, d)

-- The operator sets none of these fields.
no_others :
    (L : Library) (kyuubi : KyuubiCluster)
    → (construct_desired_kyuubi_workload L kyuubi).0.spec.others ≡ []
unfolding construct_desired_kyuubi_workload
no_others L kyuubi = refl

apply_workload_differing :
    (C : Client) (desired existing : StatefulSet) (w : C.World)
    → IsQuiet C
    → Shows C Kind.stateful_set (object_key Kind.stateful_set desired) w existing
    → spec_equal existing.spec desired.spec ≡ false
    → apply_workload C desired w ≡ update C Kind.stateful_set desired w
unfolding apply_workload
apply_workload_differing C desired existing w quiet s d =
    ground (arith, quiet Kind.stateful_set (object_key Kind.stateful_set desired) w)

-- Where the StatefulSet that is there has a field that the operator does not set, such as a default of
-- the API server, the step for the workload sends an update, also if the operator wants just what it
-- has sent before. The Get of the client leaves the world as it is.
pub create_or_update_kyuubi-update :
    (L : Library) (C : Client) (kyuubi : KyuubiCluster) (existing : StatefulSet) (w : C.World)
    (entry : String × String) (rest : Dict)
    → IsQuiet C
    → let desired = (construct_desired_kyuubi_workload L kyuubi).0 in
      Shows C Kind.stateful_set (object_key Kind.stateful_set desired) w existing
      → existing.spec.others ≡ entry ∷ rest
      → create_or_update_kyuubi L C kyuubi w ≡ update C Kind.stateful_set desired w
unfolding create_or_update_kyuubi
create_or_update_kyuubi-update L C kyuubi existing w entry rest quiet s e =
    let desired = (construct_desired_kyuubi_workload L kyuubi).0 in
    apply_workload_differing C desired existing w quiet s
      (defaults_differ existing.spec desired.spec entry rest e (no_others L kyuubi))
