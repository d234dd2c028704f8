-- ===== src/Controller/Status/Published.antt =====
-- What the status exposes, and when it is written again.
use kyuubi_operator.Base.{
  ℕ, zero, suc, ◌+◌, ◌<>◌, ◌≡◌, refl, true, false, Option, some, List, [], ◌∷◌, arith, All,
  get_elem?, none,
}
use mathlib.Core.Option
use kyuubi_operator.Base.Dict.{IsMap}
use kyuubi_operator.Base.Text.{itoa}
use kyuubi_operator.K8s.Objects.{Service, ServicePort}
use kyuubi_operator.K8s.Equality.{port_equal_refl, port_equal_fields}
use kyuubi_operator.K8s.Client.{Client}
use kyuubi_operator.K8s.Exec.{ok}
use kyuubi_operator.Api.{ExposedInfo, KyuubiCluster}
use kyuubi_operator.Controller.Status.{
  info_loop, exposed_infos, infos_equal, is_outdated, update_kyuubi_cluster_status,
}

-- The info of port number `i` of a service.
abbrev pub info_of : KyuubiCluster → Service → ℕ → ServicePort → ExposedInfo
info_of kyuubi service i port = record {
  name = kyuubi.meta.name <> ("-" <> itoa i);
  exposed_type = port.name;
  service_name = service.meta.name;
  service_port = port;
}

get_elem?-info_loop :
    (kyuubi : KyuubiCluster) (service : Service) (k i j : ℕ) (ports : List ServicePort)
    → k + i ≡ j
    → get_elem? (info_loop kyuubi service k ports) i
      ≡ Option.map (info_of kyuubi service j) (get_elem? ports i)
unfolding info_loop
get_elem?-info_loop kyuubi service k i j [] e = refl
get_elem?-info_loop kyuubi service k zero j (v ∷ ports) e = let e' : k ≡ j = omega arith in rw e'
get_elem?-info_loop kyuubi service k (suc i) j (v ∷ ports) e =
    get_elem?-info_loop kyuubi service (suc k) i j ports (omega arith)

-- The status exposes the ports of the service and nothing else: info number `i` is that of port number
-- `i`, named after the cluster and `i`, and there is none where the service has no such port.
pub get_elem?-exposed_infos :
    (kyuubi : KyuubiCluster) (service : Service) (i : ℕ)
    → get_elem? (exposed_infos kyuubi service) i
      ≡ Option.map (info_of kyuubi service i) (get_elem? service.spec.ports i)
get_elem?-exposed_infos kyuubi service i =
    get_elem?-info_loop kyuubi service 0 i i service.spec.ports (omega arith)

infos_equal_refl :
    (infos : List ExposedInfo)
    → All (λ (info : ExposedInfo). IsMap info.service_port.others) infos
    → infos_equal infos infos ≡ true
unfolding infos_equal
infos_equal_refl [] u = refl
infos_equal_refl (info ∷ infos) (u, us) =
    ground (arith, port_equal_refl info.service_port u, infos_equal_refl infos us)

-- Infos that are those of the service are not outdated.
pub not_outdated :
    (infos : List ExposedInfo) (published : Option (List ExposedInfo))
    → All (λ (info : ExposedInfo). IsMap info.service_port.others) infos
    → published ≡ some infos
    → is_outdated infos published ≡ false
unfolding is_outdated
not_outdated infos published u e = ground (arith, infos_equal_refl infos u)

-- Two lists of infos agree: one by one, in the names, the type and the port, but for the fields of a port
-- that the operator does not name.
pub record IsAlike (a b : ExposedInfo) : Type 0 where
  pub name : a.name ≡ b.name
  pub exposed_type : a.exposed_type ≡ b.exposed_type
  pub service_name : a.service_name ≡ b.service_name
  pub port_name : a.service_port.name ≡ b.service_port.name
  pub port : a.service_port.port ≡ b.service_port.port
  pub target_port : a.service_port.target_port ≡ b.service_port.target_port

abbrev pub AreAlike : List ExposedInfo → List ExposedInfo → Type 0
AreAlike [] [] = Unit {0}
AreAlike [] (b ∷ bs) = ⊥
AreAlike (a ∷ as') [] = ⊥
AreAlike (a ∷ as') (b ∷ bs) = IsAlike a b × AreAlike as' bs

-- A status has infos, and they are those of the ports of a service.
abbrev pub Exposes : Option (List ExposedInfo) → List ExposedInfo → Type 0
Exposes published infos =
    (found : List ExposedInfo) × (published ≡ some found) × AreAlike infos found

AreAlike-refl : (infos : List ExposedInfo) → AreAlike infos infos
AreAlike-refl [] = tt
AreAlike-refl (info ∷ infos) = (
  record {
    name = refl;
    exposed_type = refl;
    service_name = refl;
    port_name = refl;
    port = refl;
    target_port = refl;
  },
  AreAlike-refl infos,
)

infos_equal-AreAlike : (a b : List ExposedInfo) → infos_equal a b ≡ true → AreAlike a b
unfolding infos_equal
infos_equal-AreAlike [] [] e = tt
infos_equal-AreAlike [] (b ∷ bs) e = absurd (ground (arith, e))
infos_equal-AreAlike (a ∷ as') [] e = absurd (ground (arith, e))
infos_equal-AreAlike (a ∷ as') (b ∷ bs) e =
    let (n, p, t) = port_equal_fields a.service_port b.service_port (ground (arith, e)) in
    (
      record {
        name = ground (arith, e);
        exposed_type = ground (arith, e);
        service_name = ground (arith, e);
        port_name = n;
        port = p;
        target_port = t;
      },
      infos_equal-AreAlike as' bs (ground (arith, e)),
    )

pub sent-Exposes :
    (published : Option (List ExposedInfo)) (infos : List ExposedInfo)
    → published ≡ some infos
    → Exposes published infos
sent-Exposes published infos e = (infos, e, AreAlike-refl infos)

-- Infos that are not outdated are those of the service.
pub current-Exposes :
    (infos : List ExposedInfo) (published : Option (List ExposedInfo))
    → is_outdated infos published ≡ false
    → Exposes published infos
unfolding is_outdated
current-Exposes infos none e = absurd (ground (arith, e))
current-Exposes infos (some found) e =
    (found, refl, infos_equal-AreAlike infos found (ground (arith, e)))

-- A status that is not outdated is not written.
pub status_current :
    (C : Client) (kyuubi : KyuubiCluster) (service : Service) (w : C.World)
    → is_outdated (exposed_infos kyuubi service) kyuubi.status.exposed_infos ≡ false
    → update_kyuubi_cluster_status C kyuubi service w ≡ (ok tt, w)
unfolding update_kyuubi_cluster_status
status_current C kyuubi service w e = ground arith

-- A status that exposes the ports of the service is not written again: the call changes nothing.
pub update_kyuubi_cluster_status_idle :
    (C : Client) (kyuubi : KyuubiCluster) (service : Service) (w : C.World)
    → All (λ (info : ExposedInfo). IsMap info.service_port.others) (exposed_infos kyuubi service)
    → kyuubi.status.exposed_infos ≡ some (exposed_infos kyuubi service)
    → update_kyuubi_cluster_status C kyuubi service w ≡ (ok tt, w)
update_kyuubi_cluster_status_idle C kyuubi service w u e =
    status_current C kyuubi service w (not_outdated (exposed_infos kyuubi service) _ u e)
