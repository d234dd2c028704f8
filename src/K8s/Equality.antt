-- ===== src/K8s/Equality.antt =====
-- `reflect.DeepEqual` on the two kinds of values that the operator compares: the specification of
-- a workload, and exposed infos. Maps are compared as maps, in no order.
use mathlib.Core.Logic.{ite}
use native.Mathlib.Decide.{ℕ_discrete}
use kyuubi_operator.Base.{
  ℕ, ◌≡◌, refl, String, string_discrete, Bool, true, false, ◌&&◌, ◌==◌, Option, none, some, [], ◌∷◌,
  arith, length,
}
use kyuubi_operator.Base.Dict.{Dict, lookup, IsMap}
use kyuubi_operator.K8s.Objects.{PodSpec, StatefulSetSpec, ServicePort}

nat_equal : ℕ → ℕ → Bool
nat_equal a b = ite (ℕ_discrete a b) true false

holds : Dict → String → String → Bool
holds b k v = elim (lookup k b) [ none ↦ false | some w ↦ v == w ]

all_held : Dict → Dict → Bool
unfolding holds
all_held [] b = true
all_held ((k, v) ∷ a) b = holds b k v && all_held a b

unfoldable pub dict_equal : Dict → Dict → Bool
unfolding all_held nat_equal
dict_equal a b = nat_equal (length a) (length b) && all_held a b

option_ℕ_discrete : Discrete (Option ℕ)
option_ℕ_discrete = hlevel ℕ_discrete

PodSpec-discrete : Discrete PodSpec
PodSpec-discrete = hlevel (string_discrete, ℕ_discrete)

unfoldable pub spec_equal : StatefulSetSpec → StatefulSetSpec → Bool
unfolding option_ℕ_discrete PodSpec-discrete
spec_equal a b =
    dict_equal a.match_labels b.match_labels
    && (a.service_name == b.service_name)
    && ite (option_ℕ_discrete a.replicas b.replicas) true false
    && dict_equal a.template.labels b.template.labels
    && ite (PodSpec-discrete a.template.spec b.template.spec) true false
    && dict_equal a.others b.others

unfoldable pub port_equal : ServicePort → ServicePort → Bool
unfolding nat_equal
port_equal a b =
    (a.name == b.name)
    && nat_equal a.port b.port
    && nat_equal a.target_port b.target_port
    && dict_equal a.others b.others

all_held-cons :
    (a b : Dict) (k v : String)
    → IsMap ((k, v) ∷ a)
    → all_held a b ≡ true
    → all_held a ((k, v) ∷ b) ≡ true
unfolding all_held lookup
all_held-cons [] b k v u h = refl
all_held-cons ((j, w) ∷ a) b k v (fresh, (_, u)) h =
    ground (arith, all_held-cons a b k v (ground arith, u))

all_held_refl : (a : Dict) → IsMap a → all_held a a ≡ true
unfolding all_held lookup
all_held_refl [] u = refl
all_held_refl ((k, v) ∷ a) (fresh, u) =
    ground (arith, all_held-cons a a k v (fresh, u), all_held_refl a u)

-- A map is equal to itself.
pub dict_equal_refl : (a : Dict) → IsMap a → dict_equal a a ≡ true
unfolding dict_equal
dict_equal_refl a u = ground (arith, all_held_refl a u)

-- A specification is equal to itself.
pub spec_equal_refl :
    (a : StatefulSetSpec)
    → IsMap a.match_labels
    → IsMap a.template.labels
    → IsMap a.others
    → spec_equal a a ≡ true
unfolding spec_equal
spec_equal_refl a u v w = ground (
  arith,
  dict_equal_refl a.match_labels u,
  dict_equal_refl a.template.labels v,
  dict_equal_refl a.others w,
)

pub port_equal_refl : (p : ServicePort) → IsMap p.others → port_equal p p ≡ true
unfolding port_equal
port_equal_refl p u = ground (arith, dict_equal_refl p.others u)

-- Ports that are equal have equal names and numbers.
pub port_equal_fields :
    (a b : ServicePort)
    → port_equal a b ≡ true
    → (a.name ≡ b.name) × (a.port ≡ b.port) × (a.target_port ≡ b.target_port)
unfolding port_equal nat_equal
port_equal_fields a b e = (ground (arith, e), ground (arith, e), ground (arith, e))
