-- ===== src/K8s/Client.antt =====
-- `client.Client` of controller-runtime, and the other calls out of the program, as parameters.
use kyuubi_operator.Base.{refl, ◌≡◌, ℕ, String, Option, List}
use kyuubi_operator.K8s.Objects.{
  NamespacedName, ObjectMeta, ServiceAccount, Role, RoleBinding, StatefulSet, ConfigMap, Service,
}
use kyuubi_operator.Api.{KyuubiCluster}

pub data Kind : Type 0 where
  kyuubi_cluster service_account role role_binding stateful_set config_map service : Kind

abbrev pub Obj : Kind → Type 0
Obj Kind.kyuubi_cluster = KyuubiCluster
Obj Kind.service_account = ServiceAccount
Obj Kind.role = Role
Obj Kind.role_binding = RoleBinding
Obj Kind.stateful_set = StatefulSet
Obj Kind.config_map = ConfigMap
Obj Kind.service = Service

abbrev pub meta_of : (k : Kind) → Obj k → ObjectMeta
meta_of Kind.kyuubi_cluster o = o.meta
meta_of Kind.service_account o = o.meta
meta_of Kind.role o = o.meta
meta_of Kind.role_binding o = o.meta
meta_of Kind.stateful_set o = o.meta
meta_of Kind.config_map o = o.meta
meta_of Kind.service o = o.meta

-- `client.ObjectKeyFromObject`
abbrev pub object_key : (k : Kind) → Obj k → NamespacedName
object_key k o = record { namespace = (meta_of k o).namespace; name = (meta_of k o).name }

-- An error that `k8serrors.IsNotFound` recognises, or any other.
pub data Error : Type 0 where
  not_found : Error
  other : String → Error

-- The answer to a Get: the object, or an error.
pub data Reply {ℓ} (A : Type ℓ) : Type ℓ where
  found : A → Reply A
  failed : Error → Reply A

-- The three answers that the code tells apart.
pub data Seen {ℓ} {A : Type ℓ} (r : Reply A) : Type ℓ where
  is_found : (a : A) → r ≡ found a → Seen r
  is_missing : r ≡ failed not_found → Seen r
  is_other : (x : String) → r ≡ failed (other x) → Seen r

pub Reply-cases {ℓ} : {A : Type ℓ} (r : Reply A) → Seen r
Reply-cases (found a) = is_found a refl
Reply-cases (failed not_found) = is_missing refl
Reply-cases (failed (other x)) = is_other x refl

-- The cluster as the operator meets it. Every call may change the world, also one that only reads:
-- others act between two calls. A write answers `none` for a nil error.
pub record Client : Type 1 where
  pub World : Type 0
  pub get : (k : Kind) → NamespacedName → World → Reply (Obj k) × World
  pub create : (k : Kind) → Obj k → World → Option Error × World
  pub update : (k : Kind) → Obj k → World → Option Error × World
  pub update_status : KyuubiCluster → World → Option Error × World
  pub now : World → ℕ × World
  pub sleep : ℕ → World → World

-- `ctrl.SetControllerReference`, which writes the owner references of an object and nothing else
-- of it, and may fail; `os.Getenv`; `xmlfmt.FormatXML`; and the text of a request.
pub record Library : Type 0 where
  pub controller_reference : KyuubiCluster → ObjectMeta → List String × Option Error
  pub getenv : String → String
  pub format_xml : String → String → String → String
  pub sprint : NamespacedName → String
