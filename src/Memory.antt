-- ===== src/Memory.antt =====
-- A cluster kept in memory: an API server with no other clients, which stores what it is sent. It
-- shows that what the theorems assume of the client can be met, and the tests run on it.
pub mod Laws
use kyuubi_operator.Base.{ℕ, ◌+◌, ◌≡◌, subst, Option, none, some, string_discrete}
use mathlib.Core.Logic.{ite}
use kyuubi_operator.K8s.Objects.{NamespacedName}
use kyuubi_operator.Api.{KyuubiCluster, KyuubiClusterStatus}
use kyuubi_operator.K8s.Client.{
  Kind, Obj, object_key, Client, Error, not_found, other, Reply, found, failed,
}

unfoldable pub key_discrete : Discrete NamespacedName
key_discrete = hlevel string_discrete

abbrev pub Table : Type 0 → Type 0
Table A = NamespacedName → Option A

abbrev pub set_key : {A : Type 0} → Table A → NamespacedName → A → Table A
set_key t key a j = ite (key_discrete key j) (some a) (t j)

unfoldable pub kind_discrete : Discrete Kind
kind_discrete = hlevel

pub record Memory : Type 0 where
  pub objects : (k : Kind) → Table (Obj k)
  pub clock : ℕ

-- The table of the kind `j` after the one of the kind `k` has become `t`.
abbrev pub table_at : (k j : Kind) → Table (Obj k) → Table (Obj j) → Dec (k ≡ j) → Table (Obj j)
table_at k j t old (yes e) = subst (λ i. Table (Obj i)) e t
table_at k j t old (no _) = old

-- An object is found under its own key only.
abbrev pub find : (k : Kind) → NamespacedName → Memory → Option (Obj k)
find k key m = elim (m.objects k key) [
  | none ↦ none
  | some o ↦ ite (key_discrete (object_key k o) key) (some o) none
]

abbrev pub put : (k : Kind) → Obj k → Memory → Memory
put k o m = record m {
  objects = λ j.
      table_at k j (set_key (m.objects k) (object_key k o) o) (m.objects j) (kind_discrete k j);
}

abbrev pub reply_of {ℓ} : {A : Type ℓ} → Option A → Reply A
reply_of none = failed not_found
reply_of (some a) = found a

-- The end of a Create, from what is at the place.
abbrev pub on_missing {ℓ} : {A : Type ℓ} → Option A → Memory → Memory → Option Error × Memory
on_missing none new m = (none, new)
on_missing (some old) new m = (some (other "AlreadyExists"), m)

-- The end of an update.
abbrev pub on_found {ℓ} : {A : Type ℓ} → Option A → Memory → Memory → Option Error × Memory
on_found none new m = (some not_found, m)
on_found (some old) new m = (none, new)

-- The end of an update of the status: the object that is there gets the status.
abbrev pub on_status : KyuubiClusterStatus → Option KyuubiCluster → Memory → Option Error × Memory
on_status status none m = (some not_found, m)
on_status status (some old) m = (none, put Kind.kyuubi_cluster (record old { status = status }) m)

abbrev pub memory_client : Client
memory_client = record {
  World = Memory;
  get = λ k key m. (reply_of (find k key m), m);
  create = λ k o m. on_missing (find k (object_key k o) m) (put k o m) m;
  update = λ k o m. on_found (find k (object_key k o) m) (put k o m) m;
  update_status =
      λ o m. on_status o.status (find Kind.kyuubi_cluster (object_key Kind.kyuubi_cluster o) m) m;
  now = λ m. (m.clock, m);
  sleep = λ ms m. record m { clock = m.clock + ms };
}

abbrev pub empty_memory : Memory
empty_memory = record { objects = λ k key. none; clock = 7 }
