-- ===== src/K8s/Exec.antt =====
-- Methods of the reconciler: they act on the world, and return a value or an error. What was done
-- before an error stays done.
use kyuubi_operator.Base.{arith, ◌≡◌, ℕ, Option, none, some}
use kyuubi_operator.K8s.Objects.{NamespacedName}
use kyuubi_operator.K8s.Client.{Kind, Obj, Client, Error, Reply}
use kyuubi_operator.Api.{KyuubiCluster}

-- `waiting` is a method whose polling loop has used up the rounds it was given, and `panicked` one
-- that has indexed a slice out of range.
pub data Outcome {ℓ} (A : Type ℓ) : Type ℓ where
  ok : A → Outcome A
  err : Error → Outcome A
  waiting : Outcome A
  panicked : Outcome A

abbrev pub Exec : Type 0 → Type 0 → Type 0
Exec W A = W → Outcome A × W

module _ {W A : Type 0} where
  abbrev pub pure : A → Exec W A
  pure a w = (ok a, w)

  abbrev pub raise : Error → Exec W A
  raise e w = (err e, w)

  abbrev pub stall : Exec W A
  stall w = (waiting, w)

  abbrev pub panic : Exec W A
  panic w = (panicked, w)

module _ {W A B : Type 0} where
  abbrev pub continue : Outcome A → (A → Exec W B) → Exec W B
  continue (ok a) f w = f a w
  continue (err e) f w = (err e, w)
  continue waiting f w = (waiting, w)
  continue panicked f w = (panicked, w)

  infixl 10 ◌>>=◌
  abbrev pub ◌>>=◌ : Exec W A → (A → Exec W B) → Exec W B
  ◌>>=◌ m f w = continue (m w).0 f (m w).1

module _ {W B : Type 0} where
  infixl 10 ◌>>◌
  abbrev pub ◌>>◌ : Exec W (Unit {0}) → Exec W B → Exec W B
  m >> n = m >>= λ _. n

-- `if err != nil { return err }`
abbrev pub returned : Option Error → Outcome (Unit {0})
returned none = ok tt
returned (some e) = err e

module _ (C : Client) where
  abbrev pub get : (k : Kind) → NamespacedName → Exec C.World (Reply (Obj k))
  get k key w = (ok (C.get k key w).0, (C.get k key w).1)

  abbrev pub create : (k : Kind) → Obj k → Exec C.World (Unit {0})
  create k o w = (returned (C.create k o w).0, (C.create k o w).1)

  abbrev pub update : (k : Kind) → Obj k → Exec C.World (Unit {0})
  update k o w = (returned (C.update k o w).0, (C.update k o w).1)

  abbrev pub update_status : KyuubiCluster → Exec C.World (Unit {0})
  update_status o w = (returned (C.update_status o w).0, (C.update_status o w).1)

  abbrev pub now : Exec C.World ℕ
  now w = (ok (C.now w).0, (C.now w).1)

  abbrev pub sleep : ℕ → Exec C.World (Unit {0})
  sleep ms w = (ok tt, C.sleep ms w)

-- A step that returns hands its value and its world on.
pub >>=-ok :
    {W A B : Type 0} (m : Exec W A) (f : A → Exec W B) {w w' : W} {a : A}
    → m w ≡ (ok a, w')
    → (m >>= f) w ≡ f a w'
>>=-ok m f e = ground (arith, e)

pub >>-ok :
    {W B : Type 0} (m : Exec W (Unit {0})) (n : Exec W B) {w w' : W}
    → m w ≡ (ok tt, w')
    → (m >> n) w ≡ n w'
>>-ok m n e = ground (arith, e)
