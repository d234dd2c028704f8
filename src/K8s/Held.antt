-- ===== src/K8s/Held.antt =====
-- Places that keep an object with a property while the steps for other places run.
use kyuubi_operator.Base.{◌≡◌, ap, ◌∙◌, List, [], ◌∷◌, All}
use kyuubi_operator.K8s.Store.{Apart-sym, Apart, Shows, Keeps, Places}
use kyuubi_operator.K8s.Objects.{NamespacedName}
use kyuubi_operator.K8s.Client.{Kind, Obj, Client}
use kyuubi_operator.K8s.Exec.{◌>>◌, Exec, ok, ◌>>=◌, >>=-ok}

-- A place, and what is wanted of the object there.
pub record Wanted : Type 1 where
  pub kind : Kind
  pub key : NamespacedName
  pub IsGood : Obj kind → Type 0

module _ (C : Client) where
  -- The client shows an object at the place, and the object is as wanted.
  abbrev pub Holds : C.World → Wanted → Type 0
  Holds w f = (o : Obj f.kind) × Shows C f.kind f.key w o × f.IsGood o

  -- A place is none of those in a list.
  abbrev pub IsNew : Kind → NamespacedName → List Wanted → Type 0
  IsNew k key fs = All (λ f. Apart k key f.kind f.key) fs

  Holds-keep : (f : Wanted) (w w' : C.World) → Keeps C f.kind f.key w w' → Holds w f → Holds w' f
  Holds-keep f w w' e (o, s, p) = (o, e ∙ s, p)

  -- What is kept at all places of a list.
  pub All-keep :
      (P : Wanted → Type 0) (fs : List Wanted) (w w' : C.World)
      → ((f : Wanted) → P f → Keeps C f.kind f.key w w')
      → All P fs
      → All (Holds w) fs
      → All (Holds w') fs
  All-keep P [] w w' keep d h = h
  All-keep P (f ∷ fs) w w' keep (d, ds) (h, hs) =
      (Holds-keep f w w' (keep f d) h, All-keep P fs w w' keep ds hs)

  -- From the world `w0` to `w`: the wanted objects are there, and all other places are as they were.
  pub record Trail (w0 : C.World) (fs : List Wanted) (w : C.World) : Type 0 where
    pub held : All (Holds w) fs
    pub others : (j : Kind) (key : NamespacedName) → IsNew j key fs → Keeps C j key w0 w

  -- A method that returns, and the way from `w0` to the world that it leaves.
  pub record Ends {A : Type 0} (w0 : C.World) (m : Exec C.World A) (fs : List Wanted) (w : C.World)
      : Type 0 where
    pub value : A
    pub returns : (m w).0 ≡ ok value
    pub trail : Trail w0 fs (m w).1

  -- One more place.
  Trail-step :
      {A : Type 0} (w0 : C.World) (m : Exec C.World A) (k : Kind) (key : NamespacedName)
      (P : Obj k → Type 0) (fs : List Wanted) (w : C.World)
      → Places C m k key P w
      → IsNew k key fs
      → Trail w0 fs w
      → Trail w0 (record { kind = k; key = key; IsGood = P } ∷ fs) (m w).1
  Trail-step w0 m k key P fs w p d t = record {
    held = (
      (p.object, p.shown, p.good),
      All-keep _ fs w (m w).1 (λ f a. p.apart f.kind f.key a) d t.held,
    );
    others = λ j key' (a, as'). p.apart j key' (Apart-sym j key' k key a) ∙ t.others j key' as';
  }

  -- A step that fills one place, and what follows it.
  pub >>=-Ends :
      {A B : Type 0} (w0 : C.World) (m : Exec C.World A) (n : A → Exec C.World B) (k : Kind)
      (key : NamespacedName) (P : Obj k → Type 0) (fs gs : List Wanted) (w : C.World)
      → Places C m k key P w
      → IsNew k key fs
      → Trail w0 fs w
      → ((a : A) (w' : C.World)
          → Trail w0 (record { kind = k; key = key; IsGood = P } ∷ fs) w'
          → Ends w0 (n a) gs w')
      → Ends w0 (m >>= n) gs w
  >>=-Ends w0 m n k key P fs gs w p d t next =
      let e : (m >>= n) w ≡ n p.value (m w).1 = >>=-ok m n (ap (λ o. (o, (m w).1)) p.returns) in
      let rest = next p.value (m w).1 (Trail-step w0 m k key P fs w p d t) in
      record {
        value = rest.value;
        returns = ap (λ r. r.0) e ∙ rest.returns;
        trail = rw e rest.trail;
      }

  -- A method, and what follows it.
  pub >>-Ends :
      {B : Type 0} (w0 : C.World) (m : Exec C.World (Unit {0})) (n : Exec C.World B)
      (fs gs : List Wanted) (w : C.World)
      → Ends w0 m fs w
      → ((w' : C.World) → Trail w0 fs w' → Ends w0 n gs w')
      → Ends w0 (m >> n) gs w
  >>-Ends w0 m n fs gs w d next =
      let e : (m >> n) w ≡ n (m w).1 = >>=-ok m (λ _. n) (ap (λ o. (o, (m w).1)) d.returns) in
      let rest = next (m w).1 d.trail in
      record {
        value = rest.value;
        returns = ap (λ r. r.0) e ∙ rest.returns;
        trail = rw e rest.trail;
      }

  -- A property that follows.
  pub Places-weaken :
      {A : Type 0} (m : Exec C.World A) (k : Kind) (key : NamespacedName) (P Q : Obj k → Type 0)
      (w : C.World)
      → ((o : Obj k) → P o → Q o)
      → Places C m k key P w
      → Places C m k key Q w
  Places-weaken m k key P Q w f p = record {
    value = p.value;
    returns = p.returns;
    object = p.object;
    shown = p.shown;
    good = f p.object p.good;
    apart = p.apart;
  }

  -- A last step that fills one place.
  pub Places-Ends :
      {A : Type 0} (w0 : C.World) (m : Exec C.World A) (k : Kind) (key : NamespacedName)
      (P : Obj k → Type 0) (fs : List Wanted) (w : C.World)
      → Places C m k key P w
      → IsNew k key fs
      → Trail w0 fs w
      → Ends w0 m (record { kind = k; key = key; IsGood = P } ∷ fs) w
  Places-Ends w0 m k key P fs w p d t = record {
    value = p.value;
    returns = p.returns;
    trail = Trail-step w0 m k key P fs w p d t;
  }
