-- ===== src/K8s/Store.antt =====
-- An API server with no other clients and no failures, as the client shows it: what its documented
-- operations promise then. It keeps an object as it is sent and fills in no defaults. A key names the
-- place of an object of a kind.
use kyuubi_operator.Base.{◌∙◌, arith, ◌≡◌, sym, ap, ◌≢◌, ◌⊎◌, inl, inr, none}
use kyuubi_operator.K8s.Objects.{NamespacedName}
use kyuubi_operator.K8s.Client.{Kind, Obj, object_key, Client, found, failed, not_found}
use kyuubi_operator.K8s.Exec.{Exec, ok}
use kyuubi_operator.Base.Dict.{Dict, lookup}
use kyuubi_operator.Api.{KyuubiCluster, KyuubiClusterStatus}

-- Two different places.
abbrev pub Apart : Kind → NamespacedName → Kind → NamespacedName → Type 0
Apart k key j key' = (k ≢ j) ⊎ (key ≢ key')

pub Apart-sym :
    (k : Kind) (key : NamespacedName) (j : Kind) (key' : NamespacedName)
    → Apart k key j key'
    → Apart j key' k key
Apart-sym k key j key' (inl n) = inl (λ e. n (sym e))
Apart-sym k key j key' (inr n) = inr (λ e. n (sym e))

-- The cluster as a write of its status leaves it: with this status, and with other values of the
-- fields of its meta data that the API server keeps, such as the version of the object.
abbrev pub restated : KyuubiCluster → Dict → KyuubiClusterStatus → KyuubiCluster
restated kyuubi others status = record kyuubi {
  meta = record kyuubi.meta { others = others };
  status = status;
}

-- The API server never changes the identity of an object.
abbrev pub SameUid : Dict → KyuubiCluster → Type 0
SameUid others old = lookup "uid" others ≡ lookup "uid" old.meta.others

module _ (C : Client) where
  -- The client shows this object at this place.
  abbrev pub Shows : (k : Kind) → NamespacedName → C.World → Obj k → Type 0
  Shows k key w o = (C.get k key w).0 ≡ found o

  -- There is one object at a place.
  pub shown_once :
      (k : Kind) (key : NamespacedName) (w : C.World) (a b : Obj k)
      → Shows k key w a
      → Shows k key w b
      → a ≡ b
  shown_once k key w a b s t = found_injective (sym s ∙ t)
    where
      found_injective : found a ≡ found b → a ≡ b
      found_injective e = ground arith

  -- The client shows the same at this place in both worlds.
  abbrev pub Keeps : Kind → NamespacedName → C.World → C.World → Type 0
  Keeps k key w w' = (C.get k key w').0 ≡ (C.get k key w).0

  -- A Get that leaves the world as it is.
  abbrev pub IsQuiet : Type 0
  IsQuiet = (k : Kind) (key : NamespacedName) (w : C.World) → (C.get k key w).1 ≡ w

  pub record IsStore : Type 0 where
    pub quiet : IsQuiet
    pub answers :
        (k : Kind) (key : NamespacedName) (w : C.World)
        → ((C.get k key w).0 ≡ failed not_found) ⊎ ((o : Obj k) × Shows k key w o)
    pub keyed :
        (k : Kind) (key : NamespacedName) (w : C.World) (o : Obj k)
        → Shows k key w o
        → object_key k o ≡ key
    pub create_missing :
        (k : Kind) (o : Obj k) (w : C.World)
        → (C.get k (object_key k o) w).0 ≡ failed not_found
        → ((C.create k o w).0 ≡ none) × Shows k (object_key k o) (C.create k o w).1 o
    pub update_found :
        (k : Kind) (o old : Obj k) (w : C.World)
        → Shows k (object_key k o) w old
        → ((C.update k o w).0 ≡ none) × Shows k (object_key k o) (C.update k o w).1 o
    pub status_found :
        (o old : KyuubiCluster) (w : C.World)
        → Shows Kind.kyuubi_cluster (object_key Kind.kyuubi_cluster o) w old
        → ((C.update_status o w).0 ≡ none)
          × ((others : Dict) × SameUid others old
              × Shows Kind.kyuubi_cluster
                  (object_key Kind.kyuubi_cluster o)
                  (C.update_status o w).1
                  (restated old others o.status))
    pub create_apart :
        (k : Kind) (o : Obj k) (w : C.World) (j : Kind) (key : NamespacedName)
        → Apart k (object_key k o) j key
        → Keeps j key w (C.create k o w).1
    pub update_apart :
        (k : Kind) (o : Obj k) (w : C.World) (j : Kind) (key : NamespacedName)
        → Apart k (object_key k o) j key
        → Keeps j key w (C.update k o w).1
    pub status_apart :
        (o : KyuubiCluster) (w : C.World) (j : Kind) (key : NamespacedName)
        → Apart Kind.kyuubi_cluster (object_key Kind.kyuubi_cluster o) j key
        → Keeps j key w (C.update_status o w).1
    pub now_keeps : (w : C.World) (j : Kind) (key : NamespacedName) → Keeps j key w (C.now w).1

  -- A step returns, leaves an object with the property `P` at its place, and keeps all other places.
  pub record Places {A : Type 0} (m : Exec C.World A) (k : Kind) (key : NamespacedName)
      (P : Obj k → Type 0) (w : C.World) : Type 0 where
    pub value : A
    pub returns : (m w).0 ≡ ok value
    pub object : Obj k
    pub shown : Shows k key (m w).1 object
    pub good : P object
    pub apart : (j : Kind) (key' : NamespacedName) → Apart k key j key' → Keeps j key' w (m w).1

  -- A step whose end is known.
  pub fill_place :
      {A : Type 0} (m : Exec C.World A) (k : Kind) (key : NamespacedName) (P : Obj k → Type 0)
      (w w' : C.World) (a : A) (o : Obj k)
      → m w ≡ (ok a, w')
      → Shows k key w' o
      → P o
      → ((j : Kind) (key' : NamespacedName) → Apart k key j key' → Keeps j key' w w')
      → Places m k key P w
  fill_place m k key P w w' a o e s p f = record {
    value = a;
    returns = ap (λ r. r.0) e;
    object = o;
    shown = rw e s;
    good = p;
    apart = λ j key' d. rw e (f j key' d);
  }
