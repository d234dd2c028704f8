-- ===== src/K8s/Steady.antt =====
-- What a sequence of steps keeps, on an API server with no other clients: where it writes, and what
-- becomes of the objects that are there.
use kyuubi_operator.Base.{
  Option-cases, none, some, List, arith, ◌≡◌, refl, ap, ◌∙◌, subst, ◌⊎◌, inl, inr, string_discrete,
}
use kyuubi_operator.Base.Dict.{lookup, Dict}
use kyuubi_operator.K8s.Objects.{NamespacedName}
use kyuubi_operator.K8s.Client.{Kind, Obj, Client}
use kyuubi_operator.K8s.Exec.{Exec, Outcome, ok, err, waiting, panicked, ◌>>=◌, continue}
use kyuubi_operator.K8s.Store.{Shows, Keeps, Apart, SameUid, restated}
use kyuubi_operator.Api.{KyuubiCluster, KyuubiClusterStatus, ExposedInfo}

-- A status with infos has some afterwards, and its creation time stays.
abbrev pub KeepsTime : KyuubiClusterStatus → KyuubiClusterStatus → Type 0
KeepsTime old status =
    (old.exposed_infos ≡ none)
    ⊎ (((infos : List ExposedInfo) × (status.exposed_infos ≡ some infos))
        × (status.creation_time ≡ old.creation_time))

pub KeepsTime-refl : (status : KyuubiClusterStatus) → KeepsTime status status
KeepsTime-refl status = elim (Option-cases status.exposed_infos) [
  | inl n ↦ inl n
  | inr s ↦ inr (s, refl)
]

KeepsTime-trans : (a b c : KyuubiClusterStatus) → KeepsTime a b → KeepsTime b c → KeepsTime a c
KeepsTime-trans a b c (inl n) q = inl n
KeepsTime-trans a b c (inr ((infos, e), t)) (inl n) = absurd (ground (arith, e, n))
KeepsTime-trans a b c (inr (_, t)) (inr (s, u)) = inr (s, u ∙ t)

-- What the operator may make of an object: of a cluster it writes the status, of a config map the
-- contents, and it replaces a StatefulSet; all else stays as it is.
abbrev pub Similar : (k : Kind) → Obj k → Obj k → Type 0
Similar Kind.kyuubi_cluster o o' =
    (others : Dict) × (status : KyuubiClusterStatus) × SameUid others o
    × KeepsTime o.status status
    × (o' ≡ restated o others status)
Similar Kind.service_account o o' = o' ≡ o
Similar Kind.role o o' = o' ≡ o
Similar Kind.role_binding o o' = o' ≡ o
Similar Kind.stateful_set o o' = Unit {0}
Similar Kind.config_map o o' = o'.meta ≡ o.meta
Similar Kind.service o o' = o' ≡ o

pub Similar-refl : (k : Kind) (o : Obj k) → Similar k o o
Similar-refl Kind.kyuubi_cluster o = (o.meta.others, o.status, refl, KeepsTime-refl o.status, refl)
Similar-refl Kind.service_account o = refl
Similar-refl Kind.role o = refl
Similar-refl Kind.role_binding o = refl
Similar-refl Kind.stateful_set o = tt
Similar-refl Kind.config_map o = refl
Similar-refl Kind.service o = refl

pub Similar-trans : (k : Kind) (a b c : Obj k) → Similar k a b → Similar k b c → Similar k a c
Similar-trans Kind.kyuubi_cluster a b c (o, s, u, t, e) (o', s', u', t', e') = (
  o',
  s',
  u' ∙ ap (λ (x : KyuubiCluster). lookup "uid" x.meta.others) e ∙ u,
  KeepsTime-trans a.status s s' t (subst (λ (x : KyuubiCluster). KeepsTime x.status s') e t'),
  e' ∙ ap (λ x. restated x o' s') e,
)
Similar-trans Kind.service_account a b c p q = q ∙ p
Similar-trans Kind.role a b c p q = q ∙ p
Similar-trans Kind.role_binding a b c p q = q ∙ p
Similar-trans Kind.stateful_set a b c p q = tt
Similar-trans Kind.config_map a b c p q = q ∙ p
Similar-trans Kind.service a b c p q = q ∙ p

-- Two places are apart, or one.
Apart-cases :
    (k : Kind) (key : NamespacedName) (j : Kind) (key' : NamespacedName)
    → Apart k key j key' ⊎ ((k ≡ j) × (key ≡ key'))
Apart-cases k key j key' = elim (kinds k j) [
  | no n ↦ inl (inl n)
  | yes e ↦ elim (keys key key') [ no n ↦ inl (inr n) | yes e' ↦ inr (e, e') ]
]
  where
    kinds : Discrete Kind
    kinds = hlevel

    keys : Discrete NamespacedName
    keys = hlevel string_discrete

module _ (C : Client) where
  -- Every object that is shown in the world `w` is there in the world `w'`, changed at most as the
  -- operator may; and only places with the property `IsMine` have changed.
  pub record Moves (IsMine : Kind → NamespacedName → Type 0) (w w' : C.World) : Type 0 where
    pub steady :
        (k : Kind) (key : NamespacedName) (o : Obj k)
        → Shows C k key w o
        → (o' : Obj k) × Shows C k key w' o' × Similar k o o'
    pub confined : (k : Kind) (key : NamespacedName) → ¬ IsMine k key → Keeps C k key w w'

-- The same with more places.
pub Moves-weaken :
    (C : Client) (P Q : Kind → NamespacedName → Type 0) (w w' : C.World)
    → ((k : Kind) (key : NamespacedName) → P k key → Q k key)
    → Moves C P w w'
    → Moves C Q w w'
Moves-weaken C P Q w w' f m = record {
  steady = m.steady;
  confined = λ k key n. m.confined k key (λ p. n (f k key p));
}

module _ (C : Client) {IsMine : Kind → NamespacedName → Type 0} where
  pub Moves-refl : (w : C.World) → Moves C IsMine w w
  Moves-refl w = record {
    steady = λ k key o s. (o, s, Similar-refl k o);
    confined = λ k key n. refl;
  }

  pub Moves-trans : (u v w : C.World) → Moves C IsMine u v → Moves C IsMine v w → Moves C IsMine u w
  Moves-trans u v w m n = record {
    steady = λ k key o s.
        let (o', s', p) = m.steady k key o s in
        let (o'', s'', q) = n.steady k key o' s' in (o'', s'', Similar-trans k o o' o'' p q);
    confined = λ k key h. n.confined k key h ∙ m.confined k key h;
  }

  -- A step that writes one place: nothing was there before, or the new object is similar.
  pub write-Moves :
      (k : Kind) (key : NamespacedName) (o' : Obj k) (w w' : C.World)
      → IsMine k key
      → ((o : Obj k) → Shows C k key w o → Similar k o o')
      → Shows C k key w' o'
      → ((j : Kind) (key' : NamespacedName) → Apart k key j key' → Keeps C j key' w w')
      → Moves C IsMine w w'
  write-Moves k key o' w w' mine similar shown apart = record {
    steady = λ j key' o s. elim (Apart-cases k key j key') [
      | inl d ↦ (o, apart j key' d ∙ s, Similar-refl j o)
      | inr (e, e') ↦ here j key' e e' o s
    ];
    confined = λ j key' n. elim (Apart-cases k key j key') [
      | inl d ↦ apart j key' d
      | inr (e, e') ↦ absurd (n (subst (λ i. IsMine i key') e (subst (IsMine k) e' mine)))
    ];
  }
    where
      Here : (j : Kind) → NamespacedName → Type 0
      Here j key' =
          (o : Obj j) → Shows C j key' w o → (o'' : Obj j) × Shows C j key' w' o'' × Similar j o o''

      here : (j : Kind) (key' : NamespacedName) → k ≡ j → key ≡ key' → Here j key'
      here j key' e e' =
          subst (λ i. Here i key') e (subst (Here k) e' (λ o s. (o', shown, similar o s)))

-- A step, and what follows it, which may write more places.
pub >>=-Moves :
    (C : Client) {P Q : Kind → NamespacedName → Type 0} {A B : Type 0}
    → ((k : Kind) (key : NamespacedName) → P k key → Q k key)
    → (m : Exec C.World A) (f : A → Exec C.World B) (w0 w : C.World) → Moves C P w0 w
    → Moves C P w (m w).1
    → ((a : A) (w' : C.World) → Moves C P w0 w' → Moves C Q w0 (f a w').1)
    → Moves C Q w0 ((m >>= f) w).1
>>=-Moves C {P} {Q} {A} more m f w0 w before step next = ends (m w).0 after
  where
    after : Moves C P w0 (m w).1
    after = Moves-trans C w0 w (m w).1 before step

    ended : Moves C Q w0 (m w).1
    ended = Moves-weaken C P Q w0 (m w).1 more after

    ends : (r : Outcome A) → Moves C P w0 (m w).1 → Moves C Q w0 (continue r f (m w).1).1
    ends (ok a) after = next a (m w).1 after
    ends (err e) after = ended
    ends waiting after = ended
    ends panicked after = ended
