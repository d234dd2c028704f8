-- ===== src/Memory/Laws.antt =====
-- The cluster kept in memory keeps what is assumed of an API server with no other clients.
use mathlib.Core.Logic.{ite}
use kyuubi_operator.Base.{
  ◌≡◌, refl, sym, ap, ◌∙◌, subst, ◌≢◌, ◌⊎◌, inl, inr, Option, none, some, arith,
}
use kyuubi_operator.Memory.{
  reply_of, on_missing, on_found, Memory, memory_client, on_status, put, find, key_discrete,
  kind_discrete, table_at, set_key, Table,
}
use mathlib.Core.Path.{subst_refl}
use std.HLevel.{hedberg}
use kyuubi_operator.K8s.Objects.{NamespacedName}
use kyuubi_operator.K8s.Client.{Kind, Obj, object_key, failed, found, not_found}
use kyuubi_operator.K8s.Store.{IsStore, Apart}
use kyuubi_operator.Api.{KyuubiCluster, KyuubiClusterStatus}

ite_yes : {P A : Type 0} (d : Dec P) (a b : A) → P → ite d a b ≡ a
ite_yes (yes p) a b h = refl
ite_yes (no n) a b h = absurd (n h)

ite_no : {P A : Type 0} (d : Dec P) (a b : A) → ¬ P → ite d a b ≡ b
ite_no (yes p) a b h = absurd (h p)
ite_no (no n) a b h = refl

subst_id :
    (A : Type 0) → Discrete A → (P : A → Type 0) (a : A) (e : a ≡ a) (t : P a) → subst P e t ≡ t
subst_id A d P a e t = ap (λ q. subst P q t) (hedberg d a a e refl) ∙ subst_refl P t

table_at-same : (k : Kind) (t old : Table (Obj k)) (d : Dec (k ≡ k)) → table_at k k t old d ≡ t
table_at-same k t old (yes e) = subst_id Kind kind_discrete (λ i. Table (Obj i)) k e t
table_at-same k t old (no n) = absurd (n refl)

table_at-apart :
    (k j : Kind) (t : Table (Obj k)) (old : Table (Obj j)) (d : Dec (k ≡ j))
    → k ≢ j
    → table_at k j t old d ≡ old
table_at-apart k j t old (yes e) n = absurd (n e)
table_at-apart k j t old (no _) n = refl

-- The object of a place, if it has the place's key.
abbrev at_place : (k : Kind) → NamespacedName → Option (Obj k) → Option (Obj k)
at_place k key none = none
at_place k key (some o) = ite (key_discrete (object_key k o) key) (some o) none

find-at_place :
    (k : Kind) (key : NamespacedName) (m : Memory) → find k key m ≡ at_place k key (m.objects k key)
find-at_place k key m = refl

-- What is put is found.
find-put : (k : Kind) (o : Obj k) (m : Memory) → find k (object_key k o) (put k o m) ≡ some o
find-put k o m =
    let key = object_key k o in
    let e : (put k o m).objects k key ≡ some o =
      ap (λ t. t key)
        (table_at-same k (set_key (m.objects k) key o) (m.objects k) (kind_discrete k k))
      ∙ ite_yes (key_discrete key key) (some o) (m.objects k key) refl in
    ap (at_place k key) e ∙ ite_yes (key_discrete key key) (some o) none refl

set_key-apart :
    (k : Kind) (t : Table (Obj k)) (o : Obj k) (key key' : NamespacedName)
    → key ≢ key'
    → set_key t key o key' ≡ t key'
set_key-apart k t o key key' n = ite_no (key_discrete key key') (some o) (t key') n

table_at-key :
    (k j : Kind) (o : Obj k) (key key' : NamespacedName) (m : Memory) (d : Dec (k ≡ j))
    → key ≢ key'
    → table_at k j (set_key (m.objects k) key o) (m.objects j) d key' ≡ m.objects j key'
table_at-key k j o key key' m (no q) n = refl
table_at-key k j o key key' m (yes e) n =
    subst
      (λ i.
        (e : k ≡ i)
        → table_at k i (set_key (m.objects k) key o) (m.objects i) (yes e) key' ≡ m.objects i key')
      e
      (λ e.
        ap (λ t. t key') (table_at-same k (set_key (m.objects k) key o) (m.objects k) (yes e))
        ∙ set_key-apart k (m.objects k) o key key' n)
      e

find-put-Apart :
    (k : Kind) (o : Obj k) (m : Memory) (j : Kind) (key : NamespacedName)
    → Apart k (object_key k o) j key
    → find j key (put k o m) ≡ find j key m
find-put-Apart k o m j key (inl n) =
    ap (λ t. at_place j key (t key))
      (table_at-apart k j (set_key (m.objects k) (object_key k o) o) (m.objects j)
        (kind_discrete k j) n)
find-put-Apart k o m j key (inr n) =
    ap (at_place j key) (table_at-key k j o (object_key k o) key m (kind_discrete k j) n)

kept_of_ite :
    {P A : Type 0} (d : Dec P) (a b : A)
    → ◌≡◌ {A = Option A} (ite d (some a) none) (some b)
    → P × (a ≡ b)
kept_of_ite (yes p) a b e = (p, ground (arith, e))
kept_of_ite (no n) a b e = absurd (ground (arith, e))

at_place-key :
    (k : Kind) (key : NamespacedName) (x : Option (Obj k)) (o : Obj k)
    → at_place k key x ≡ some o
    → object_key k o ≡ key
at_place-key k key none o e = absurd (ground (arith, e))
at_place-key k key (some o') o e =
    let (p, q) = kept_of_ite (key_discrete (object_key k o') key) o' o e in
    ap (object_key k) (sym q) ∙ p

reply_found : {A : Type 0} (x : Option A) (a : A) → reply_of x ≡ found a → x ≡ some a
reply_found none a e = absurd (ground (arith, e))
reply_found (some b) a e = ground (arith, e)

reply_missing : {A : Type 0} (x : Option A) → reply_of x ≡ failed not_found → x ≡ none
reply_missing none e = refl
reply_missing (some b) e = absurd (ground (arith, e))

reply_answers :
    {A : Type 0} (x : Option A)
    → (reply_of x ≡ failed not_found) ⊎ ((a : A) × (reply_of x ≡ found a))
reply_answers none = inl refl
reply_answers (some a) = inr (a, refl)

on_missing-same :
    {A B : Type 0} (x : Option A) (new m : Memory) (f : Memory → B)
    → f new ≡ f m
    → f (on_missing x new m).1 ≡ f m
on_missing-same none new m f e = e
on_missing-same (some old) new m f e = refl

on_found-same :
    {A B : Type 0} (x : Option A) (new m : Memory) (f : Memory → B)
    → f new ≡ f m
    → f (on_found x new m).1 ≡ f m
on_found-same none new m f e = refl
on_found-same (some old) new m f e = e

on_status-Apart :
    (status : KyuubiClusterStatus) (key : NamespacedName) (m : Memory) (j : Kind)
    (key' : NamespacedName)
    → Apart Kind.kyuubi_cluster key j key'
    → (x : Option KyuubiCluster) → x ≡ find Kind.kyuubi_cluster key m
    → reply_of (find j key' (on_status status x m).1) ≡ reply_of (find j key' m)
on_status-Apart status key m j key' d none e = refl
on_status-Apart status key m j key' d (some old) e =
    let same : object_key Kind.kyuubi_cluster old ≡ key =
      at_place-key Kind.kyuubi_cluster key (m.objects Kind.kyuubi_cluster key) old (sym e) in
    ap reply_of (
      find-put-Apart Kind.kyuubi_cluster (record old { status = status }) m j key'
        (subst (λ k. Apart Kind.kyuubi_cluster k j key') (sym same) d))

-- What is assumed of an API server with no other clients holds of a cluster kept in memory.
pub memory_client-IsStore : IsStore memory_client
memory_client-IsStore = record {
  quiet = λ k key m. refl;
  answers = λ k key m. reply_answers (find k key m);
  keyed = λ k key m o e. at_place-key k key (m.objects k key) o (reply_found (find k key m) o e);
  create_missing = λ k o m e.
      let p = ap (λ x. on_missing x (put k o m) m) (reply_missing (find k (object_key k o) m) e) in
      (
        ap (λ r. r.0) p,
        ap (λ r. reply_of (find k (object_key k o) r.1)) p ∙ ap reply_of (find-put k o m),
      );
  update_found = λ k o old m e.
      let p = ap (λ x. on_found x (put k o m) m) (reply_found (find k (object_key k o) m) old e) in
      (
        ap (λ r. r.0) p,
        ap (λ r. reply_of (find k (object_key k o) r.1)) p ∙ ap reply_of (find-put k o m),
      );
  status_found = λ o old m e.
      let key = object_key Kind.kyuubi_cluster o in
      let there = reply_found (find Kind.kyuubi_cluster key m) old e in
      let new = record old { status = o.status } in
      let same : object_key Kind.kyuubi_cluster old ≡ key =
        at_place-key Kind.kyuubi_cluster key (m.objects Kind.kyuubi_cluster key) old there in
      let p = ap (λ x. on_status o.status x m) there in
      (
        ap (λ r. r.0) p,
        (
          old.meta.others,
          refl,
          ap (λ r. reply_of (find Kind.kyuubi_cluster key r.1)) p
              ∙ ap (λ k. reply_of (find Kind.kyuubi_cluster k (put Kind.kyuubi_cluster new m)))
                  (sym same)
              ∙ ap reply_of (find-put Kind.kyuubi_cluster new m),
        ),
      );
  create_apart = λ k o m j key d.
      on_missing-same (find k (object_key k o) m) (put k o m) m (λ r. reply_of (find j key r))
        (ap reply_of (find-put-Apart k o m j key d));
  update_apart = λ k o m j key d.
      on_found-same (find k (object_key k o) m) (put k o m) m (λ r. reply_of (find j key r))
        (ap reply_of (find-put-Apart k o m j key d));
  status_apart =
      λ o m j key d. on_status-Apart o.status (object_key Kind.kyuubi_cluster o) m j key d _ refl;
  now_keeps = λ m j key. refl;
}
