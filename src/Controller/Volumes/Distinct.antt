-- ===== src/Controller/Volumes/Distinct.antt =====
-- The names of the volumes of a pod are distinct.
use kyuubi_operator.Base.{
  String, ◌<>◌, ◌≡◌, refl, ◌≢◌, ◌⊎◌, inl, inr, false, List, [], ◌∷◌, ◌++◌, map, arith, All,
  string_discrete, ◌==◌,
}
use mathlib.Core.List.{map-append, append_assoc, append-nil}
use text.Mathlib.TextLemmas.{append_cancel_left}
use kyuubi_operator.K8s.Objects.{Volume}
use kyuubi_operator.Api.{ClusterType, ClusterRef, KyuubiCluster}
use kyuubi_operator.Controller.Names.{cluster_resource_name}
use kyuubi_operator.Controller.Volumes.{volumes_of, volume_loop, construct_volumes}

-- No text occurs twice.
abbrev pub NoRepeat : List String → Type 0
NoRepeat [] = Unit
NoRepeat (x ∷ xs) = All (λ y. x ≢ y) xs × NoRepeat xs

-- No type but `flink` occurs twice.
abbrev pub NoTypeTwice : List ClusterRef → Type 0
NoTypeTwice [] = Unit
NoTypeTwice (r ∷ rest) =
    All (λ (r' : ClusterRef). (r.type ≢ r'.type) ⊎ (r.type ≡ ClusterType.flink)) rest
    × NoTypeTwice rest

-- What follows the cluster's name in the names of the volumes.
abbrev suffix_of : ClusterType → List String
suffix_of ClusterType.spark = "-spark" ∷ []
suffix_of ClusterType.hdfs = "-hdfssite" ∷ "-coresite" ∷ []
suffix_of ClusterType.metastore = "-hivesite" ∷ []
suffix_of ClusterType.flink = []

abbrev suffixes : List ClusterRef → List String
suffixes [] = []
suffixes (r ∷ rest) = suffix_of r.type ++ suffixes rest

abbrev Foreign : List String → List String → Type 0
Foreign xs ys = All (λ x. All (λ y. x ≢ y) ys) xs

ne_of_== : (a b : String) → (a == b) ≡ false → a ≢ b
ne_of_== a b e h = ground (arith, e, h)

suffix_of-Foreign :
    (t t' : ClusterType) → (t ≢ t') ⊎ (t ≡ ClusterType.flink) → Foreign (suffix_of t) (suffix_of t')
unfolding string_discrete
suffix_of-Foreign ClusterType.spark ClusterType.spark (inl n) = absurd (n refl)
suffix_of-Foreign ClusterType.spark ClusterType.spark (inr e) = cc
suffix_of-Foreign ClusterType.spark ClusterType.hdfs h =
    ((ne_of_== "-spark" "-hdfssite" refl, (ne_of_== "-spark" "-coresite" refl, tt)), tt)
suffix_of-Foreign ClusterType.spark ClusterType.metastore h =
    ((ne_of_== "-spark" "-hivesite" refl, tt), tt)
suffix_of-Foreign ClusterType.spark ClusterType.flink h = (tt, tt)
suffix_of-Foreign ClusterType.hdfs ClusterType.spark h =
    ((ne_of_== "-hdfssite" "-spark" refl, tt), ((ne_of_== "-coresite" "-spark" refl, tt), tt))
suffix_of-Foreign ClusterType.hdfs ClusterType.hdfs (inl n) = absurd (n refl)
suffix_of-Foreign ClusterType.hdfs ClusterType.hdfs (inr e) = cc
suffix_of-Foreign ClusterType.hdfs ClusterType.metastore h =
    ((ne_of_== "-hdfssite" "-hivesite" refl, tt), ((ne_of_== "-coresite" "-hivesite" refl, tt), tt))
suffix_of-Foreign ClusterType.hdfs ClusterType.flink h = (tt, (tt, tt))
suffix_of-Foreign ClusterType.metastore ClusterType.spark h =
    ((ne_of_== "-hivesite" "-spark" refl, tt), tt)
suffix_of-Foreign ClusterType.metastore ClusterType.hdfs h =
    ((ne_of_== "-hivesite" "-hdfssite" refl, (ne_of_== "-hivesite" "-coresite" refl, tt)), tt)
suffix_of-Foreign ClusterType.metastore ClusterType.metastore (inl n) = absurd (n refl)
suffix_of-Foreign ClusterType.metastore ClusterType.metastore (inr e) = cc
suffix_of-Foreign ClusterType.metastore ClusterType.flink h = (tt, tt)
suffix_of-Foreign ClusterType.flink t' h = tt

-- A text of the first list is none of either part of the second.
All-append :
    (x : String) (ys zs : List String)
    → All (λ y. x ≢ y) ys
    → All (λ y. x ≢ y) zs
    → All (λ y. x ≢ y) (ys ++ zs)
All-append x [] zs h g = g
All-append x (y ∷ ys) zs (h, hs) g = (h, All-append x ys zs hs g)

Foreign-append : (xs ys zs : List String) → Foreign xs ys → Foreign xs zs → Foreign xs (ys ++ zs)
Foreign-append [] ys zs h g = tt
Foreign-append (x ∷ xs) ys zs (h, hs) (g, gs) =
    (All-append x ys zs h g, Foreign-append xs ys zs hs gs)

Foreign-nil : (xs : List String) → Foreign xs []
Foreign-nil [] = tt
Foreign-nil (x ∷ xs) = (tt, Foreign-nil xs)

suffixes-Foreign :
    (t : ClusterType) (refs : List ClusterRef)
    → All (λ (r' : ClusterRef). (t ≢ r'.type) ⊎ (t ≡ ClusterType.flink)) refs
    → Foreign (suffix_of t) (suffixes refs)
suffixes-Foreign t [] h = Foreign-nil (suffix_of t)
suffixes-Foreign t (r ∷ rest) (h, hs) =
    Foreign-append (suffix_of t) (suffix_of r.type) (suffixes rest) (suffix_of-Foreign t r.type h)
      (suffixes-Foreign t rest hs)

NoRepeat-append :
    (xs ys : List String) → NoRepeat xs → NoRepeat ys → Foreign xs ys → NoRepeat (xs ++ ys)
NoRepeat-append [] ys u v h = v
NoRepeat-append (x ∷ xs) ys (u, us) v (h, hs) =
    (All-append x xs ys u h, NoRepeat-append xs ys us v hs)

suffix_of-NoRepeat : (t : ClusterType) → NoRepeat (suffix_of t)
unfolding string_discrete
suffix_of-NoRepeat ClusterType.spark = (tt, tt)
suffix_of-NoRepeat ClusterType.hdfs = ((ne_of_== "-hdfssite" "-coresite" refl, tt), (tt, tt))
suffix_of-NoRepeat ClusterType.metastore = (tt, tt)
suffix_of-NoRepeat ClusterType.flink = tt

suffixes-NoRepeat : (refs : List ClusterRef) → NoTypeTwice refs → NoRepeat (suffixes refs)
suffixes-NoRepeat [] u = tt
suffixes-NoRepeat (r ∷ rest) (u, us) =
    NoRepeat-append (suffix_of r.type) (suffixes rest) (suffix_of-NoRepeat r.type)
      (suffixes-NoRepeat rest us) (suffixes-Foreign r.type rest u)

kyuubi_suffix : (t : ClusterType) → All (λ y. "-kyuubi" ≢ y) (suffix_of t)
unfolding string_discrete
kyuubi_suffix ClusterType.spark = (ne_of_== "-kyuubi" "-spark" refl, tt)
kyuubi_suffix ClusterType.hdfs =
    (ne_of_== "-kyuubi" "-hdfssite" refl, (ne_of_== "-kyuubi" "-coresite" refl, tt))
kyuubi_suffix ClusterType.metastore = (ne_of_== "-kyuubi" "-hivesite" refl, tt)
kyuubi_suffix ClusterType.flink = tt

kyuubi_suffix-All : (refs : List ClusterRef) → All (λ y. "-kyuubi" ≢ y) (suffixes refs)
kyuubi_suffix-All [] = tt
kyuubi_suffix-All (r ∷ rest) =
    All-append "-kyuubi" (suffix_of r.type) (suffixes rest) (kyuubi_suffix r.type)
      (kyuubi_suffix-All rest)

-- The names with the cluster's name before them.
map-ne :
    (p x : String) (ys : List String)
    → All (λ y. x ≢ y) ys
    → All (λ y. (p <> x) ≢ y) (map (λ y. p <> y) ys)
map-ne p x [] h = tt
map-ne p x (y ∷ ys) (h, hs) = (λ e. h (append_cancel_left p x y e), map-ne p x ys hs)

map-NoRepeat : (p : String) (xs : List String) → NoRepeat xs → NoRepeat (map (λ x. p <> x) xs)
map-NoRepeat p [] u = tt
map-NoRepeat p (x ∷ xs) (u, us) = (map-ne p x xs u, map-NoRepeat p xs us)

names_of :
    (kyuubi : KyuubiCluster) (t : ClusterType)
    → map (λ (v : Volume). v.name) (volumes_of kyuubi t)
      ≡ map (λ x. kyuubi.meta.name <> x) (suffix_of t)
unfolding volumes_of
names_of kyuubi ClusterType.spark = refl
names_of kyuubi ClusterType.hdfs = refl
names_of kyuubi ClusterType.metastore = refl
names_of kyuubi ClusterType.flink = refl

names_loop :
    (kyuubi : KyuubiCluster) (vs : List Volume) (xs : List String) (refs : List ClusterRef)
    → map (λ (v : Volume). v.name) vs ≡ map (λ x. kyuubi.meta.name <> x) xs
    → map (λ (v : Volume). v.name) (volume_loop kyuubi vs refs)
      ≡ map (λ x. kyuubi.meta.name <> x) (xs ++ suffixes refs)
unfolding volume_loop
names_loop kyuubi vs xs [] h = rw (append-nil xs) h
names_loop kyuubi vs xs (r ∷ rest) h = rw (← append_assoc xs (suffix_of r.type) (suffixes rest)) (
    names_loop kyuubi (vs ++ volumes_of kyuubi r.type) (xs ++ suffix_of r.type) rest
      (simp (map-append, h, names_of kyuubi r.type)))

-- If no type but `flink` occurs twice among the cluster references, then the volumes of the pod have
-- distinct names.
pub construct_volumes-NoRepeat :
    (kyuubi : KyuubiCluster)
    → NoTypeTwice kyuubi.spec.cluster_refs
    → NoRepeat (map (λ (v : Volume). v.name) (construct_volumes kyuubi))
unfolding construct_volumes cluster_resource_name
construct_volumes-NoRepeat kyuubi u =
    let refs = kyuubi.spec.cluster_refs in
    rw (names_loop kyuubi _ ("-kyuubi" ∷ []) refs refl) (
      map-NoRepeat kyuubi.meta.name ("-kyuubi" ∷ suffixes refs)
        (kyuubi_suffix-All refs, suffixes-NoRepeat refs u))
