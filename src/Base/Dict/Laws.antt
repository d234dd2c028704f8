-- ===== src/Base/Dict/Laws.antt =====
-- Lookups after an assignment, a loop of assignments and a removal; maps with equal lookups.
use kyuubi_operator.Base.{
  suc, ◌≡◌, ◌≢◌, refl, String, ◌==◌, if◌then◌else◌, none, some, [], ◌∷◌, arith, length,
}
use kyuubi_operator.Base.Dict.{Dict, lookup, insert, assign_all, IsMap}

pub lookup-nil : (k : String) → lookup k [] ≡ none
unfolding lookup
lookup-nil k = refl

pub lookup-cons :
    (j k v : String) (m : Dict) → lookup j ((k, v) ∷ m) ≡ (if k == j then some v else lookup j m)
unfolding lookup
lookup-cons j k v m = refl

pub lookup-insert :
    (j k v : String) (m : Dict) → lookup j (insert k v m) ≡ (if k == j then some v else lookup j m)
unfolding insert lookup
lookup-insert j k v [] = refl
lookup-insert j k v ((i, w) ∷ m) = ground (arith, lookup-insert j k v m)

pub lookup-insert_self : (k v : String) (m : Dict) → lookup k (insert k v m) ≡ some v
lookup-insert_self k v m = ground (arith, lookup-insert k k v m)

pub lookup-insert_ne : (j k v : String) (m : Dict) → k ≢ j → lookup j (insert k v m) ≡ lookup j m
lookup-insert_ne j k v m h = ground (arith, lookup-insert j k v m)

pub insert-IsMap : (k v : String) (m : Dict) → IsMap m → IsMap (insert k v m)
unfolding insert
insert-IsMap k v [] u = (lookup-nil k, tt)
insert-IsMap k v ((j, w) ∷ m) (fresh, u) =
    ground (arith, insert-IsMap k v m u, lookup-insert j k v m)

-- A loop of assignments leaves the loop's value where it has one and the old value elsewhere.
pub lookup-assign_all :
    (j : String) (es m : Dict)
    → IsMap es
    → lookup j (assign_all es m) ≡ (elim (lookup j es) [ none ↦ lookup j m | some v ↦ some v ])
unfolding assign_all lookup
lookup-assign_all j [] m u = refl
lookup-assign_all j ((k, v) ∷ es) m (fresh, u) =
    ground (arith, lookup-assign_all j es (insert k v m) u, lookup-insert j k v m)

pub assign_all-IsMap : (es m : Dict) → IsMap m → IsMap (assign_all es m)
unfolding assign_all
assign_all-IsMap [] m u = u
assign_all-IsMap ((k, v) ∷ es) m u = assign_all-IsMap es (insert k v m) (insert-IsMap k v m u)

without : String → Dict → Dict
without k [] = []
without k ((j, v) ∷ m) = let rest = without k m in if j == k then rest else (j, v) ∷ rest

lookup-without :
    (j k : String) (m : Dict) → lookup j (without k m) ≡ (if k == j then none else lookup j m)
unfolding without lookup
lookup-without j k [] = ground arith
lookup-without j k ((i, v) ∷ m) = ground (arith, lookup-without j k m)

without-IsMap : (k : String) (m : Dict) → IsMap m → IsMap (without k m)
unfolding without
without-IsMap k [] u = tt
without-IsMap k ((j, v) ∷ m) (fresh, u) = ground (arith, without-IsMap k m u, lookup-without j k m)

without_fresh : (k : String) (m : Dict) → lookup k m ≡ none → without k m ≡ m
unfolding without lookup
without_fresh k [] h = refl
without_fresh k ((j, v) ∷ m) h = ground (arith, without_fresh k m)

length-without :
    (k v : String) (m : Dict)
    → IsMap m
    → lookup k m ≡ some v
    → length m ≡ suc (length (without k m))
unfolding without lookup
length-without k v [] u h = cc
length-without k v ((j, w) ∷ m) (fresh, u) h =
    ground (arith, length-without k v m u, without_fresh k m)

abbrev pub Covers : Dict → Dict → Type 0
Covers xs ys = (k v : String) → lookup k xs ≡ some v → lookup k ys ≡ some v

-- A map is determined by its size and entries that it must have: no room is left for others.
pub lookup-eq_of_Covers :
    (xs ys : Dict)
    → IsMap xs
    → IsMap ys
    → length xs ≡ length ys
    → Covers xs ys
    → (j : String) → lookup j xs ≡ lookup j ys
unfolding lookup
lookup-eq_of_Covers [] [] u w e h j = refl
lookup-eq_of_Covers [] (y ∷ ys) u w e h j = absurd (omega arith)
lookup-eq_of_Covers ((k, v) ∷ xs) ys (fresh, u) w e h j =
    let found : lookup k ys ≡ some v = h k v (ground arith) in
    let rest : lookup j xs ≡ lookup j (without k ys) =
      lookup-eq_of_Covers xs (without k ys) u (without-IsMap k ys w)
        (omega (arith, length-without k v ys w found))
        (λ i x p. ground (arith, lookup-without i k ys, h i x)) j in
    ground (arith, found, rest, lookup-without j k ys)

pub length-eq_of_lookup-eq :
    (xs ys : Dict)
    → IsMap xs
    → IsMap ys
    → ((j : String) → lookup j xs ≡ lookup j ys)
    → length xs ≡ length ys
unfolding lookup
length-eq_of_lookup-eq [] [] u w h = refl
length-eq_of_lookup-eq [] ((k, v) ∷ ys) u w h = absurd (ground (arith, h k))
length-eq_of_lookup-eq ((k, v) ∷ xs) ys (fresh, u) w h =
    let found : lookup k ys ≡ some v = ground (arith, h k) in
    let rest : length xs ≡ length (without k ys) =
      length-eq_of_lookup-eq xs (without k ys) u (without-IsMap k ys w)
        (λ i. ground (arith, lookup-without i k ys, h i)) in
    omega (arith, length-without k v ys w found, rest)
