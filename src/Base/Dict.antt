-- ===== src/Base/Dict.antt =====
-- Go's `map[string]string`: entries under distinct keys, and the orders in which `range` visits
-- them. Go leaves that order open and may choose another one for each loop.
pub mod Laws
use kyuubi_operator.Base.{
  ◌≡◌, String, Bool, true, false, ◌==◌, if◌then◌else◌, Option, none, some, List, [], ◌∷◌,
}

abbrev pub Dict : Type 0
Dict = List (String × String)

-- `v, ok := m[k]`
unfoldable pub lookup : String → Dict → Option String
lookup k [] = none
lookup k ((j, v) ∷ m) = if j == k then some v else lookup k m

-- `m[k]`, which is the empty text for a missing key.
abbrev pub index : Dict → String → String
index m k = elim (lookup k m) [ none ↦ "" | some v ↦ v ]

-- `_, ok := m[k]; ok`
abbrev pub has_key : String → Dict → Bool
has_key k m = elim (lookup k m) [ none ↦ false | some v ↦ true ]

-- `m[k] = v`
unfoldable pub insert : String → String → Dict → Dict
insert k v [] = (k, v) ∷ []
insert k v ((j, w) ∷ m) = if j == k then (k, v) ∷ m else (j, w) ∷ insert k v m

-- `for k, v := range entries { m[k] = v }`
unfoldable pub assign_all : List (String × String) → Dict → Dict
assign_all [] m = m
assign_all ((k, v) ∷ entries) m = assign_all entries (insert k v m)

-- A nil map reads as an empty one.
abbrev pub entries : Option Dict → Dict
entries none = []
entries (some m) = m

-- No key occurs twice, which holds of every Go map.
abbrev pub IsMap : Dict → Type 0
IsMap [] = Unit
IsMap ((k, v) ∷ m) = (lookup k m ≡ none) × IsMap m

-- What one `range` loop visits, for each map that it may be run on.
abbrev pub Order : Type 0
Order = Dict → List (String × String)

-- A loop visits every entry of a map once.
pub record IsRange (range : Order) : Type 0 where
  pub range-IsMap : (m : Dict) → IsMap m → IsMap (range m)
  pub lookup-range : (m : Dict) → IsMap m → (k : String) → lookup k (range m) ≡ lookup k m

pub record SameMap (a b : Dict) : Type 0 where
  pub at : (k : String) → lookup k a ≡ lookup k b
