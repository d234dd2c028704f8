-- ===== src/Controller/Utils/CompareConf.antt =====
-- `compareConf` decides whether two configurations are the same map.
use kyuubi_operator.Base.{◌≡◌, refl, ◌↔◌, true, [], ◌∷◌, arith, ◌∙◌, sym, length}
use kyuubi_operator.Base.Dict.{Dict, Order, lookup, IsMap, IsRange, SameMap}
use kyuubi_operator.Base.Dict.Laws.{Covers, lookup-eq_of_Covers, length-eq_of_lookup-eq}
use kyuubi_operator.Controller.Utils.{compare_loop, compare_conf}

-- The loop passes if every entry that it visits is in the other map.
compare_loop_sound : (es dst : Dict) → IsMap es → compare_loop es dst ≡ true → Covers es dst
unfolding compare_loop lookup
compare_loop_sound [] dst u h k v e = cc
compare_loop_sound ((j, w) ∷ es) dst (fresh, u) h k v e =
    ground (arith, compare_loop_sound es dst u (ground arith) k v)

compare_loop_complete : (es dst : Dict) → IsMap es → Covers es dst → compare_loop es dst ≡ true
unfolding compare_loop lookup
compare_loop_complete [] dst u h = refl
compare_loop_complete ((j, w) ∷ es) dst (fresh, u) h =
    ground (arith, compare_loop_complete es dst u (λ k v e. ground (arith, h k v)), h j w)

-- A comparison that passes: as many entries, and each of the first map in the second.
pub compare_conf-Covers :
    (range : Order) (src dst : Dict)
    → IsRange range
    → IsMap src
    → compare_conf range src dst ≡ true
    → (length src ≡ length dst) × Covers src dst
unfolding compare_conf
compare_conf-Covers range src dst r u h = (
  ground arith,
  λ k v e.
      compare_loop_sound (range src) dst (r.range-IsMap src u) (ground arith) k v
        (r.lookup-range src u k ∙ e),
)

-- And one with as many entries, all of them in the second map, passes.
pub Covers-compare_conf :
    (range : Order) (src dst : Dict)
    → IsRange range
    → IsMap src
    → length src ≡ length dst
    → Covers src dst
    → compare_conf range src dst ≡ true
unfolding compare_conf
Covers-compare_conf range src dst r u n c = ground (
  arith,
  compare_loop_complete (range src) dst (r.range-IsMap src u)
      (λ k v e. c k v (sym (r.lookup-range src u k) ∙ e)),
)

-- For two Go maps, and in whatever order the loop runs, `compareConf` returns true exactly when the
-- maps have the same value, or none, at every key.
pub compare_conf_iff :
    (range : Order) (src dst : Dict)
    → IsRange range
    → IsMap src
    → IsMap dst
    → (compare_conf range src dst ≡ true) ↔ SameMap src dst
unfolding compare_conf
compare_conf_iff range src dst r u w = (same, equal)
  where
    same : compare_conf range src dst ≡ true → SameMap src dst
    same h = record {
      at =
          let (n, c) = compare_conf-Covers range src dst r u h in
          lookup-eq_of_Covers src dst u w n c;
    }

    equal : SameMap src dst → compare_conf range src dst ≡ true
    equal s = ground (
      arith,
      length-eq_of_lookup-eq src dst u w s.at,
      compare_loop_complete (range src) dst (r.range-IsMap src u)
          (λ k v e. sym (s.at k) ∙ sym (r.lookup-range src u k) ∙ e),
    )
