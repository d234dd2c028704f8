-- ===== src/DeepCopy/References.antt =====
-- Writes to the heap, and copies of maps.
use kyuubi_operator.Base.{ℕ, ◌≤◌, ◌<◌, String, ◌≡◌, refl, ap, ◌∙◌, Option, none, some, [], arith}
use mathlib.Core.Path.{fun_ext}
use mathlib.Core.Option
use kyuubi_operator.Base.Dict.Laws.{lookup-assign_all, assign_all-IsMap}
use native.Mathlib.Decide.{ℕ_discrete}
use kyuubi_operator.Base.Dict.{Dict, Order, lookup, IsMap, IsRange, assign_all}
use kyuubi_operator.DeepCopy.Heap.{Foreign, Address, Cell, Heap, dict_at, fill}
use kyuubi_operator.DeepCopy.Shape.{Agrees, Shape, IsLocal, Copied, Copies}
use kyuubi_operator.DeepCopy.{ForeignCopies, copy_dict}

module _ (F : Foreign) where
  -- An address from `lo` to `hi`.
  abbrev pub Between : ℕ → ℕ → ℕ → Type 0
  Between lo hi a = (lo ≤ a) × (a < hi)

  abbrev pub dict_shape : Shape F Address (Option (String → Option String))
  dict_shape = record {
    value = λ h p. Option.map (λ a. λ k. lookup k (dict_at F (h.cells a))) p;
    Within = λ lo hi h p. elim p [
      | none ↦ Unit {0}
      | some a ↦ (lo ≤ a) × (a < hi) × IsMap (dict_at F (h.cells a))
    ];
  }

  pub dict_shape-IsLocal : IsLocal F dict_shape
  dict_shape-IsLocal = record { value_local = dict_value; Within_local = dict_within }
    where
      dict_value :
          (lo hi : ℕ) (h h' : Heap F) (x : Address)
          → dict_shape.Within lo hi h x
          → Agrees F lo hi h h'
          → dict_shape.value h' x ≡ dict_shape.value h x
      dict_value lo hi h h' none w a = refl
      dict_value lo hi h h' (some p) (l, u, m) a =
          ap (λ c. some (λ k. lookup k (dict_at F c))) (a p l u)

      dict_within :
          (lo hi lo' hi' : ℕ) (h h' : Heap F) (x : Address)
          → dict_shape.Within lo hi h x
          → Agrees F lo hi h h'
          → lo' ≤ lo
          → hi ≤ hi'
          → dict_shape.Within lo' hi' h' x
      dict_within lo hi lo' hi' h h' none w a q r = tt
      dict_within lo hi lo' hi' h h' (some p) (l, u, m) a q r =
          (omega (arith, l, q), omega (arith, u, r), rw (a p l u) m)

  -- A write at a free address is not seen below.
  pub fill_below :
      (a : ℕ) (c : Cell F) (cells : ℕ → Option (Cell F)) (b : ℕ)
      → b < a
      → fill F a c cells b ≡ cells b
  unfolding ℕ_discrete
  fill_below a c cells b l = ground arith

  pub fill_here : (a : ℕ) (c : Cell F) (cells : ℕ → Option (Cell F)) → fill F a c cells a ≡ some c
  unfolding ℕ_discrete
  fill_here a c cells = ground arith

  pub fill_above :
      (a : ℕ) (c : Cell F) (cells : ℕ → Option (Cell F)) (b : ℕ)
      → a < b
      → fill F a c cells b ≡ cells b
  unfolding ℕ_discrete
  fill_above a c cells b l = ground arith

  module _ (G : ForeignCopies F) (ranges : ℕ → Order) where
    same_lookup :
        (r : Order) (d : Dict)
        → IsRange r
        → IsMap d
        → (k : String) → lookup k (assign_all (r d) []) ≡ lookup k d
    unfolding lookup
    same_lookup r d q m k =
        ground (arith, lookup-assign_all k (r d) [] (q.range-IsMap d m), q.lookup-range d m k)

    -- A cell that is allocated and then written, while the cells between are left or allocated.
    written_below :
        (a : ℕ) (c d : Cell F) (cells : ℕ → Option (Cell F)) (b : ℕ)
        → b < a
        → fill F a c (fill F a d cells) b ≡ cells b
    written_below a c d cells b l = fill_below a c (fill F a d cells) b l ∙ fill_below a d cells b l

    dict-Copied :
        (x : Address) (h : Heap F)
        → ((a : ℕ) → IsRange (ranges a))
        → dict_shape.Within 0 h.next h x
        → Copied F dict_shape x h (copy_dict G ranges x h).0 (copy_dict G ranges x h).1
    unfolding copy_dict
    dict-Copied none h q w = record {
      same = refl;
      fresh = tt;
      grows = omega arith;
      frame = λ a l u. refl;
    }
    dict-Copied (some p) h q (l, u, m) =
        let a = h.next in
        let old = dict_at F (h.cells p) in
        let new = assign_all (ranges a old) [] in
        let cells = fill F a (Cell.dict []) h.cells in
        let here : fill F a (Cell.dict new) cells a ≡ some (Cell.dict new) =
          fill_here a (Cell.dict new) cells in
        record {
          same =
              ap (λ c. some (λ k. lookup k (dict_at F c))) here
              ∙ ap some (fun_ext (same_lookup (ranges a) old (q a) m));
          fresh = (omega arith, omega arith, rw here (assign_all-IsMap (ranges a old) [] tt));
          grows = omega arith;
          frame = λ b l' u'. written_below a (Cell.dict new) (Cell.dict []) h.cells b u';
        }

    -- The copy of a map.
    pub copy_dict-Copies : ((a : ℕ) → IsRange (ranges a)) → Copies F dict_shape (copy_dict G ranges)
    copy_dict-Copies q = record { copied = λ x h w. dict-Copied x h q w }
