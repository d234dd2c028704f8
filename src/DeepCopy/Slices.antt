-- ===== src/DeepCopy/Slices.antt =====
-- Copies of slices.
use kyuubi_operator.Base.{
  ℕ, suc, ◌≤◌, ◌<◌, ◌≡◌, refl, ap, ap₂, ◌∙◌, Option, none, some, List, [], ◌∷◌, map, arith, All,
}
use mathlib.Core.Option
use kyuubi_operator.Base.Dict.{Order}
use kyuubi_operator.DeepCopy.References.{fill_below, fill_here, fill_above}
use kyuubi_operator.DeepCopy.Heap.{Foreign, Address, Cell, Heap, Alloc, fill}
use kyuubi_operator.DeepCopy.Shape.{Agrees, Shape, IsLocal, Copied, Copies, Copied-Copied}
use kyuubi_operator.DeepCopy.{ForeignCopies, copy_loop, copy_slice}

module _ (F : Foreign) where
  abbrev pub list_shape : {T V : Type 0} → Shape F T V → Shape F (List T) (List V)
  list_shape S = record {
    value = λ h xs. map (S.value h) xs;
    Within = λ lo hi h xs. All (S.Within lo hi h) xs;
  }

  abbrev pub slice_shape :
      {T V : Type 0} → (Option (Cell F) → List T) → Shape F T V → Shape F Address (Option (List V))
  slice_shape slice_at S = record {
    value = λ h p. Option.map (λ a. map (S.value h) (slice_at (h.cells a))) p;
    Within = λ lo hi h p. elim p [
      | none ↦ Unit {0}
      | some a ↦ (lo ≤ a) × (a < hi) × All (S.Within lo hi h) (slice_at (h.cells a))
    ];
  }

  module _ (G : ForeignCopies F) (ranges : ℕ → Order) where
    module _ {T V : Type 0} (S : Shape F T V) (s : IsLocal F S) where
      pub list_shape-IsLocal : IsLocal F (list_shape S)
      list_shape-IsLocal = record { value_local = list_value; Within_local = list_within }
        where
          list_value :
              (lo hi : ℕ) (h h' : Heap F) (xs : List T)
              → All (S.Within lo hi h) xs
              → Agrees F lo hi h h'
              → map (S.value h') xs ≡ map (S.value h) xs
          list_value lo hi h h' [] w a = refl
          list_value lo hi h h' (x ∷ xs) (w, ws) a =
              ap₂ (λ y ys. y ∷ ys) (s.value_local lo hi h h' x w a) (list_value lo hi h h' xs ws a)

          list_within :
              (lo hi lo' hi' : ℕ) (h h' : Heap F) (xs : List T)
              → All (S.Within lo hi h) xs
              → Agrees F lo hi h h'
              → lo' ≤ lo
              → hi ≤ hi'
              → All (S.Within lo' hi' h') xs
          list_within lo hi lo' hi' h h' [] w a q r = tt
          list_within lo hi lo' hi' h h' (x ∷ xs) (w, ws) a q r = (
            s.Within_local lo hi lo' hi' h h' x w a q r,
            list_within lo hi lo' hi' h h' xs ws a q r,
          )

      loop-Copied :
          (copy : T → Alloc F T) (xs : List T) (h : Heap F)
          → Copies F S copy
          → All (S.Within 0 h.next h) xs
          → Copied F
              (list_shape S)
              xs
              h
              (copy_loop G ranges copy xs h).0
              (copy_loop G ranges copy xs h).1
      unfolding copy_loop
      loop-Copied copy [] h c w = record {
        same = refl;
        fresh = tt;
        grows = omega arith;
        frame = λ a l u. refl;
      }
      loop-Copied copy (x ∷ xs) h c (w, ws) =
          let h1 = (copy x h).1 in
          let ys = copy_loop G ranges copy xs h1 in
          let r =
            Copied-Copied F S (list_shape S) x (copy x h).0 xs ys.0 h h1 ys.1 s list_shape-IsLocal
              ws (c.copied x h w) (λ v. loop-Copied copy xs h1 c v) in
          record {
            same = ap (λ o. o.0 ∷ o.1) r.same;
            fresh = r.fresh;
            grows = r.grows;
            frame = r.frame;
          }

      module _ (wrap : List T → Cell F) (slice_at : Option (Cell F) → List T)
          (wraps : (xs : List T) → slice_at (some (wrap xs)) ≡ xs) where
        slice-Copied :
            (copy : T → Alloc F T) (x : Address) (h : Heap F)
            → Copies F S copy
            → (slice_shape slice_at S).Within 0 h.next h x
            → Copied F
                (slice_shape slice_at S)
                x
                h
                (copy_slice G ranges wrap slice_at copy x h).0
                (copy_slice G ranges wrap slice_at copy x h).1
        unfolding copy_slice
        slice-Copied copy none h c w = record {
          same = refl;
          fresh = tt;
          grows = omega arith;
          frame = λ a l u. refl;
        }
        slice-Copied copy (some p) h c (l, u, ws) =
            let L = list_shape S in
            let K = list_shape-IsLocal in
            let a = h.next in
            let h1 : Heap F = record { cells = fill F a (wrap []) h.cells; next = suc a } in
            let old = slice_at (h.cells p) in
            let ys = (copy_loop G ranges copy old h1).0 in
            let h2 = (copy_loop G ranges copy old h1).1 in
            let h3 : Heap F = record { cells = fill F a (wrap ys) h2.cells; next = h2.next } in
            let start : Agrees F 0 a h h1 = λ b m v. fill_below F a (wrap []) h.cells b v in
            let r =
              loop-Copied copy old h1 c
                (K.Within_local 0 a 0 (suc a) h h1 old ws start (omega arith) (omega arith)) in
            let upper : Agrees F (suc a) h2.next h2 h3 =
              λ b m v. fill_above F a (wrap ys) h2.cells b (omega (arith, m)) in
            let here : slice_at (h3.cells a) ≡ ys =
              ap slice_at (fill_here F a (wrap ys) h2.cells) ∙ wraps ys in
            record {
              same =
                  ap (λ xs. some (map (S.value h3) xs)) here
                  ∙ ap some (
                      K.value_local (suc a) h2.next h2 h3 ys r.fresh upper
                      ∙ r.same
                      ∙ K.value_local 0 a h h1 old ws start);
              fresh = (
                omega arith,
                omega (arith, r.grows),
                rw here (
                    K.Within_local (suc a) h2.next a h2.next h2 h3 ys r.fresh upper (omega arith)
                      (omega arith)),
              );
              grows = omega (arith, r.grows);
              frame = λ b m v.
                  fill_below F a (wrap ys) h2.cells b v
                  ∙ r.frame b m (omega (arith, v))
                  ∙ fill_below F a (wrap []) h.cells b v;
            }

        -- The copy of a slice, from the copy of its elements.
        pub copy_slice-Copies :
            (copy : T → Alloc F T)
            → Copies F S copy
            → Copies F (slice_shape slice_at S) (copy_slice G ranges wrap slice_at copy)
        copy_slice-Copies copy c = record { copied = λ x h w. slice-Copied copy x h c w }

      pub slice_shape-IsLocal :
          (slice_at : Option (Cell F) → List T) → IsLocal F (slice_shape slice_at S)
      slice_shape-IsLocal slice_at = record {
        value_local = slice_value;
        Within_local = slice_within;
      }
        where
          slice_value :
              (lo hi : ℕ) (h h' : Heap F) (x : Address)
              → (slice_shape slice_at S).Within lo hi h x
              → Agrees F lo hi h h'
              → (slice_shape slice_at S).value h' x ≡ (slice_shape slice_at S).value h x
          slice_value lo hi h h' none w a = refl
          slice_value lo hi h h' (some p) (l, u, ws) a =
              ap (λ c. some (map (S.value h') (slice_at c))) (a p l u)
              ∙ ap some (list_shape-IsLocal.value_local lo hi h h' (slice_at (h.cells p)) ws a)

          slice_within :
              (lo hi lo' hi' : ℕ) (h h' : Heap F) (x : Address)
              → (slice_shape slice_at S).Within lo hi h x
              → Agrees F lo hi h h'
              → lo' ≤ lo
              → hi ≤ hi'
              → (slice_shape slice_at S).Within lo' hi' h' x
          slice_within lo hi lo' hi' h h' none w a q r = tt
          slice_within lo hi lo' hi' h h' (some p) (l, u, ws) a q r = (
            omega (arith, l, q),
            omega (arith, u, r),
            rw (a p l u) (
                list_shape-IsLocal.Within_local lo hi lo' hi' h h' (slice_at (h.cells p)) ws a q r),
          )
