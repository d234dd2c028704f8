-- ===== src/DeepCopy/Copier.antt =====
-- Copies of types that are put together from others.
use kyuubi_operator.Base.{ℕ, ◌≡◌, Option, some, List}
use kyuubi_operator.Base.Dict.{Order, IsRange}
use kyuubi_operator.DeepCopy.Heap.{Heap, Foreign, pure}
use kyuubi_operator.DeepCopy.Shape.{
  along-IsLocal, IsLocal, pair-IsLocal, Shape, Copies, plain, pair, along, copy_pair, plain-IsLocal,
  plain-Copies, pair-Copies, along-Copies,
}
use kyuubi_operator.DeepCopy.References.{dict_shape, dict_shape-IsLocal, copy_dict-Copies}
use kyuubi_operator.DeepCopy.Slices.{copy_slice-Copies, slice_shape-IsLocal, slice_shape}
use kyuubi_operator.DeepCopy.{copy_slice, Cell, Alloc, ForeignCopies, copy_dict}

module _ (F : Foreign) where
  -- A shape that depends on its own memory only, and a method that copies it.
  pub record IsCopier {T V : Type 0} (S : Shape F T V) (copy : T → Alloc F T) : Type 0 where
    pub local : IsLocal F S
    pub copies : Copies F S copy

  pub plain-IsCopier : (T : Type 0) → IsCopier (plain F T) (pure F)
  plain-IsCopier T = record { local = plain-IsLocal F T; copies = plain-Copies F T }

  pub pair-IsCopier :
      {T V U W : Type 0} {S : Shape F T V} {R : Shape F U W} {c : T → Alloc F T} {d : U → Alloc F U}
      → IsCopier S c
      → IsCopier R d
      → IsCopier (pair F S R) (copy_pair F c d)
  pair-IsCopier {S} {R} {c} {d} s r = record {
    local = pair-IsLocal F S R s.local r.local;
    copies = pair-Copies F S R c d s.local r.local s.copies r.copies;
  }

  pub along-IsCopier :
      {T U V : Type 0} {S : Shape F U V} {c : U → Alloc F U} (f : T → U) (d : T → Alloc F T)
      → IsCopier S c
      → ((x : T) (h : Heap F) → c (f x) h ≡ (f (d x h).0, (d x h).1))
      → IsCopier (along F f S) d
  along-IsCopier {S} {c} f d s e = record {
    local = along-IsLocal F f S s.local;
    copies = along-Copies F f S c d e s.copies;
  }

  pub slice-IsCopier :
      {T V : Type 0} {S : Shape F T V} {c : T → Alloc F T} (G : ForeignCopies F)
      (ranges : ℕ → Order) (wrap : List T → Cell F) (slice_at : Option (Cell F) → List T)
      → ((xs : List T) → slice_at (some (wrap xs)) ≡ xs)
      → IsCopier S c
      → IsCopier (slice_shape F slice_at S) (copy_slice G ranges wrap slice_at c)
  slice-IsCopier {S} {c} G ranges wrap slice_at e s = record {
    local = slice_shape-IsLocal F G ranges S s.local slice_at;
    copies = copy_slice-Copies F G ranges S s.local wrap slice_at e c s.copies;
  }

  pub dict-IsCopier :
      (G : ForeignCopies F) (ranges : ℕ → Order)
      → ((a : ℕ) → IsRange (ranges a))
      → IsCopier (dict_shape F) (copy_dict G ranges)
  dict-IsCopier G ranges q = record {
    local = dict_shape-IsLocal F;
    copies = copy_dict-Copies F G ranges q;
  }
