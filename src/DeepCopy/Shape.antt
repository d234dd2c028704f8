-- ===== src/DeepCopy/Shape.antt =====
-- What a struct in memory means, where the memory that it refers to lies, and what makes a copy.
use kyuubi_operator.Base.{ℕ, ◌≤◌, ◌<◌, ◌≡◌, refl, ap₂, ◌∙◌, subst, arith}
use kyuubi_operator.DeepCopy.Heap.{Foreign, Heap, Alloc, pure, ◌>>=◌}

module _ (F : Foreign) where
  -- Two heaps have the same cells from `lo` to `hi`.
  abbrev pub Agrees : ℕ → ℕ → Heap F → Heap F → Type 0
  Agrees lo hi h h' = (a : ℕ) → lo ≤ a → a < hi → h'.cells a ≡ h.cells a

  -- A type in memory: its values, with maps as functions, and all that a value refers to, which is
  -- allocated, well formed and from `lo` to `hi`.
  pub record Shape (T V : Type 0) : Type 1 where
    pub value : Heap F → T → V
    pub Within : ℕ → ℕ → Heap F → T → Type 0

  -- The meaning depends on the memory referred to, and on nothing else.
  pub record IsLocal {T V : Type 0} (S : Shape T V) : Type 0 where
    pub value_local :
        (lo hi : ℕ) (h h' : Heap F) (x : T)
        → S.Within lo hi h x
        → Agrees lo hi h h'
        → S.value h' x ≡ S.value h x
    pub Within_local :
        (lo hi lo' hi' : ℕ) (h h' : Heap F) (x : T)
        → S.Within lo hi h x
        → Agrees lo hi h h'
        → lo' ≤ lo
        → hi ≤ hi'
        → S.Within lo' hi' h' x

  -- From `h` to `h'`, `x'` is a copy of `x`: it means the same, refers to memory that was free before
  -- and to no other, and all memory that was in use is as it was.
  pub record Copied {T V : Type 0} (S : Shape T V) (x : T) (h : Heap F) (x' : T) (h' : Heap F)
      : Type 0 where
    pub same : S.value h' x' ≡ S.value h x
    pub fresh : S.Within h.next h'.next h' x'
    pub grows : h.next ≤ h'.next
    pub frame : Agrees 0 h.next h h'

  pub record Copies {T V : Type 0} (S : Shape T V) (copy : T → Alloc F T) : Type 0 where
    pub copied :
        (x : T) (h : Heap F) → S.Within 0 h.next h x → Copied S x h (copy x h).0 (copy x h).1

  -- A type without memory of its own.
  abbrev pub plain : (T : Type 0) → Shape T T
  plain T = record { value = λ h x. x; Within = λ lo hi h x. Unit {0} }

  abbrev pub pair : {T V U W : Type 0} → Shape T V → Shape U W → Shape (T × U) (V × W)
  pair S R = record {
    value = λ h x. (S.value h x.0, R.value h x.1);
    Within = λ lo hi h x. S.Within lo hi h x.0 × R.Within lo hi h x.1;
  }

  -- A struct by its fields.
  abbrev pub along : {T U V : Type 0} → (T → U) → Shape U V → Shape T V
  along f S = record {
    value = λ h x. S.value h (f x);
    Within = λ lo hi h x. S.Within lo hi h (f x);
  }

  abbrev pub copy_pair :
      {T U : Type 0} → (T → Alloc F T) → (U → Alloc F U) → T × U → Alloc F (T × U)
  copy_pair c d x = do y ← c x.0; z ← d x.1; pure F (y, z)

  pub plain-IsLocal : (T : Type 0) → IsLocal (plain T)
  plain-IsLocal T = record {
    value_local = λ lo hi h h' x w a. refl;
    Within_local = λ lo hi lo' hi' h h' x w a p q. tt;
  }

  pub plain-Copies : (T : Type 0) → Copies (plain T) (pure F)
  plain-Copies T = record {
    copied =
        λ x h w. record { same = refl; fresh = tt; grows = omega arith; frame = λ a p q. refl };
  }

  module _ {T V U W : Type 0} (S : Shape T V) (R : Shape U W) where
    pub pair-IsLocal : IsLocal S → IsLocal R → IsLocal (pair S R)
    pair-IsLocal s r = record {
      value_local = λ lo hi h h' x (w, v) a.
          ap₂ (λ y z. (y, z)) (s.value_local lo hi h h' x.0 w a) (r.value_local lo hi h h' x.1 v a);
      Within_local = λ lo hi lo' hi' h h' x (w, v) a p q. (
        s.Within_local lo hi lo' hi' h h' x.0 w a p q,
        r.Within_local lo hi lo' hi' h h' x.1 v a p q,
      );
    }

    -- One copy after another.
    pub Copied-Copied :
        (x x' : T) (y y' : U) (h h1 h2 : Heap F)
        → IsLocal S
        → IsLocal R
        → R.Within 0 h.next h y
        → Copied S x h x' h1
        → (R.Within 0 h1.next h1 y → Copied R y h1 y' h2)
        → Copied (pair S R) (x, y) h (x', y') h2
    Copied-Copied x x' y y' h h1 h2 s r v c next =
        let d = next (r.Within_local 0 h.next 0 h1.next h h1 y v c.frame (omega arith) c.grows) in
        let upper : Agrees h.next h1.next h1 h2 = λ a p q. d.frame a (omega arith) q in
        record {
          same =
              ap₂ (λ y z. (y, z)) (s.value_local h.next h1.next h1 h2 x' c.fresh upper ∙ c.same)
                (d.same ∙ r.value_local 0 h.next h h1 y v c.frame);
          fresh = (
            s.Within_local h.next h1.next h.next h2.next h1 h2 x' c.fresh upper (omega arith)
                d.grows,
            r.Within_local h1.next h2.next h.next h2.next h2 h2 y' d.fresh (λ a p q. refl) c.grows
                (omega arith),
          );
          grows = omega (arith, c.grows, d.grows);
          frame = λ a p q. d.frame a p (omega (arith, q, c.grows)) ∙ c.frame a p q;
        }

    pub pair-Copies :
        (c : T → Alloc F T) (d : U → Alloc F U)
        → IsLocal S
        → IsLocal R
        → Copies S c
        → Copies R d
        → Copies (pair S R) (copy_pair c d)
    pair-Copies c d s r cc' dd = record {
      copied = λ x h (w, v).
          Copied-Copied x.0 _ x.1 _ h (c x.0 h).1 _ s r v (cc'.copied x.0 h w)
            (λ v'. dd.copied x.1 (c x.0 h).1 v');
    }

  module _ {T U V : Type 0} (f : T → U) (S : Shape U V) where
    pub along-IsLocal : IsLocal S → IsLocal (along f S)
    along-IsLocal s = record {
      value_local = λ lo hi h h' x w a. s.value_local lo hi h h' (f x) w a;
      Within_local =
          λ lo hi lo' hi' h h' x w a p q. s.Within_local lo hi lo' hi' h h' (f x) w a p q;
    }

    pub along-Copies :
        (c : U → Alloc F U) (d : T → Alloc F T)
        → ((x : T) (h : Heap F) → c (f x) h ≡ (f (d x h).0, (d x h).1))
        → Copies S c
        → Copies (along f S) d
    along-Copies c d e k = record {
      copied = λ x h w.
          let r : Copied S (f x) h (f (d x h).0) (d x h).1 =
            subst (λ o. Copied S (f x) h o.0 o.1) (e x h) (k.copied (f x) h w) in
          record { same = r.same; fresh = r.fresh; grows = r.grows; frame = r.frame };
    }
