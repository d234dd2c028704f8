-- ===== src/Main/Endings.antt =====
-- How sequences of steps end.
use kyuubi_operator.Base.{
  ℕ, String, ◌≡◌, refl, sym, ap, ap₂, subst, ◌≢◌, ◌⊎◌, inl, inr, true, false, Option, none, some,
  arith, ◌==◌, Option-cases,
}
use kyuubi_operator.K8s.Client.{Error}
use kyuubi_operator.Main.{
  Ending, goes_on, exits, panics, Process, ◌>>=◌, or_exit, must, exit_on, panic_on, exit_unless,
  value_or_exit, value_or_code, continue,
}

module _ {W : Type 0} (IsCode : ℕ → Type 0) (P : W → Type 0) where
  -- The process has ended by an exit or in a panic, where `P` holds.
  pub record HasHalted {A : Type 0} (r : Ending A × W) : Type 0 where
    pub halts : ((n : ℕ) × IsCode n × (r.0 ≡ exits n)) ⊎ (r.0 ≡ panics)
    pub idle : P r.1

  -- A piece that has halted, or has gone on.
  abbrev pub Ended : {A : Type 0} → Ending A × W → Type 0
  Ended {A} r = HasHalted r ⊎ ((a : A) × (w' : W) × (r ≡ (goes_on a, w')) × P w')

  -- A piece that ends by what a call answers.
  answer-Ended :
      {A B : Type 0} (f : B → Ending A) (b : B) (w' : W)
      → P w'
      → ((a : A) × (f b ≡ goes_on a)) ⊎ (((n : ℕ) × IsCode n × (f b ≡ exits n)) ⊎ (f b ≡ panics))
      → Ended (f b, w')
  answer-Ended f b w' p (inl (a, e)) = inr (a, w', ap (λ x. (x, w')) e, p)
  answer-Ended f b w' p (inr h) = inl (record { halts = h; idle = p })

  pub or_exit-Ended :
      (call : W → Option Error × W) (w : W) → IsCode 1 → P (call w).1 → Ended (or_exit call w)
  or_exit-Ended call w one p =
      answer-Ended exit_on (call w).0 (call w).1 p (elim (Option-cases (call w).0) [
        | inl e ↦ inl (tt, rw e refl)
        | inr (x, e) ↦ inr (inl (1, one, rw e refl))
      ])

  pub must-Ended : (call : W → Option Error × W) (w : W) → P (call w).1 → Ended (must call w)
  must-Ended call w p =
      answer-Ended panic_on (call w).0 (call w).1 p (elim (Option-cases (call w).0) [
        | inl e ↦ inl (tt, rw e refl)
        | inr (x, e) ↦ inr (inr (rw e refl))
      ])

  pub exit_unless-Ended :
      {A : Type 0} (o : Option A) (w : W) → IsCode 1 → P w → Ended (exit_unless o, w)
  exit_unless-Ended none w one p = answer-Ended exit_unless none w p (inr (inl (1, one, refl)))
  exit_unless-Ended (some a) w one p = answer-Ended exit_unless (some a) w p (inl (a, refl))

  pub value_or_exit-Ended :
      {A : Type 0} (o : A ⊎ Error) (w : W) → IsCode 1 → P w → Ended (value_or_exit o, w)
  value_or_exit-Ended (inl a) w one p = answer-Ended value_or_exit (inl a) w p (inl (a, refl))
  value_or_exit-Ended (inr e) w one p =
      answer-Ended value_or_exit (inr e) w p (inr (inl (1, one, refl)))

  pub value_or_code-Ended :
      {A : Type 0} (o : A ⊎ ℕ) (w : W)
      → ((n : ℕ) → o ≡ inr n → IsCode n)
      → P w
      → Ended (value_or_code o, w)
  value_or_code-Ended (inl a) w code p = answer-Ended value_or_code (inl a) w p (inl (a, refl))
  value_or_code-Ended (inr n) w code p =
      answer-Ended value_or_code (inr n) w p (inr (inl (n, code n refl, refl)))

  -- A piece that has halted ends the sequence.
  continue-HasHalted :
      {A B : Type 0} (f : A → Process W B) (r : Ending A) (w : W)
      → ((n : ℕ) × IsCode n × (r ≡ exits n)) ⊎ (r ≡ panics)
      → P w
      → HasHalted (continue r f w)
  continue-HasHalted f r w (inl (n, c, e)) p = rw e (record { halts = inl (n, c, refl); idle = p })
  continue-HasHalted f r w (inr e) p = rw e (record { halts = inr refl; idle = p })

  pub >>=-HasHalted :
      {A B : Type 0} (X : Ending B × W → Type 0) (m : Process W A) (f : A → Process W B) (w : W)
      → Ended (m w)
      → ((a : A) (w' : W) → m w ≡ (goes_on a, w') → P w' → HasHalted (f a w') ⊎ X (f a w'))
      → HasHalted ((m >>= f) w) ⊎ X ((m >>= f) w)
  >>=-HasHalted X m f w (inr (a, w', e, p)) next =
      subst (λ r. HasHalted (continue r.0 f r.1) ⊎ X (continue r.0 f r.1)) (sym e) (next a w' e p)
  >>=-HasHalted X m f w (inl h) next = inl (continue-HasHalted f (m w).0 (m w).1 h.halts h.idle)

pub is_same : (s t : String) → s ≡ t → (s == t) ≡ true
is_same s t e = ground (arith, e)

pub is_other : (s t : String) → s ≢ t → (s == t) ≡ false
is_other s t n = ground (arith, n)

exit_on-none : (o : Option Error) {u : Unit {0}} → exit_on o ≡ goes_on u → o ≡ none
exit_on-none none e = refl
exit_on-none (some x) e = cc e

pub or_exit-none :
    {W : Type 0} (call : W → Option Error × W) (w w' : W) {u : Unit {0}}
    → or_exit call w ≡ (goes_on u, w')
    → call w ≡ (none, w')
or_exit-none call w w' e =
    ap₂ (λ a b. (a, b)) (exit_on-none (call w).0 (ap (λ r. r.0) e)) (ap (λ r. r.1) e)
