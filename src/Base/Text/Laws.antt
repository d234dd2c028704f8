-- ===== src/Base/Text/Laws.antt =====
-- Telling texts apart by a character, and `split` on a text of known pieces.
use Prim.Native.Char.{Char, code}
use text.Mathlib.TextLemmas.{cons-append, nil-append}
use kyuubi_operator.Base.{
  List, arith, ℕ, zero, suc, ◌≡◌, ◌≢◌, refl, ap, String, ◌<>◌, Option, none, some, [], ◌∷◌,
}
use kyuubi_operator.Base.Text.{cons_head, split}

-- The code of the character at a position.
abbrev pub nth : ℕ → String → Option ℕ
nth i String.[] = none
nth zero (String.◌∷◌ c s) = some (code c)
nth (suc i) (String.◌∷◌ c s) = nth i s

pub nth-append : (i : ℕ) (s t : String) {c : ℕ} → nth i s ≡ some c → nth i (s <> t) ≡ some c
nth-append i String.[] t h = cc
nth-append zero (String.◌∷◌ c s) t h = rw cons-append h
nth-append (suc i) (String.◌∷◌ c s) t h = rw cons-append (nth-append i s t h)

pub ne_of_nth :
    (i : ℕ) {s t : String} {c d : ℕ} → nth i s ≡ some c → nth i t ≡ some d → c ≢ d → s ≢ t
ne_of_nth i h k n e = n (cc (ap (nth i) e))

-- The code of the last character, or `d`.
abbrev pub last_or : ℕ → String → ℕ
last_or d String.[] = d
last_or d (String.◌∷◌ c s) = last_or (code c) s

pub last_or-append : (d : ℕ) (s t : String) → last_or d (s <> t) ≡ last_or (last_or d s) t
last_or-append d String.[] t = rw nil-append
last_or-append d (String.◌∷◌ c s) t = rw cons-append (last_or-append (code c) s t)

-- The separator does not occur.
abbrev pub Lacks : ℕ → String → Type 0
Lacks sep String.[] = Unit
Lacks sep (String.◌∷◌ c s) = (code c ≢ sep) × Lacks sep s

pub Lacks-append : (sep : ℕ) (s t : String) → Lacks sep s → Lacks sep t → Lacks sep (s <> t)
Lacks-append sep String.[] t h g = rw nil-append g
Lacks-append sep (String.◌∷◌ c s) t (n, h) g = rw cons-append (n, Lacks-append sep s t h g)

pub split_lacking : (sep : ℕ) (s : String) → Lacks sep s → split sep s ≡ s ∷ []
unfolding split
split_lacking sep String.[] h = refl
split_lacking sep (String.◌∷◌ c s) (n, h) = ground (arith, split_lacking sep s h)

split-cons :
    (sep : ℕ) (c : Char) (s : String) (pieces : List String)
    → split sep s ≡ pieces
    → (code c ≡ sep → split sep (String.◌∷◌ c s) ≡ "" ∷ pieces)
      × (code c ≢ sep → split sep (String.◌∷◌ c s) ≡ cons_head c pieces)
unfolding split
split-cons sep c s pieces e = (λ h. ground arith, λ h. ground arith)

pub split-append :
    (sep : ℕ) (c : Char) (s t : String)
    → code c ≡ sep
    → Lacks sep s
    → split sep (s <> (String.◌∷◌ c t)) ≡ s ∷ split sep t
split-append sep c String.[] t e h = rw nil-append ((split-cons sep c t (split sep t) refl).0 e)
split-append sep c (String.◌∷◌ b s) t e (n, h) =
    rw cons-append ((split-cons sep b _ _ (split-append sep c s t e h)).1 n)
