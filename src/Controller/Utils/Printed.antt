-- ===== src/Controller/Utils/Printed.antt =====
-- Reading back what map2String prints.
use kyuubi_operator.Base.{
  String, ◌<>◌, ◌≡◌, refl, sym, ap, ap₂, ◌∙◌, ◌≢◌, Option, none, some, List, [], ◌∷◌, arith, All,
}
use Prim.Native.Char.{Char, code}
use native.Mathlib.Decide.{ℕ_discrete}
use mathlib.Core.Logic.{ite}
use text.Mathlib.TextLemmas.{cons-append, nil-append, append_assoc, append-nil}
use kyuubi_operator.Base.Text.{split}
use kyuubi_operator.Base.Text.Laws.{Lacks, Lacks-append, split-append}
use kyuubi_operator.Base.Dict.{Dict, Order, lookup, IsMap, IsRange}
use kyuubi_operator.Controller.Utils.{string_loop, map2_string}

abbrev pub in_key : Char → Option (String × String) → Option (String × String)
in_key c none = none
in_key c (some (k, v)) = some (String.◌∷◌ c k, v)

-- A line of a properties file: the key up to the first `=`, and the value after it.
unfoldable pub read_line : String → Option (String × String)
read_line String.[] = none
read_line (String.◌∷◌ c s) =
    let rest = read_line s in ite (ℕ_discrete (code c) b'=') (some ("", s)) (in_key c rest)

-- The entries of the lines that have one.
abbrev pub with_entry : Option (String × String) → Dict → Dict
with_entry none d = d
with_entry (some e) d = e ∷ d

unfoldable pub read_lines : List String → Dict
read_lines [] = []
read_lines (line ∷ lines) = with_entry (read_line line) (read_lines lines)

-- A properties file.
unfoldable pub read_properties : String → Dict
unfolding read_lines read_line
read_properties text = read_lines (split b'\n' text)

-- An entry that fits on one line, with a key without `=`.
pub record IsPrintable (entry : String × String) : Type 0 where
  pub key_lacks_eq : Lacks b'=' entry.0
  pub key_lacks_newline : Lacks b'\n' entry.0
  pub value_lacks_newline : Lacks b'\n' entry.1

read_line-cons :
    (c : Char) (s : String)
    → (code c ≡ b'=' → read_line (String.◌∷◌ c s) ≡ some ("", s))
      × (code c ≢ b'=' → read_line (String.◌∷◌ c s) ≡ in_key c (read_line s))
unfolding read_line
read_line-cons c s = (λ h. ground arith, λ h. ground arith)

read_line-append : (k v : String) → Lacks b'=' k → read_line (k <> ("=" <> v)) ≡ some (k, v)
read_line-append String.[] v h =
    rw nil-append (rw cons-append (rw nil-append ((read_line-cons "=" v).0 refl)))
read_line-append (String.◌∷◌ c k) v (n, h) =
    rw cons-append
      ((read_line-cons c (k <> ("=" <> v))).1 n ∙ ap (in_key c) (read_line-append k v h))

-- The text of one entry.
abbrev line_of : String → String → String
line_of k v = k <> ("=" <> v)

string_loop-append :
    (sb : String) (entries : List (String × String))
    → string_loop sb entries ≡ sb <> string_loop "" entries
unfolding string_loop
string_loop-append sb [] = sym (append-nil sb)
string_loop-append sb ((k, v) ∷ rest) =
    let l = k <> ("=" <> (v <> "\n")) in
    string_loop-append (sb <> l) rest
    ∙ append_assoc sb l (string_loop "" rest)
    ∙ ap (λ t. sb <> t)
        (ap (λ m. m <> string_loop "" rest) (sym (nil-append l))
          ∙ sym (string_loop-append ("" <> l) rest))

string_loop-cons :
    (k v : String) (rest : List (String × String))
    → string_loop "" ((k, v) ∷ rest) ≡ line_of k v <> ("\n" <> string_loop "" rest)
unfolding string_loop
string_loop-cons k v rest =
    let t = string_loop "" rest in
    string_loop-append ("" <> (k <> ("=" <> (v <> "\n")))) rest
    ∙ ap (λ m. m <> t) (nil-append (k <> ("=" <> (v <> "\n"))))
    ∙ append_assoc k ("=" <> (v <> "\n")) t
    ∙ ap (λ m. k <> m)
        (append_assoc "=" (v <> "\n") t
          ∙ ap (λ m. "=" <> m) (append_assoc v "\n" t)
          ∙ sym (append_assoc "=" v ("\n" <> t)))
    ∙ sym (append_assoc k ("=" <> v) ("\n" <> t))

read_properties-string_loop :
    (entries : List (String × String))
    → All IsPrintable entries
    → read_properties (string_loop "" entries) ≡ entries
unfolding read_properties read_lines read_line split string_loop
read_properties-string_loop [] h = refl
read_properties-string_loop ((k, v) ∷ rest) (p, h) =
    let t = string_loop "" rest in
    let line = line_of k v in
    let single =
      Lacks-append b'\n' k ("=" <> v) p.key_lacks_newline
        (Lacks-append b'\n' "=" v (λ e. omega (arith, e), tt) p.value_lacks_newline) in
    ap read_properties (string_loop-cons k v rest)
    ∙ ap (λ m. read_properties (line <> m))
        (cons-append "\n" "" t ∙ ap (λ m. String.◌∷◌ "\n" m) (nil-append t))
    ∙ ap read_lines (split-append b'\n' "\n" line t refl single)
    ∙ ap₂ with_entry (read_line-append k v p.key_lacks_eq) (read_properties-string_loop rest h)

-- For every map with entries that fit on a line each, and in whatever order the loop runs, a reader
-- of properties files gets back from the text of map2String the entries that the loop has visited,
-- in that order, and so the value at every key of the map.
pub read_properties-map2_string :
    (range : Order) (kv : Dict)
    → IsRange range
    → IsMap kv
    → All IsPrintable (range kv)
    → (read_properties (map2_string range kv) ≡ range kv)
      × ((k : String) → lookup k (read_properties (map2_string range kv)) ≡ lookup k kv)
unfolding map2_string
read_properties-map2_string range kv q m h =
    let e = read_properties-string_loop (range kv) h in
    (e, λ k. ap (lookup k) e ∙ q.lookup-range kv m k)
