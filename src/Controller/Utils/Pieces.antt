-- ===== src/Controller/Utils/Pieces.antt =====
-- Reading a configuration file, element by element.
use kyuubi_operator.Base.{
  String, ◌<>◌, ◌≡◌, refl, ap, ◌∙◌, Option, none, some, List, [], ◌∷◌, arith, All,
}
use Prim.Native.Char.{code}
use native.Mathlib.Decide.{ℕ_discrete}
use mathlib.Core.Logic.{ite}
use text.Mathlib.TextLemmas.{cons-append, nil-append, append_assoc}
use kyuubi_operator.Base.Text.{split}
use kyuubi_operator.Base.Text.Laws.{Lacks, Lacks-append, split-append}
use kyuubi_operator.Base.Dict.{Dict}
use kyuubi_operator.Controller.Utils.XmlText.{entry_of, xml_loop-cons}
use kyuubi_operator.Controller.Utils.{xml_loop}

-- What follows a prefix.
unfoldable pub strip : String → String → Option String
strip String.[] s = some s
strip (String.◌∷◌ c p) String.[] = none
strip (String.◌∷◌ c p) (String.◌∷◌ d s) =
    let rest = strip p s in ite (ℕ_discrete (code c) (code d)) rest none

-- The entries of a text that has been split at each `<`: the texts of the elements `value`, each under
-- the text of the last element `name` before it.
unfoldable pub read_pieces : String → List String → Dict
read_pieces key [] = []
read_pieces key (p ∷ ps) = elim (strip "name>" p) [
  | some k ↦ read_pieces k ps
  | none ↦ elim (strip "value>" p) [
    | some v ↦ (key, v) ∷ read_pieces key ps
    | none ↦ read_pieces key ps
  ]
]

-- A configuration file. Entities are not decoded.
unfoldable pub read_xml : String → Dict
unfolding read_pieces strip
read_xml text = read_pieces "" (split b'<' text)

-- An entry without markup.
pub record IsText (entry : String × String) : Type 0 where
  pub key_lacks : Lacks b'<' entry.0
  pub value_lacks : Lacks b'<' entry.1

-- The pieces of an entry, with what stands before it and after it.
abbrev pieces_of : String → String → String → String → String
pieces_of before k v t =
    before
    <> ("<"
        <> ("property>\n\t"
            <> ("<"
                <> (("name>" <> k)
                    <> ("<"
                        <> ("/name>\n\t"
                            <> ("<"
                                <> (("value>" <> v)
                                    <> ("<"
                                        <> ("/value>\n" <> ("<" <> ("/property>" <> t))))))))))))

entry-eq-pieces : (before k v t : String) → before <> entry_of k v t ≡ pieces_of before k v t
entry-eq-pieces before k v t =
    let e : before
          <> (("<" <> ("property>\n\t" <> ("<" <> "name>")))
              <> (k
                  <> (("<" <> ("/name>\n\t" <> ("<" <> "value>")))
                      <> (v <> (("<" <> ("/value>\n" <> ("<" <> "/property>"))) <> t)))))
        ≡ pieces_of before k v t =
      simp append_assoc in
    e

pub split_piece : (s t : String) → Lacks b'<' s → split b'<' (s <> ("<" <> t)) ≡ s ∷ split b'<' t
split_piece s t h =
    ap (λ x. split b'<' (s <> x)) (cons-append "<" "" t ∙ ap (λ x. String.◌∷◌ "<" x) (nil-append t))
    ∙ split-append b'<' "<" s t refl h

split_entry :
    (before k v t : String)
    → Lacks b'<' before
    → IsText (k, v)
    → split b'<' (before <> entry_of k v t)
      ≡ before
        ∷ "property>\n\t"
        ∷ ("name>" <> k)
        ∷ "/name>\n\t"
        ∷ ("value>" <> v)
        ∷ "/value>\n"
        ∷ split b'<' ("/property>" <> t)
split_entry before k v t h p =
    ap (split b'<') (entry-eq-pieces before k v t)
    ∙ split_piece before _ h
    ∙ ap (λ r. before ∷ r)
        (split_piece "property>\n\t" _ (omega arith)
          ∙ ap (λ r. "property>\n\t" ∷ r)
              (split_piece ("name>" <> k) _ (Lacks-append b'<' "name>" k (omega arith) p.key_lacks)
                ∙ ap (λ r. ("name>" <> k) ∷ r)
                    (split_piece "/name>\n\t" _ (omega arith)
                      ∙ ap (λ r. "/name>\n\t" ∷ r)
                          (split_piece ("value>" <> v) _
                              (Lacks-append b'<' "value>" v (omega arith) p.value_lacks)
                            ∙ ap (λ r. ("value>" <> v) ∷ r)
                                (split_piece "/value>\n" _ (omega arith))))))

strip-append : (p s : String) → strip p (p <> s) ≡ some s
unfolding strip
strip-append String.[] s = rw nil-append
strip-append (String.◌∷◌ c p) s = rw cons-append (ground (arith, strip-append p s))

strip_value : (v : String) → strip "name>" ("value>" <> v) ≡ none
unfolding strip ℕ_discrete
strip_value v = ap (strip "name>") (cons-append "v" "alue>" v)

-- The three sorts of pieces.
pub read_other :
    (key p : String) (ps : List String)
    → strip "name>" p ≡ none
    → strip "value>" p ≡ none
    → read_pieces key (p ∷ ps) ≡ read_pieces key ps
unfolding read_pieces
read_other key p ps e e' = ground arith

read_name :
    (key p k : String) (ps : List String)
    → strip "name>" p ≡ some k
    → read_pieces key (p ∷ ps) ≡ read_pieces k ps
unfolding read_pieces
read_name key p k ps e = ground arith

read_value :
    (key p v : String) (ps : List String)
    → strip "name>" p ≡ none
    → strip "value>" p ≡ some v
    → read_pieces key (p ∷ ps) ≡ (key, v) ∷ read_pieces key ps
unfolding read_pieces
read_value key p v ps e e' = ground arith

-- An entry, after a piece that is neither a name nor a value.
read_entry :
    (key before k v t : String)
    → Lacks b'<' before
    → strip "name>" before ≡ none
    → strip "value>" before ≡ none
    → IsText (k, v)
    → read_pieces key (split b'<' (before <> entry_of k v t))
      ≡ (k, v) ∷ read_pieces k (split b'<' ("/property>" <> t))
unfolding strip ℕ_discrete
read_entry key before k v t h e e' p =
    ap (read_pieces key) (split_entry before k v t h p)
    ∙ read_other key before _ e e'
    ∙ read_other key "property>\n\t" _ refl refl
    ∙ read_name key ("name>" <> k) k _ (strip-append "name>" k)
    ∙ read_other k "/name>\n\t" _ refl refl
    ∙ read_value k ("value>" <> v) v _ (strip_value v) (strip-append "value>" v)
    ∙ ap (λ r. (k, v) ∷ r) (read_other k "/value>\n" _ refl refl)

pub read_entries :
    (key before : String) (entries : List (String × String))
    → Lacks b'<' before
    → strip "name>" before ≡ none
    → strip "value>" before ≡ none
    → All IsText entries
    → read_pieces key (split b'<' (before <> (xml_loop "" entries <> "</configuration>"))) ≡ entries
unfolding strip ℕ_discrete xml_loop read_pieces split
read_entries key before [] h e e' p =
    ap (read_pieces key) (split_piece before "/configuration>" h)
    ∙ read_other key before ("/configuration>" ∷ []) e e'
read_entries key before ((k, v) ∷ rest) h e e' (p, ps) =
    ap (λ t. read_pieces key (split b'<' (before <> t))) (xml_loop-cons k v "</configuration>" rest)
    ∙ read_entry key before k v (xml_loop "" rest <> "</configuration>") h e e' p
    ∙ ap (λ r. (k, v) ∷ r) (read_entries k "/property>" rest (omega arith) refl refl ps)
