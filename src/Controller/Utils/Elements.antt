-- ===== src/Controller/Utils/Elements.antt =====
-- Reading back what map2Xml prints.
use kyuubi_operator.Base.{
  ℕ, Bool, true, false, if◌then◌else◌, sym, String, ◌<>◌, ◌≡◌, refl, ap, ◌∙◌, List, [], ◌∷◌, arith,
  All,
}
use Prim.Native.Char.{code}
use native.Mathlib.Decide.{ℕ_discrete}
use mathlib.Core.Logic.{ite}
use text.Mathlib.TextLemmas.{nil-append, append_assoc}
use kyuubi_operator.Base.Text.{split}
use kyuubi_operator.Base.Text.Laws.{Lacks}
use kyuubi_operator.Base.Dict.{Dict, Order, lookup, IsMap, IsRange}
use kyuubi_operator.K8s.Client.{Library}
use kyuubi_operator.Controller.Utils.XmlText.{entry_of, xml_loop-append, xml_loop-cons}
use kyuubi_operator.Controller.Utils.{xml_loop, map2_xml}
use kyuubi_operator.Controller.Utils.Pieces.{
  strip, read_pieces, read_xml, IsText, split_piece, read_other, read_entries,
}

-- A text that markup and the formatting leave as it is: it has neither `<` nor `>`, and is not white
-- space alone.
unfoldable pub is_one_of : List ℕ → ℕ → Bool
is_one_of [] n = false
is_one_of (m ∷ ms) n = let rest = is_one_of ms n in ite (ℕ_discrete n m) true rest

unfoldable pub has_text : String → Bool
unfolding is_one_of
has_text String.[] = false
has_text (String.◌∷◌ c s) =
    let rest = has_text s in
    if is_one_of (9 ∷ 10 ∷ 11 ∷ 12 ∷ 13 ∷ 32 ∷ []) (code c) then rest else true

pub record IsPlainText (entry : String × String) : Type 0 where
  pub is_text : IsText entry
  pub key_lacks_gt : Lacks b'>' entry.0
  pub value_lacks_gt : Lacks b'>' entry.1
  pub key_has_text : has_text entry.0 ≡ true
  pub value_has_text : has_text entry.1 ≡ true

-- The file that has the given entries, before it is formatted.
unfoldable pub properties_text : List (String × String) → String
properties_text [] = "</configuration>"
properties_text ((k, v) ∷ rest) = entry_of k v (properties_text rest)

-- `FormatXML` changes the white space between a `>` and a `<`. So it keeps the elements of a file with
-- entries that are not white space alone.
pub record KeepsElements (L : Library) : Type 0 where
  pub at :
      (entries : List (String × String))
      → All IsPlainText entries
      → let text = "<configuration>" <> properties_text entries in
        read_xml (L.format_xml text "" "  ") ≡ read_xml text

xml_loop-eq-properties_text :
    (es : List (String × String)) → xml_loop "" es <> "</configuration>" ≡ properties_text es
unfolding properties_text xml_loop
xml_loop-eq-properties_text [] = nil-append "</configuration>"
xml_loop-eq-properties_text ((k, v) ∷ rest) =
    xml_loop-cons k v "</configuration>" rest ∙ ap (entry_of k v) (xml_loop-eq-properties_text rest)

document_text :
    (es : List (String × String))
    → xml_loop "<configuration>" es <> "</configuration>" ≡ "<configuration>" <> properties_text es
document_text es =
    ap (λ t. t <> "</configuration>") (xml_loop-append "<configuration>" es)
    ∙ append_assoc "<configuration>" (xml_loop "" es) "</configuration>"
    ∙ ap (λ t. "<configuration>" <> t) (xml_loop-eq-properties_text es)

texts : (es : List (String × String)) → All IsPlainText es → All IsText es
texts [] h = tt
texts (e ∷ es) (p, h) = (p.is_text, texts es h)

read_document :
    (es : List (String × String))
    → All IsText es
    → read_xml ("<configuration>" <> properties_text es) ≡ es
unfolding read_xml strip ℕ_discrete
read_document es h =
    let e : "<configuration>" <> properties_text es
        ≡ "" <> ("<" <> ("configuration>" <> (xml_loop "" es <> "</configuration>"))) =
      ap (λ t. "<configuration>" <> t) (sym (xml_loop-eq-properties_text es)) ∙ opened _ in
    ap read_xml e
    ∙ ap (read_pieces "")
        (split_piece "" ("configuration>" <> (xml_loop "" es <> "</configuration>")) tt)
    ∙ read_other "" "" (split b'<' ("configuration>" <> (xml_loop "" es <> "</configuration>")))
        refl refl
    ∙ read_entries "" "configuration>" es (omega arith) refl refl h
  where
    opened : (t : String) → "<configuration>" <> t ≡ "" <> ("<" <> ("configuration>" <> t))
    opened t =
        let e : ("" <> ("<" <> "configuration>")) <> t ≡ "" <> ("<" <> ("configuration>" <> t)) =
          simp append_assoc in
        e

-- For every map whose keys and values have neither `<` nor `>` and are not white space alone, and in
-- whatever order the loop runs, a reader of the configuration file gets back from the text of map2Xml
-- the entries that the loop has visited, in that order, and so the value at every key of the map, if
-- the formatting keeps the elements of such files.
pub read_xml-map2_xml :
    (L : Library) (range : Order) (kv : Dict)
    → KeepsElements L
    → IsRange range
    → IsMap kv
    → All IsPlainText (range kv)
    → (read_xml (map2_xml L range kv) ≡ range kv)
      × ((k : String) → lookup k (read_xml (map2_xml L range kv)) ≡ lookup k kv)
unfolding map2_xml
read_xml-map2_xml L range kv keeps q m h =
    let r : read_xml (map2_xml L range kv) ≡ range kv =
      ap (λ t. read_xml (L.format_xml t "" "  ")) (document_text (range kv))
      ∙ keeps.at (range kv) h
      ∙ read_document (range kv) (texts (range kv) h) in
    (r, λ k. ap (lookup k) r ∙ q.lookup-range kv m k)
