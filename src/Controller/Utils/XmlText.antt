-- ===== src/Controller/Utils/XmlText.antt =====
-- The text that map2Xml makes before it is formatted.
use kyuubi_operator.Base.{String, ◌<>◌, ◌≡◌, sym, ap, ◌∙◌, List, [], ◌∷◌}
use text.Mathlib.TextLemmas.{nil-append, append_assoc, append-nil}
use kyuubi_operator.Base.Dict.{Order}
use kyuubi_operator.K8s.Client.{Library}
use kyuubi_operator.Controller.Utils.{xml_loop, map2_xml}

-- The text of one entry, before what follows it.
abbrev pub entry_of : String → String → String → String
entry_of k v t =
    "<property>\n\t<name>" <> (k <> ("</name>\n\t<value>" <> (v <> ("</value>\n</property>" <> t))))

pub xml_loop-append :
    (res : String) (entries : List (String × String))
    → xml_loop res entries ≡ res <> xml_loop "" entries
unfolding xml_loop
xml_loop-append res [] = sym (append-nil res)
xml_loop-append res ((k, v) ∷ rest) =
    let l =
      "<property>\n\t<name>" <> (k <> ("</name>\n\t<value>" <> (v <> "</value>\n</property>"))) in
    xml_loop-append (res <> l) rest
    ∙ append_assoc res l (xml_loop "" rest)
    ∙ ap (λ t. res <> t)
        (ap (λ m. m <> xml_loop "" rest) (sym (nil-append l))
          ∙ sym (xml_loop-append ("" <> l) rest))

pub xml_loop-cons :
    (k v t : String) (rest : List (String × String))
    → xml_loop "" ((k, v) ∷ rest) <> t ≡ entry_of k v (xml_loop "" rest <> t)
unfolding xml_loop
xml_loop-cons k v t rest =
    let l =
      "<property>\n\t<name>" <> (k <> ("</name>\n\t<value>" <> (v <> "</value>\n</property>"))) in
    ap (λ m. m <> t) (xml_loop-append ("" <> l) rest) ∙ simp (append_assoc, nil-append)

-- A value that goes on like the text of an entry.
abbrev pub forged : String → String → String → String
forged v k' v' =
    v <> ("</value>\n</property><property>\n\t<name>" <> (k' <> ("</name>\n\t<value>" <> v')))

same_text :
    (k v k' v' : String)
    → xml_loop "<configuration>" ((k, forged v k' v') ∷ [])
      ≡ xml_loop "<configuration>" ((k, v) ∷ (k', v') ∷ [])
unfolding xml_loop
same_text k v k' v' =
    let e : "<configuration>"
          <> ("<property>\n\t<name>"
              <> (k
                  <> ("</name>\n\t<value>"
                      <> ((v
                            <> (("</value>\n</property>" <> "<property>\n\t<name>")
                                <> (k' <> ("</name>\n\t<value>" <> v'))))
                          <> "</value>\n</property>"))))
        ≡ xml_loop "<configuration>" ((k, v) ∷ (k', v') ∷ []) =
      simp append_assoc in
    e

-- `map2Xml` does not escape markup: for any two settings, one setting whose value goes on like the text
-- of an entry prints as both do, so that a value can bring in a setting under any other key. The loop
-- visits both maps in the order of their entries.
pub map2_xml-forged :
    (L : Library) (range : Order) (k v k' v' : String)
    → range ((k, forged v k' v') ∷ []) ≡ (k, forged v k' v') ∷ []
    → range ((k, v) ∷ (k', v') ∷ []) ≡ (k, v) ∷ (k', v') ∷ []
    → map2_xml L range ((k, forged v k' v') ∷ []) ≡ map2_xml L range ((k, v) ∷ (k', v') ∷ [])
unfolding map2_xml
map2_xml-forged L range k v k' v' e e' =
    ap (λ r. L.format_xml (xml_loop "<configuration>" r <> "</configuration>") "" "  ") e
    ∙ ap (λ t. L.format_xml (t <> "</configuration>") "" "  ") (same_text k v k' v')
    ∙ ap (λ r. L.format_xml (xml_loop "<configuration>" r <> "</configuration>") "" "  ") (sym e')
