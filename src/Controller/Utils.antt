-- ===== src/Controller/Utils.antt =====
-- utils.go: comparing and printing configurations. Each function takes the order in which its loop
-- over a map runs. `int32Ptr` is `some`.
pub mod CompareConf
pub mod Printed
pub mod XmlText
pub mod Pieces
pub mod Elements
use kyuubi_operator.Base.{
  String, ◌<>◌, Bool, true, false, ◌==◌, if◌then◌else◌, Option, none, some, List, [], ◌∷◌, length,
}
use kyuubi_operator.Base.Dict.{Dict, Order, lookup}
use kyuubi_operator.K8s.Client.{Library}
use native.Mathlib.Decide.{ℕ_discrete}
use mathlib.Core.Logic.{ite}

-- One round of the loop of `compareConf`: `valueDst, ok := dstConf[key]; !ok || valueSrc != valueDst`.
differs : Option String → String → Bool
differs none value_src = true
differs (some value_dst) value_src = if value_src == value_dst then false else true

-- The loop of `compareConf`, over the entries of `srcConf` still to come.
pub compare_loop : List (String × String) → Dict → Bool
unfolding differs
compare_loop [] dst = true
compare_loop ((key, value) ∷ rest) dst =
    let more = compare_loop rest dst in if differs (lookup key dst) value then false else more

unfoldable pub compare_conf : Order → Dict → Dict → Bool
unfolding compare_loop
compare_conf range src dst =
    ite (ℕ_discrete (length src) (length dst)) (compare_loop (range src) dst) false

-- The loop of `map2String`, with what the builder holds.
pub string_loop : String → List (String × String) → String
string_loop sb [] = sb
string_loop sb ((key, value) ∷ rest) = string_loop (sb <> (key <> ("=" <> (value <> "\n")))) rest

unfoldable pub map2_string : Order → Dict → String
unfolding string_loop
map2_string range kv = string_loop "" (range kv)

-- The loop of `map2Xml`, with `res`.
pub xml_loop : String → List (String × String) → String
xml_loop res [] = res
xml_loop res ((key, value) ∷ rest) =
    xml_loop
      (res
        <> ("<property>\n\t<name>"
            <> (key <> ("</name>\n\t<value>" <> (value <> "</value>\n</property>")))))
      rest

unfoldable pub map2_xml : Library → Order → Dict → String
unfolding xml_loop
map2_xml L range properties =
    L.format_xml (xml_loop "<configuration>" (range properties) <> "</configuration>") "" "  "
