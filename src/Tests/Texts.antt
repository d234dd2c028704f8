-- ===== src/Tests/Texts.antt =====
-- Texts that are printed and read back.
use native.Mathlib.Decide.{ℕ_discrete}
use kyuubi_operator.Controller.Utils.Pieces.{read_xml}
use kyuubi_operator.Base.{All, String, ◌≡◌, refl, List, [], ◌∷◌, arith, string_discrete}
use kyuubi_operator.Controller.Utils.Elements.{
  IsPlainText, has_text, is_one_of, KeepsElements, read_xml-map2_xml,
}
use kyuubi_operator.Base.Dict.{lookup}
use kyuubi_operator.Controller.Utils.{map2_xml}
use kyuubi_operator.Controller.Utils.XmlText.{forged, map2_xml-forged}
use kyuubi_operator.Tests.{in_order, in_order-IsRange, library}

abbrev two_settings : List (String × String)
two_settings = ("a", "1") ∷ ("b", "2 3") ∷ []

library-KeepsElements : KeepsElements library
library-KeepsElements = record { at = λ entries h. refl }

two_settings-IsPlainText : All IsPlainText two_settings
unfolding has_text is_one_of ℕ_discrete
two_settings-IsPlainText = (
  record {
    is_text = record { key_lacks = omega arith; value_lacks = omega arith };
    key_lacks_gt = omega arith;
    value_lacks_gt = omega arith;
    key_has_text = refl;
    value_has_text = refl;
  },
  (
    record {
      is_text = record { key_lacks = omega arith; value_lacks = omega arith };
      key_lacks_gt = omega arith;
      value_lacks_gt = omega arith;
      key_has_text = refl;
      value_has_text = refl;
    },
    tt,
  ),
)

read_xml-map2_xml_example :
    (read_xml (map2_xml library in_order two_settings) ≡ two_settings)
    × ((k : String)
        → lookup k (read_xml (map2_xml library in_order two_settings)) ≡ lookup k two_settings)
unfolding lookup string_discrete
read_xml-map2_xml_example =
    read_xml-map2_xml library in_order two_settings library-KeepsElements in_order-IsRange
      (refl, (refl, tt)) two_settings-IsPlainText

map2_xml-forged_example :
    map2_xml library in_order (("a", forged "1" "b" "2") ∷ [])
    ≡ map2_xml library in_order (("a", "1") ∷ ("b", "2") ∷ [])
map2_xml-forged_example = map2_xml-forged library in_order "a" "1" "b" "2" refl refl
