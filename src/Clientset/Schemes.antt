-- ===== src/Clientset/Schemes.antt =====
-- client/clientset/versioned/scheme/register.go and client/clientset/versioned/fake/register.go: the
-- schemes of the two clientsets. The codecs point to their scheme, and so read it as `init` leaves it.
use kyuubi_operator.Base.{Option, none, some, List, [], ◌∷◌}
use kyuubi_operator.Api.Registration.{GroupVersion}
use kyuubi_operator.Api.Schemes.{add_to_scheme}
use kyuubi_operator.K8s.Client.{Error}
use kyuubi_operator.K8s.Schemes.{Filler, SchemeLibrary}
use kyuubi_operator.Clientset.Machinery.{Panicking, returns, panics}

-- `utilruntime.Must`
abbrev pub must : {A : Type 0} → Option Error × A → Panicking A
must (none, a) = returns a
must (some e, a) = panics

-- `schema.GroupVersion{Version: "v1"}`
abbrev pub core_version : GroupVersion
core_version = record { group = ""; version = "v1" }

module _ (S : SchemeLibrary) where
  -- `localSchemeBuilder` of both packages.
  unfoldable pub local_scheme_builder : List (Filler S.Scheme)
  local_scheme_builder = add_to_scheme S ∷ []

  -- The scheme after `init`, which is the same in both packages, or a panic.
  unfoldable pub filled_scheme : Panicking S.Scheme
  unfolding local_scheme_builder
  filled_scheme =
      must (S.list_fills local_scheme_builder (S.add_to_group_version core_version S.new_scheme))

  -- The variables of the package `scheme`.
  pub record SchemePackage : Type 0 where
    pub scheme : S.Scheme
    pub codecs : S.CodecFactory
    pub parameter_codec : S.ParameterCodec

  unfoldable pub scheme_package : Panicking SchemePackage
  unfolding filled_scheme
  scheme_package = elim filled_scheme [
    | panics ↦ panics
    | returns s ↦ returns (record {
      scheme = s;
      codecs = S.new_codec_factory s;
      parameter_codec = S.new_parameter_codec s;
    })
  ]

  -- Those of the package `fake`.
  pub record FakeSchemePackage : Type 0 where
    pub scheme : S.Scheme
    pub codecs : S.CodecFactory

  unfoldable pub fake_scheme_package : Panicking FakeSchemePackage
  unfolding filled_scheme
  fake_scheme_package = elim filled_scheme [
    | panics ↦ panics
    | returns s ↦ returns (record { scheme = s; codecs = S.new_codec_factory s })
  ]
