-- ===== src/K8s/Schemes.antt =====
-- The schemes of k8s.io/apimachinery and the builder of controller-runtime, as parameters: a scheme
-- knows the Go types of kinds. What fills a scheme may fail.
use kyuubi_operator.Base.{Option, List}
use kyuubi_operator.Api.Registration.{GroupVersion}
use kyuubi_operator.K8s.Client.{Error}

-- The objects that the package registers, by their Go types.
pub data ApiType : Type 0 where
  kyuubi_cluster kyuubi_cluster_list : ApiType

-- `AddToScheme` of a package.
abbrev pub Filler : Type 0 → Type 0
Filler Scheme = Scheme → Option Error × Scheme

-- `new_builder` makes a `scheme.Builder` of a group and version, `register` is its `Register`, and
-- `builder_fills` its `AddToScheme`; `list_fills` is `AddToScheme` of a `runtime.SchemeBuilder`.
pub record SchemeLibrary : Type 1 where
  pub Scheme : Type 0
  pub CodecFactory : Type 0
  pub ParameterCodec : Type 0
  pub Builder : Type 0
  pub new_scheme : Scheme
  pub new_codec_factory : Scheme → CodecFactory
  pub new_parameter_codec : Scheme → ParameterCodec
  pub add_to_group_version : GroupVersion → Scheme → Scheme
  pub new_builder : GroupVersion → Builder
  pub register : List ApiType → Builder → Builder
  pub builder_fills : Builder → Filler Scheme
  pub list_fills : List (Filler Scheme) → Filler Scheme
