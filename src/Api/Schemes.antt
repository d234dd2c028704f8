-- ===== src/Api/Schemes.antt =====
-- api/v1alpha1/groupversion_info.go and the end of kyuubicluster_types.go: the builder that puts the
-- types of the package into a scheme. `AddToScheme` is bound to the builder by a pointer, and so adds
-- what `init` has registered.
use kyuubi_operator.Base.{[], ◌∷◌}
use kyuubi_operator.Api.Registration.{group_version}
use kyuubi_operator.K8s.Schemes.{ApiType, Filler, SchemeLibrary}

module _ (S : SchemeLibrary) where
  -- `SchemeBuilder` before `init`.
  unfoldable pub new_scheme_builder : S.Builder
  new_scheme_builder = S.new_builder group_version

  -- `init`, which registers both types.
  unfoldable pub scheme_builder : S.Builder
  unfolding new_scheme_builder
  scheme_builder =
      S.register (ApiType.kyuubi_cluster ∷ ApiType.kyuubi_cluster_list ∷ []) new_scheme_builder

  -- `AddToScheme`
  unfoldable pub add_to_scheme : Filler S.Scheme
  unfolding scheme_builder
  add_to_scheme = S.builder_fills scheme_builder
