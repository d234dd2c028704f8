-- ===== src/Api/Registration.antt =====
-- api/v1alpha1/groupversion_info.go and register.go: the group and version of the types, and names
-- of resources and kinds under them. `WithResource` and `WithKind` are the constructors here.
use kyuubi_operator.Base.{String}

pub record GroupVersion : Type 0 where
  pub group : String
  pub version : String

pub record GroupVersionResource : Type 0 where
  pub group_version : GroupVersion
  pub resource : String

pub record GroupVersionKind : Type 0 where
  pub group_version : GroupVersion
  pub kind : String

pub record GroupResource : Type 0 where
  pub group : String
  pub resource : String

abbrev pub group_version : GroupVersion
group_version = record { group = "kyuubi.nineinfra.tech"; version = "v1alpha1" }

abbrev pub scheme_group_version : GroupVersion
scheme_group_version = group_version

-- `Resource`
unfoldable pub resource : String → GroupResource
resource name = record { group = scheme_group_version.group; resource = name }
