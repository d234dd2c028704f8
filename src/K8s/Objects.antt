-- ===== src/K8s/Objects.antt =====
-- The Kubernetes objects, with the fields that the operator sets or reads. `others` stands for the
-- fields, at any depth, that it never names: they are unset in what it builds, and an object that
-- comes from the API server may have them.
use kyuubi_operator.Base.{ℕ, String, Option, List}
use kyuubi_operator.Base.Dict.{Dict}

pub record NamespacedName : Type 0 where
  pub namespace : String
  pub name : String

pub record ObjectMeta : Type 0 where
  pub name : String
  pub namespace : String
  pub labels : Dict
  pub owner_references : List String
  pub others : Dict

pub record ServiceAccount : Type 0 where
  pub meta : ObjectMeta

pub record PolicyRule : Type 0 where
  pub api_groups : List String
  pub resources : List String
  pub verbs : List String

pub record Role : Type 0 where
  pub meta : ObjectMeta
  pub rules : List PolicyRule

pub record Subject : Type 0 where
  pub kind : String
  pub name : String

pub record RoleRef : Type 0 where
  pub api_group : String
  pub kind : String
  pub name : String

pub record RoleBinding : Type 0 where
  pub meta : ObjectMeta
  pub subjects : List Subject
  pub role_ref : RoleRef

pub record ConfigMap : Type 0 where
  pub meta : ObjectMeta
  pub contents : Option Dict

pub record KeyToPath : Type 0 where
  pub key : String
  pub path : String

-- A volume whose source is a config map, `config_map` being its name.
pub record Volume : Type 0 where
  pub name : String
  pub config_map : String
  pub items : List KeyToPath

pub record VolumeMount : Type 0 where
  pub name : String
  pub mount_path : String
  pub sub_path : String

pub record ContainerPort : Type 0 where
  pub name : String
  pub container_port : ℕ

pub record EnvVar : Type 0 where
  pub name : String
  pub field_path : String

pub record Probe : Type 0 where
  pub command : List String
  pub initial_delay_seconds : ℕ
  pub period_seconds : ℕ
  pub timeout_seconds : ℕ
  pub failure_threshold : ℕ
  pub success_threshold : ℕ

pub record Container : Type 0 where
  pub name : String
  pub image : String
  pub image_pull_policy : String
  pub ports : List ContainerPort
  pub env : List EnvVar
  pub liveness_probe : Probe
  pub readiness_probe : Probe
  pub volume_mounts : List VolumeMount

pub record PodSpec : Type 0 where
  pub containers : List Container
  pub restart_policy : String
  pub service_account_name : String
  pub volumes : List Volume

pub record PodTemplate : Type 0 where
  pub labels : Dict
  pub spec : PodSpec

pub record StatefulSetSpec : Type 0 where
  pub match_labels : Dict
  pub service_name : String
  pub replicas : Option ℕ
  pub template : PodTemplate
  pub others : Dict

pub record StatefulSet : Type 0 where
  pub meta : ObjectMeta
  pub spec : StatefulSetSpec

-- A target port, which is always a number here.
pub record ServicePort : Type 0 where
  pub name : String
  pub port : ℕ
  pub target_port : ℕ
  pub others : Dict

pub record ServiceSpec : Type 0 where
  pub type : String
  pub ports : List ServicePort
  pub selector : Dict

pub record Service : Type 0 where
  pub meta : ObjectMeta
  pub spec : ServiceSpec
