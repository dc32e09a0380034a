-- ===== src/Container/Types.antt =====
-- agent/api/container/container.go, transitiondependency.go, containertype.go and
-- registryauth.go: the types, with the fields that the modelled code reads or writes. A pointer
-- that may be nil is an `Option`. Times and durations count nanoseconds; the zero time is 0.
use amazon_ecs_agent.Common.{ℕ, Bool, String, Option, List, ℤ}
use amazon_ecs_agent.Status.ContainerStatus.{ContainerStatus, ContainerHealthStatus}

abbrev pub Time : Type 0
Time = ℕ

abbrev pub ResourceStatus : Type 0
ResourceStatus = ℕ

pub data ContainerType : Type 0 where
  container_normal container_empty_host_volume container_cni_pause container_namespace_pause :
      ContainerType

-- An error with a name (`apierrors.NamedError`). `cannot_stop` is the result of `IsRetriableError`
-- where the error's dynamic type has that method (`cannotStopContainerError`).
pub record NamedError : Type 0 where
  pub error_name : String
  pub error : String
  pub cannot_stop : Option Bool

pub record HealthStatus : Type 0 where
  pub status : ContainerHealthStatus
  pub since : Option Time
  pub exit_code : ℤ
  pub output : String

pub record DependsOn : Type 0 where
  pub container_name : String
  pub condition : String

pub record VolumeFrom : Type 0 where
  pub source_container : String
  pub read_only : Bool

pub record Secret : Type 0 where
  pub name : String
  pub value_from : String
  pub region : String
  pub type : String
  pub provider : String
  pub target : String

pub record ContainerDependency : Type 0 where
  pub container_name : String
  pub satisfied_status : ContainerStatus
  pub dependent_status : ContainerStatus

pub record ResourceDependency : Type 0 where
  pub name : String
  pub required_status : ResourceStatus

pub record TransitionDependencySet : Type 0 where
  pub container_dependencies : List ContainerDependency
  pub resource_dependencies : List ResourceDependency

-- `ecr_use_execution_role` is `ECRAuthData.UseExecutionRole`, and `asm_auth_data` tells whether
-- `ASMAuthData` is there.
pub record RegistryAuthenticationData : Type 0 where
  pub type : String
  pub ecr_use_execution_role : Option Bool
  pub asm_auth_data : Bool

pub record Container : Type 0 where
  pub name : String
  pub depends_on : List DependsOn
  pub links : List String
  pub volumes_from : List VolumeFrom
  pub secrets : List Secret
  pub essential : Bool
  pub environment : Option (List (String × String))
  pub registry_authentication : Option RegistryAuthenticationData
  pub health_check_type : String
  pub health : HealthStatus
  pub start_timeout : ℕ  -- uint, in seconds
  pub stop_timeout : ℕ  -- uint, in seconds
  pub desired_status : ContainerStatus
  pub known_status : ContainerStatus
  pub transition_dependencies_map : List (ContainerStatus × TransitionDependencySet)
  pub steady_state_dependencies : List String
  pub type : ContainerType
  pub applied_status : ContainerStatus
  pub applying_error : Option NamedError
  pub sent_status : ContainerStatus
  pub known_exit_code : Option ℤ
  pub steady_state_status : Option ContainerStatus
  pub created_at : Time
  pub started_at : Time
  pub finished_at : Time
