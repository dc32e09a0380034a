-- ===== src/ManagedTask/Types.antt =====
-- agent/engine/task_manager.go: the state of a `managedTask`, the messages it reads, and what it
-- sends. A pointer to a container is its position in the task's list; a pointer to another task's
-- container is a position past the end. Sends to channels, goroutines that are started and calls
-- out of the package are recorded in `outbox`, in their order.
use amazon_ecs_agent.Common.{ℕ, zero, suc, Bool, String, Option, none, some, List, [], ◌∷◌, ◌++◌, ℤ}
use amazon_ecs_agent.Status.ContainerStatus.{ContainerStatus}
use amazon_ecs_agent.Status.TaskStatus.{TaskStatus}
use amazon_ecs_agent.Container.{Container, HealthStatus, NamedError, ResourceStatus, Time}
use amazon_ecs_agent.StateChange.{ContainerStateChange, TaskStateChange}
use amazon_ecs_agent.Task.{Task}

-- `config.ImagePullBehaviorType`
pub data ImagePullBehavior : Type 0 where
  image_pull_default image_pull_always image_pull_once image_pull_prefer_cached : ImagePullBehavior

pub data Effect : Type 0 where
  task_event : TaskStateChange → Effect
  container_event : ContainerStateChange → Effect
  -- A write of the change to the stream that the telemetry client reads.
  telemetry_event : ℕ → ContainerStatus → Effect
  -- `go engine.transitionContainer(task, container, status)`
  transition_container : ℕ → ContainerStatus → Effect
  -- A goroutine that sends the task's own loop a container change.
  self_message : ℕ → ContainerStatus → Effect
  -- `go transitionResource(resource, status)`, and a message of a resource's new status.
  transition_resource : String → ResourceStatus → Effect
  resource_message : String → ResourceStatus → Effect
  -- `taskStopWG.Add(seqnum, 1)`
  stop_group_add : ℤ → Effect
  -- `saver.Save()`
  save : Effect

pub record DockerContainerMetadata : Type 0 where
  pub created_at : Time
  pub started_at : Time
  pub finished_at : Time
  pub exit_code : Option ℤ
  pub health : HealthStatus

pub record DockerContainerChange : Type 0 where
  pub container : ℕ
  pub status : ContainerStatus
  pub metadata : DockerContainerMetadata
  pub error : Option NamedError

pub record ResourceStateChange : Type 0 where
  pub resource : String
  pub next_state : ResourceStatus
  pub failed : Bool

pub record AcsTransition : Type 0 where
  pub seqnum : ℤ
  pub desired_status : TaskStatus

-- `unexpected_start` tells whether the `sync.Once` of that name has run.
pub record ManagedTask : Type 0 where
  pub task : Task
  pub unexpected_start : Bool
  pub image_pull_behavior : ImagePullBehavior
  pub outbox : List Effect

-- Containers by position.
abbrev pub get_elem? {ℓ} : {A : Type ℓ} → List A → ℕ → Option A
get_elem? [] i = none
get_elem? (x ∷ xs) zero = some x
get_elem? (x ∷ xs) (suc i) = get_elem? xs i

abbrev pub modify {ℓ} : {A : Type ℓ} → List A → ℕ → (A → A) → List A
modify [] i f = []
modify (x ∷ xs) zero f = f x ∷ xs
modify (x ∷ xs) (suc i) f = x ∷ modify xs i f

unfoldable pub send : Effect → ManagedTask → ManagedTask
send e m = record m { outbox = m.outbox ++ e ∷ [] }

unfoldable pub with_task : (Task → Task) → ManagedTask → ManagedTask
with_task f m = record m { task = f m.task }

unfoldable pub with_container : ℕ → (Container → Container) → ManagedTask → ManagedTask
with_container i f m =
    let task = m.task in record m { task = record task { containers = modify task.containers i f } }
