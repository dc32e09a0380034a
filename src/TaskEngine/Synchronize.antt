-- ===== src/TaskEngine/Synchronize.antt =====
-- agent/engine/docker_task_engine.go: a container after the agent was started again.
use amazon_ecs_agent.Common.{
  ltb, Bool, true, false, if◌then◌else◌, String, str_eq, Option, none, some,
}
use amazon_ecs_agent.Status.ContainerStatus.{ContainerStatus, container_stopped}
use amazon_ecs_agent.Container
use amazon_ecs_agent.Container.{Container, NamedError, Time, known_terminal}
use amazon_ecs_agent.Task.{Task, record_execution_stopped_at}
use amazon_ecs_agent.ManagedTask.{
  DockerContainerMetadata, update_container_metadata, new_named_error,
}

-- What `InspectContainer` finds under the container's name, and what `DescribeContainer` says of an id.
pub record FoundContainer : Type 0 where
  pub docker_id : String
  pub state : ContainerStatus
  pub metadata : DockerContainerMetadata

pub record Description : Type 0 where
  pub state : ContainerStatus
  pub metadata : DockerContainerMetadata
  pub error : Option NamedError

-- The call of the image manager.
pub data ReferenceCall : Type 0 where
  no_call reference_recorded reference_removed : ReferenceCall

-- `added` tells whether the container was added to the engine's state under its id.
pub record Synchronized : Type 0 where
  pub docker_id : String
  pub container : Container
  pub task : Task
  pub added : Bool
  pub reference : ReferenceCall

abbrev pub cannot_describe_container_error_name : String
cannot_describe_container_error_name = "CannotDescribeContainerError"

abbrev pub container_vanished_error : NamedError
container_vanished_error = record {
  error_name = "ContainerVanishedError";
  error = "No container matching saved ID found";
  cannot_stop = none;
}

-- A container without an id, which was created while the agent was down, if at all.
abbrev pub synchronize_named : Time → Option FoundContainer → Container → Task → Synchronized
synchronize_named now none c task = record {
  docker_id = "";
  container = c;
  task = task;
  added = false;
  reference = no_call;
}
synchronize_named now (some found) c task = record {
  docker_id = found.docker_id;
  container =
      Container.set_known_status found.state (update_container_metadata now found.metadata c);
  task = task;
  added = true;
  reference = reference_recorded;
}

-- The container and the call, before its known status is updated.
abbrev pub described_with_error :
    Time → DockerContainerMetadata → NamedError → Container → Container × ReferenceCall
described_with_error now metadata err c =
    if str_eq err.error_name cannot_describe_container_error_name
    then (if known_terminal c then (c, no_call) else (
      record c { applying_error = some (new_named_error container_vanished_error) },
      reference_removed,
    ))
    else (
      record (update_container_metadata now metadata c) {
        applying_error = some (new_named_error err);
      },
      no_call,
    )

abbrev pub described :
    Time → DockerContainerMetadata → Option NamedError → Container → Container × ReferenceCall
described now metadata none c = (update_container_metadata now metadata c, reference_recorded)
described now metadata (some err) c = described_with_error now metadata err c

abbrev pub current_state : ContainerStatus → Option NamedError → ContainerStatus
current_state state none = state
current_state state (some err) = container_stopped

abbrev pub raise_known_status : ContainerStatus → Container → Container
raise_known_status state c =
    if ltb c.known_status state then Container.set_known_status state c else c

-- `synchronizeContainerStatus`; the file with the container's metadata is left out.
unfoldable pub synchronize_container_status :
    Time → String → Option FoundContainer → Description → Container → Task → Synchronized
synchronize_container_status now docker_id found d c0 task =
    let (c1, call) = described now d.metadata d.error c0 in
    let c = raise_known_status (current_state d.state d.error) c1 in
    if str_eq docker_id "" then synchronize_named now found c0 task else record {
      docker_id = docker_id;
      container = c;
      task = record_execution_stopped_at now c task;
      added = false;
      reference = call;
    }
