-- ===== src/Status/Mapping.antt =====
-- agent/api/task/status/statusmapping.go, and how the two maps fit together.
use amazon_ecs_agent.Common.{◌≤◌, ◌≡◌, ◌⊎◌, arith, ◌==◌, ◌&&◌, if◌then◌else◌}
use amazon_ecs_agent.Status.ContainerStatus.{
  ContainerStatus, container_status_none, container_created, container_running,
  container_resources_provisioned, container_stopped,
}
use amazon_ecs_agent.Status.TaskStatus.{
  TaskStatus, task_status_none, task_created, task_running, task_stopped,
}

-- The `switch` takes its cases in order, so a steady state of NONE or of CREATED is decided by
-- the case that comes first.
unfoldable pub map_container_to_task_status : ContainerStatus → ContainerStatus → TaskStatus
map_container_to_task_status known_state steady_state =
    if known_state == container_status_none
    then task_status_none
    else if known_state == steady_state
    then task_running
    else if known_state == container_created
    then task_created
    else if known_state == container_stopped
    then task_stopped
    else if known_state == container_running && steady_state == container_resources_provisioned
    then task_created
    else task_status_none

unfoldable pub map_task_to_container_status : TaskStatus → ContainerStatus → ContainerStatus
map_task_to_container_status desired_state steady_state =
    if desired_state == task_status_none
    then container_status_none
    else if desired_state == task_created
    then container_created
    else if desired_state == task_running
    then steady_state
    else if desired_state == task_stopped
    then container_stopped
    else container_status_none

-- For a steady state of RUNNING or RESOURCES_PROVISIONED, a task status NONE, CREATED, RUNNING or
-- STOPPED that is mapped to a container status is mapped back to itself.
pub map_container_to_task_status-map_task_to_container_status :
    (desired_state : TaskStatus) (steady_state : ContainerStatus)
    → (desired_state ≡ task_status_none)
      ⊎ ((task_created ≤ desired_state) × (desired_state ≤ task_stopped))
    → container_running ≤ steady_state
    → steady_state ≤ container_resources_provisioned
    → map_container_to_task_status
        (map_task_to_container_status desired_state steady_state)
        steady_state
      ≡ desired_state
unfolding map_container_to_task_status map_task_to_container_status
map_container_to_task_status-map_task_to_container_status t s h lo hi = ground arith

-- A container that moves on, up to its steady state of CREATED, RUNNING or RESOURCES_PROVISIONED or
-- to STOPPED, never moves its task's status back.
pub map_container_to_task_status_mono :
    (earlier later steady_state : ContainerStatus)
    → earlier ≤ later
    → container_created ≤ steady_state
    → steady_state ≤ container_resources_provisioned
    → (later ≤ steady_state) ⊎ (later ≡ container_stopped)
    → (earlier ≤ steady_state) ⊎ (earlier ≡ container_stopped)
    → map_container_to_task_status earlier steady_state
      ≤ map_container_to_task_status later steady_state
unfolding map_container_to_task_status
map_container_to_task_status_mono a b s h lo hi hb ha = ground arith

-- A task's desired status asks more of its containers the further on it is.
pub map_task_to_container_status_mono :
    (earlier later : TaskStatus) (steady_state : ContainerStatus)
    → earlier ≤ later
    → later ≤ task_stopped
    → (earlier ≡ task_status_none) ⊎ (task_created ≤ earlier)
    → container_created ≤ steady_state
    → steady_state ≤ container_resources_provisioned
    → map_task_to_container_status earlier steady_state
      ≤ map_task_to_container_status later steady_state
unfolding map_task_to_container_status
map_task_to_container_status_mono a b s h hb ha lo hi = ground arith
