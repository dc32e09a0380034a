-- ===== src/Task/Update.antt =====
-- agent/api/task/task.go: how a task's statuses follow from its containers', and theirs and its
-- resources' desired statuses from its own. `now` is the time at which a new known status is set.
use amazon_ecs_agent.Common.{
  Bool, ◌&&◌, ◌||◌, ◌==◌, ◌/=◌, ltb, if◌then◌else◌, Option, none, some, List, [], ◌∷◌, map, any,
}
use amazon_ecs_agent.Status.ContainerStatus.{ContainerStatus, container_stopped, container_zombie}
use amazon_ecs_agent.Status.TaskStatus.{
  TaskStatus, task_status_none, task_running, task_stopped, task_zombie,
}
use amazon_ecs_agent.Status.Mapping.{map_container_to_task_status, map_task_to_container_status}
use amazon_ecs_agent.Container
use amazon_ecs_agent.Container.{
  Container, Time, get_steady_state_status, is_known_steady_state, known_terminal, desired_terminal,
}
use amazon_ecs_agent.Resource
use amazon_ecs_agent.Resource.{TaskResource, steady_state, terminal_status}
use amazon_ecs_agent.Task.Types.{Task, set_known_status}

-- The loop of `updateTaskKnownStatus`: the first container with the least known status.
unfoldable pub earliest_container :
    ContainerStatus → Option Container → List Container → Option Container
earliest_container earliest found [] = found
earliest_container earliest found (c ∷ cs) =
    let earlier = ltb c.known_status earliest in
    earliest_container (if earlier then c.known_status else earliest)
      (if earlier then some c else found) cs

unfoldable pub essential_container_stopped : List Container → Bool
unfolding any
essential_container_stopped = any (λ c. c.known_status == container_stopped && c.essential)

abbrev pub task_status_of : Container → TaskStatus
task_status_of c = map_container_to_task_status c.known_status (get_steady_state_status c)

-- The loop of `getEarliestKnownTaskStatusForContainers`.
unfoldable pub least_task_status : TaskStatus → List Container → TaskStatus
least_task_status earliest [] = earliest
least_task_status earliest (c ∷ cs) =
    least_task_status (if ltb (task_status_of c) earliest then task_status_of c else earliest) cs

unfoldable pub get_earliest_known_task_status : List Container → TaskStatus
get_earliest_known_task_status [] = task_status_none
get_earliest_known_task_status (c ∷ cs) = least_task_status task_zombie (c ∷ cs)

unfoldable pub update_task_known_status : Time → Task → Task × TaskStatus
unfolding set_known_status
update_task_known_status now task =
    elim (earliest_container container_zombie none task.containers) [
      | none ↦ (task, task_status_none)
      | some c ↦
          if is_known_steady_state c && essential_container_stopped task.containers
          then (task, task_status_none)
          else if ltb task.known_status (get_earliest_known_task_status task.containers)
          then (
            set_known_status now (get_earliest_known_task_status task.containers) task,
            get_earliest_known_task_status task.containers,
          )
          else (task, task_status_none)
    ]

unfoldable pub essential_container_terminal : List Container → Bool
unfolding any
essential_container_terminal = any (λ c. c.essential && (known_terminal c || desired_terminal c))

unfoldable pub update_task_desired_status : Task → Task
update_task_desired_status task =
    if essential_container_terminal task.containers
    then record task { desired_status = task_stopped }
    else task

unfoldable pub raise_container : TaskStatus → Container → Container
unfolding Container.set_desired_status
raise_container desired c =
    let goal = map_task_to_container_status desired (get_steady_state_status c) in
    if ltb c.desired_status goal then Container.set_desired_status goal c else c

unfoldable pub update_container_desired_status : TaskStatus → List Container → List Container
update_container_desired_status desired = map (raise_container desired)

unfoldable pub raise_resource : TaskStatus → TaskResource → TaskResource
unfolding Resource.set_desired_status
raise_resource desired r =
    if desired == task_running
    then if ltb r.desired_status (steady_state r)
      then Resource.set_desired_status (steady_state r) r
      else r
    else if ltb r.desired_status (terminal_status r)
    then Resource.set_desired_status (terminal_status r) r
    else r

unfoldable pub update_resource_desired_status : TaskStatus → List TaskResource → List TaskResource
update_resource_desired_status desired = map (raise_resource desired)

unfoldable pub update_desired_status : Task → Task
update_desired_status task =
    let t = update_task_desired_status task in
    record t {
      containers = update_container_desired_status t.desired_status t.containers;
      resources = update_resource_desired_status t.desired_status t.resources;
    }

-- The Boolean tells whether the known status changed.
unfoldable pub update_status : Time → Task → Task × Bool
update_status now task =
    let (t, change) = update_task_known_status now task in
    (update_desired_status t, change /= task_status_none)
