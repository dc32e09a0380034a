-- ===== src/ManagedTask/ResourceEvents.antt =====
-- agent/engine/task_manager.go: the handler of changes of the task's resources.
use amazon_ecs_agent.Common.{
  ℕ, not, ◌==◌, leb, if◌then◌else◌, String, str_eq, Option, none, some, List, [], ◌∷◌,
}
use amazon_ecs_agent.Status.TaskStatus.{task_stopped}
use amazon_ecs_agent.Resource
use amazon_ecs_agent.Resource.{TaskResource, steady_state}
use amazon_ecs_agent.Task
use amazon_ecs_agent.Task.{
  Task, update_desired_status, update_status, record_execution_stopped_at, set_terminal_reason,
  set_stop_sequence_number,
}
use amazon_ecs_agent.ManagedTask.Types.{ManagedTask, save, ResourceStateChange, send, with_task}

unfoldable pub find_resource : String → List TaskResource → Option TaskResource
find_resource name [] = none
find_resource name (r ∷ rs) = if str_eq r.name name then some r else find_resource name rs

unfoldable pub set_resource_status : String → ℕ → List TaskResource → List TaskResource
set_resource_status name status [] = []
set_resource_status name status (r ∷ rs) =
    let rest = set_resource_status name status rs in
    if str_eq r.name name then Resource.set_known_status status r ∷ rs else r ∷ rest

abbrev pub set_resources : (List TaskResource → List TaskResource) → Task → Task
set_resources f t = record t { resources = f t.resources }

abbrev pub resource_change : ResourceStateChange → Option TaskResource → ManagedTask → ManagedTask
resource_change change none m = m
resource_change change (some r) m =
    if leb change.next_state r.known_status
    then m
    else if not change.failed
    then send save
        (with_task (set_resources (set_resource_status change.resource change.next_state)) m)
    else if change.next_state == steady_state r
    then send save (
        with_task
          (λ t. set_terminal_reason r.terminal_reason (Task.set_desired_status task_stopped t)) m)
    else m

-- The names of a task's resources differ, so the pointer in the message is the resource that has
-- its name.
unfoldable pub handle_resource_state_change : ResourceStateChange → ManagedTask → ManagedTask
unfolding find_resource set_resource_status
handle_resource_state_change change m =
    resource_change change (find_resource change.resource m.task.resources) m
