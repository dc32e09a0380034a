-- ===== src/StateChange/Examples.antt =====
-- Events of a running task and its container.
use amazon_ecs_agent.Common.{◌<◌, ◌≡◌, refl, none, some, [], ◌∷◌}
use amazon_ecs_agent.Status.TaskStatus.{backend_recognized}
use amazon_ecs_agent.Status.ContainerStatus
use amazon_ecs_agent.Status.ContainerStatus.{should_report_to_backend}
use amazon_ecs_agent.Samples.{container, task}
use amazon_ecs_agent.Container.{Container, is_internal}
use amazon_ecs_agent.Task.{Task}
use amazon_ecs_agent.StateChange.{
  TaskStateChange, ContainerStateChange, new_task_state_change_event,
  new_container_state_change_event, text,
}
use amazon_ecs_agent.StateChange.Sent.{
  set_task_change_sent, new_task_state_change_event-set_task_change_sent,
}

abbrev running : Container
running = container "db" [] 3 3

abbrev running_task : Task
running_task = task (running ∷ []) 3 3

abbrev task_runs : TaskStateChange
task_runs = record {
  status = 3;
  reason = "";
  pull_started_at = none;
  pull_stopped_at = none;
  execution_stopped_at = none;
}

running_task_event : new_task_state_change_event running_task "" ≡ some task_runs
unfolding new_task_state_change_event backend_recognized
running_task_event = refl

new_task_state_change_event-set_task_change_sent_example :
    (running_task.sent_status < task_runs.status)
    × (task_runs.status ≡ running_task.known_status)
    × (new_task_state_change_event (set_task_change_sent task_runs running_task) "again" ≡ none)
new_task_state_change_event-set_task_change_sent_example =
    new_task_state_change_event-set_task_change_sent running_task "" "again" task_runs
      running_task_event

abbrev container_runs : ContainerStateChange
container_runs = record { container_name = "db"; status = 3; reason = text ""; exit_code = none }

running_event : new_container_state_change_event running "" ≡ some container_runs
unfolding new_container_state_change_event should_report_to_backend ContainerStatus.backend_status
    is_internal
running_event = refl
