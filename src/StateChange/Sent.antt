-- ===== src/StateChange/Sent.antt =====
-- agent/eventhandler/task_handler_types.go: what is recorded once an event was sent, and the
-- statuses that are sent.
use amazon_ecs_agent.Common.{◌<◌, ◌≡◌, arith, ltb, if◌then◌else◌, String, none, some}
use amazon_ecs_agent.Status.ContainerStatus
use amazon_ecs_agent.Status.ContainerStatus.{
  container_running, container_stopped, should_report_to_backend,
}
use amazon_ecs_agent.Container
use amazon_ecs_agent.Container.{Container, get_steady_state_status, is_internal}
use amazon_ecs_agent.Task
use amazon_ecs_agent.Task.{Task}
use amazon_ecs_agent.StateChange.{
  TaskStateChange, ContainerStateChange, new_task_state_change_event,
  new_container_state_change_event,
}

-- `setTaskChangeSent` for an event without container events.
unfoldable pub set_task_change_sent : TaskStateChange → Task → Task
set_task_change_sent event task =
    if ltb task.sent_status event.status then Task.set_sent_status event.status task else task

unfoldable pub set_container_change_sent : ContainerStateChange → Container → Container
set_container_change_sent event c =
    if ltb c.sent_status event.status then Container.set_sent_status event.status c else c

-- A task event carries the task's known status, which is further on than the status sent last, and
-- once it was sent there is no second event for that status.
pub new_task_state_change_event-set_task_change_sent :
    (task : Task) (reason again : String) (event : TaskStateChange)
    → new_task_state_change_event task reason ≡ some event
    → (task.sent_status < event.status)
      × (event.status ≡ task.known_status)
      × (new_task_state_change_event (set_task_change_sent event task) again ≡ none)
unfolding new_task_state_change_event set_task_change_sent Task.set_sent_status
new_task_state_change_event-set_task_change_sent task reason again event h = ground arith

-- An event of a container whose steady state is RUNNING tells that it runs or has stopped, and once
-- it was sent there is no second event for that status.
pub new_container_state_change_event-set_container_change_sent :
    (c : Container) (reason again : String) (event : ContainerStateChange)
    → get_steady_state_status c ≡ container_running
    → new_container_state_change_event c reason ≡ some event
    → (c.sent_status < event.status)
      × (event.status ≡ c.known_status)
      × (new_container_state_change_event (set_container_change_sent event c) again ≡ none)
unfolding new_container_state_change_event set_container_change_sent Container.set_sent_status
    should_report_to_backend ContainerStatus.backend_status is_internal
new_container_state_change_event-set_container_change_sent c reason again event s h = ground arith
