-- ===== src/StateChange.antt =====
-- agent/api/statechange.go: the events that tell the backend of new statuses. An event that is not
-- to be sent is the constructor's error, here `none`. The arn, runtime id, digest and ports that
-- the event copies from its task or container are left out, and so are the pointers back to these.
mod Sent
mod Examples
use amazon_ecs_agent.Common.{not, ◌==◌, leb, if◌then◌else◌, String, str_eq, Option, none, some, ℤ}
use amazon_ecs_agent.Status.ContainerStatus
use amazon_ecs_agent.Status.ContainerStatus.{ContainerStatus, should_report_to_backend}
use amazon_ecs_agent.Status.TaskStatus.{TaskStatus, backend_recognized}
use amazon_ecs_agent.Container.{Container, NamedError, Time, is_internal, get_steady_state_status}
use amazon_ecs_agent.Task.{Task}

-- A reason is a text, or the text of the error that the container was left with.
pub data Reason : Type 0 where
  text : String → Reason
  of_error : NamedError → Reason

pub record ContainerStateChange : Type 0 where
  pub container_name : String
  pub status : ContainerStatus
  pub reason : Reason
  pub exit_code : Option ℤ

pub record TaskStateChange : Type 0 where
  pub status : TaskStatus
  pub reason : String
  pub pull_started_at : Option Time
  pub pull_stopped_at : Option Time
  pub execution_stopped_at : Option Time

abbrev timestamp : Time → Option Time
timestamp t = if t == 0 then none else some t

unfoldable pub new_task_state_change_event : Task → String → Option TaskStateChange
new_task_state_change_event task reason =
    if not (backend_recognized task.known_status)
    then none
    else if leb task.known_status task.sent_status
    then none
    else some (record {
      status = task.known_status;
      reason = reason;
      pull_started_at = timestamp task.pull_started_at;
      pull_stopped_at = timestamp task.pull_stopped_at;
      execution_stopped_at = timestamp task.execution_stopped_at;
    })

abbrev reason_or_error : String → Option NamedError → Reason
reason_or_error reason none = text reason
reason_or_error reason (some e) = if str_eq reason "" then of_error e else text reason

unfoldable pub new_container_state_change_event : Container → String → Option ContainerStateChange
new_container_state_change_event cont reason =
    if not (should_report_to_backend cont.known_status (get_steady_state_status cont))
    then none
    else if is_internal cont
    then none
    else if leb cont.known_status cont.sent_status
    then none
    else some (record {
      container_name = cont.name;
      status = ContainerStatus.backend_status cont.known_status (get_steady_state_status cont);
      reason = reason_or_error reason cont.applying_error;
      exit_code = cont.known_exit_code;
    })
