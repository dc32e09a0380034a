-- ===== src/ManagedTask/Events.antt =====
-- agent/engine/task_manager.go: the handlers of desired-status, container and resource changes, and
-- `updateContainerMetadata` of agent/engine/docker_task_engine.go.
use amazon_ecs_agent.Common.{
  ℕ, Bool, true, false, not, ◌&&◌, ◌||◌, ◌==◌, ◌/=◌, leb, ltb, if◌then◌else◌, String, str_eq,
  Option, none, some, List, [], ◌∷◌, ℤ, is_zero, codes, bytes_eq,
}
use amazon_ecs_agent.Status.ContainerStatus.{
  ContainerStatus, container_status_none, container_pulled, container_created, container_running,
  container_stopped, is_running,
}
use amazon_ecs_agent.Status.TaskStatus
use amazon_ecs_agent.Status.TaskStatus.{TaskStatus, task_stopped}
use amazon_ecs_agent.Container
use amazon_ecs_agent.Container.{
  Container, NamedError, Time, set_created_at, set_started_at, set_finished_at, set_health_status,
  health_status_should_be_reported,
}
use amazon_ecs_agent.StateChange.{
  new_container_state_change_event, new_task_state_change_event, ContainerStateChange,
  TaskStateChange,
}
use amazon_ecs_agent.Task
use amazon_ecs_agent.Task.{
  Task, update_desired_status, update_status, record_execution_stopped_at, set_terminal_reason,
  set_stop_sequence_number,
}
use amazon_ecs_agent.ManagedTask.Types.{
  ManagedTask, task_event, container_event, telemetry_event, transition_container, stop_group_add,
  DockerContainerMetadata, DockerContainerChange, ImagePullBehavior, image_pull_always,
  image_pull_once, get_elem?, send, with_task, with_container,
}

-- The task's containers and resources take the new desired status at once.
unfoldable pub handle_desired_status_change : TaskStatus → ℤ → ManagedTask → ManagedTask
handle_desired_status_change desired seqnum m =
    if leb desired m.task.desired_status
    then m
    else let joined =
        if desired == task_stopped && not (is_zero seqnum) && is_zero m.task.stop_sequence_number
        then send (stop_group_add seqnum) (with_task (set_stop_sequence_number seqnum) m)
        else m in
      with_task (λ t. update_desired_status (Task.set_desired_status desired t)) joined

abbrev pub send_if_some_container : Option ContainerStateChange → ManagedTask → ManagedTask
send_if_some_container none m = m
send_if_some_container (some e) m = send (container_event e) m

abbrev pub send_if_some_task : Option TaskStateChange → ManagedTask → ManagedTask
send_if_some_task none m = m
send_if_some_task (some e) m = send (task_event e) m

abbrev pub event_of : Option Container → String → Option ContainerStateChange
event_of none reason = none
event_of (some c) reason = new_container_state_change_event c reason

unfoldable pub emit_container_event : ℕ → String → ManagedTask → ManagedTask
emit_container_event i reason m =
    send_if_some_container (event_of (get_elem? m.task.containers i) reason) m

unfoldable pub emit_task_event : String → ManagedTask → ManagedTask
emit_task_event reason m = send_if_some_task (new_task_state_change_event m.task reason) m

-- `GetTerminalReason`, the empty text if none was set.
abbrev pub reason_text : Option String → String
reason_text none = ""
reason_text (some r) = r

abbrev set_exit_code : Option ℤ → Container → Container
set_exit_code none c = c
set_exit_code (some code) c = record c { known_exit_code = some code }

unfoldable pub update_container_metadata : Time → DockerContainerMetadata → Container → Container
update_container_metadata now metadata c =
    let c1 =
      set_finished_at metadata.finished_at
        (set_started_at metadata.started_at (set_created_at metadata.created_at c)) in
    let c2 = set_exit_code metadata.exit_code c1 in
    if health_status_should_be_reported c2 then set_health_status now metadata.health c2 else c2

-- A container that comes back after it was stopped is stopped again, the first time only.
unfoldable pub handle_stopped_to_running_container_transition :
    ContainerStatus → ℕ → Container → ManagedTask → ManagedTask
handle_stopped_to_running_container_transition status i c m =
    if ltb c.known_status status
    then m
    else if c.known_status /= container_stopped
    then m
    else if not (is_running status)
    then m
    else if m.unexpected_start
    then m
    else send (transition_container i container_stopped) (record m { unexpected_start = true })

-- `apierrors.NewNamedError`: a copy of the name and the text.
abbrev pub new_named_error : NamedError → NamedError
new_named_error e = record e { cannot_stop = none }

abbrev keep_first : Option NamedError → NamedError → Option NamedError
keep_first none e = some (new_named_error e)
keep_first (some old) e = some old

unfoldable pub set_applying_error : NamedError → Container → Container
set_applying_error e c = record c { applying_error = keep_first c.applying_error e }

abbrev pub docker_timeout_error_name : String
docker_timeout_error_name = "DockerTimeoutError"

abbrev pub cannot_inspect_container_error_name : String
cannot_inspect_container_error_name = "CannotInspectContainerError"

abbrev pub cannot_start_container_error_name : String
cannot_start_container_error_name = "CannotStartContainerError"

-- `strings.HasSuffix(s, "EOF")`
abbrev ends_in_eof : List ℕ → Bool
ends_in_eof [] = false
ends_in_eof (c ∷ s) = bytes_eq (c ∷ s) (codes "EOF") || ends_in_eof s

abbrev is_retriable : Option Bool → Bool
is_retriable none = false
is_retriable (some b) = b

-- The container has the given known status, and is to stop.
unfoldable pub give_up_container : ContainerStatus → Container → Container
give_up_container known_status c =
    Container.set_desired_status container_stopped (Container.set_known_status known_status c)

-- The Boolean tells whether the container counts as stopped all the same.
unfoldable pub handle_container_stopped_transition_error :
    NamedError → ℕ → ContainerStatus → ManagedTask → ManagedTask × Bool
handle_container_stopped_transition_error e i current m =
    if str_eq e.error_name docker_timeout_error_name
    then (with_container i (Container.set_known_status current) m, false)
    else if is_retriable e.cannot_stop
    then (with_container i (Container.set_known_status current) m, false)
    else (with_container i (give_up_container container_stopped) m, true)

-- Start errors after which the container may run all the same.
unfoldable pub should_force_stop : NamedError → Bool
should_force_stop e =
    str_eq e.error_name docker_timeout_error_name
    || str_eq e.error_name cannot_inspect_container_error_name
    || (str_eq e.error_name cannot_start_container_error_name && ends_in_eof (codes e.error))

abbrev pulls_or_fails : ImagePullBehavior → Bool
pulls_or_fails image_pull_always = true
pulls_or_fails image_pull_once = true
pulls_or_fails _ = false

-- The Boolean tells whether the change is carried through all the same.
unfoldable pub handle_event_error :
    NamedError → ContainerStatus → ℕ → ContainerStatus → ManagedTask → ManagedTask × Bool
handle_event_error e status i current m0 =
    let m = with_container i (set_applying_error e) m0 in
    if status == container_pulled
    then if pulls_or_fails m.image_pull_behavior
      then (with_task (Task.set_desired_status task_stopped) m, false)
      else (m, true)
    else if status == container_stopped
    then handle_container_stopped_transition_error e i current m
    else if status == container_status_none || status == container_created
    then (with_container i (give_up_container current) m, false)
    else let given_up = with_container i (give_up_container current) m in
      (
        if should_force_stop e
            then send (transition_container i container_stopped) given_up
            else given_up,
        false,
      )

unfoldable pub report_task : Bool → ManagedTask → ManagedTask
report_task false m = m
report_task true m =
    emit_task_event
      (if TaskStatus.terminal m.task.known_status then reason_text m.task.terminal_reason else "") m

-- `UpdateStatus`, and a task event if the known status changed.
unfoldable pub update_and_report : Time → ManagedTask → ManagedTask
update_and_report now m =
    let (t, changed) = update_status now m.task in report_task changed (record m { task = t })

abbrev pub record_stop_of : Time → Option Container → Task → Task
record_stop_of now none t = t
record_stop_of now (some c) t = record_execution_stopped_at now c t

-- The end of `handleContainerChange`.
unfoldable pub finish_container_change : Time → ℕ → ContainerStatus → ManagedTask → ManagedTask
finish_container_change now i status m =
    let m1 = with_task (record_stop_of now (get_elem? m.task.containers i)) m in
    update_and_report now (emit_container_event i "" (send (telemetry_event i status) m1))

unfoldable pub carry_on : Time → ℕ → ContainerStatus → Bool → ManagedTask → ManagedTask
carry_on now i status true m = finish_container_change now i status m
carry_on now i status false m = m

unfoldable pub resolve_error :
    Time → ℕ → ContainerStatus → ContainerStatus → Option NamedError → ManagedTask → ManagedTask
resolve_error now i status current none m = finish_container_change now i status m
resolve_error now i status current (some e) m =
    let (m', proceed) = handle_event_error e status i current m in carry_on now i status proceed m'

-- The part of `handleContainerChange` that moves the container on from the status `current`.
unfoldable pub apply_container_change :
    Time → DockerContainerChange → ContainerStatus → ManagedTask → ManagedTask
apply_container_change now change current m =
    resolve_error now change.container change.status current change.error (
      with_container change.container
        (λ c.
          update_container_metadata now change.metadata
            (Container.set_known_status change.status c))
        m)

unfoldable pub change_container :
    Time → DockerContainerChange → Container → ManagedTask → ManagedTask
change_container now change c m0 =
    let m = handle_stopped_to_running_container_transition change.status change.container c m0 in
    if leb change.status c.known_status
    then if change.status == c.known_status && change.status == container_running
      then with_container change.container (update_container_metadata now change.metadata) m
      else m
    else apply_container_change now change c.known_status m

abbrev pub change_found :
    Time → DockerContainerChange → Option Container → ManagedTask → ManagedTask
change_found now change none m = m
change_found now change (some c) m = change_container now change c m

-- `now` is the time of all the clock's readings in one call.
unfoldable pub handle_container_change : Time → DockerContainerChange → ManagedTask → ManagedTask
handle_container_change now change m =
    change_found now change (get_elem? m.task.containers change.container) m
