-- ===== src/ManagedTask/StopGroup.antt =====
-- A task joins no second stop group.
use amazon_ecs_agent.Common.{
  ℕ, Bool, true, false, ◌≡◌, refl, ap, ap₂, ◌∙◌, arith, String, Option, none, some, List, [], ◌∷◌,
  ℤ, is_zero,
}
use amazon_ecs_agent.Status.ContainerStatus.{ContainerStatus, container_stopped}
use amazon_ecs_agent.Status.TaskStatus.{task_stopped}
use amazon_ecs_agent.Container.{Container, NamedError, Time}
use amazon_ecs_agent.Resource.{TaskResource}
use amazon_ecs_agent.Container
use amazon_ecs_agent.Task
use amazon_ecs_agent.Task.{
  Task, update_status, update_task_known_status, record_execution_stopped_at,
  set_execution_stopped_at, set_terminal_reason,
}
use amazon_ecs_agent.ManagedTask.Types.{
  ManagedTask, transition_container, save, DockerContainerChange, ResourceStateChange, get_elem?,
  with_task, with_container,
}
use amazon_ecs_agent.ManagedTask.Events.{
  handle_container_change, change_container, change_found, apply_container_change, carry_on,
  resolve_error, handle_event_error, handle_container_stopped_transition_error,
  handle_stopped_to_running_container_transition, update_container_metadata, give_up_container,
  set_applying_error,
}
use amazon_ecs_agent.ManagedTask.ResourceEvents.{
  handle_resource_state_change, resource_change, set_resources, find_resource, set_resource_status,
}
use amazon_ecs_agent.ManagedTask.Messages.{
  Message, acs_message, docker_message, resource_state_change_event, wait_event, wait_events,
}
use amazon_ecs_agent.ManagedTask.DesiredChange.{stop_sequence-handle_desired_status_change}
use amazon_ecs_agent.ManagedTask.Groups.{
  joined_groups, group, group-send, group-with_container, group-finish_container_change,
}

group-handle_event_error :
    (e : NamedError) (status : ContainerStatus) (i : ℕ) (current : ContainerStatus)
    (m : ManagedTask)
    → group (handle_event_error e status i current m).0 ≡ group m
unfolding handle_event_error handle_container_stopped_transition_error with_container with_task
    Task.set_desired_status
group-handle_event_error e status i current m =
    let given_up =
      with_container i (give_up_container current) (with_container i (set_applying_error e) m) in
    ground (arith, group-send (transition_container i container_stopped) given_up refl)

group-carry_on :
    (now : Time) (i : ℕ) (status : ContainerStatus) (proceed : Bool) (m : ManagedTask)
    → group (carry_on now i status proceed m) ≡ group m
unfolding carry_on
group-carry_on now i status true m = group-finish_container_change now i status m
group-carry_on now i status false m = refl

group-resolve_error :
    (now : Time) (i : ℕ) (status current : ContainerStatus) (error : Option NamedError)
    (m : ManagedTask)
    → group (resolve_error now i status current error m) ≡ group m
unfolding resolve_error
group-resolve_error now i status current none m = group-finish_container_change now i status m
group-resolve_error now i status current (some e) m =
    group-carry_on now i status _ _ ∙ group-handle_event_error e status i current m

group-stopped_to_running :
    (status : ContainerStatus) (i : ℕ) (c : Container) (m : ManagedTask)
    → group (handle_stopped_to_running_container_transition status i c m) ≡ group m
unfolding handle_stopped_to_running_container_transition
group-stopped_to_running status i c m =
    let started =
      group-send (transition_container i container_stopped) (record m { unexpected_start = true })
        refl in
    ground (arith, started)

group-change_container :
    (now : Time) (change : DockerContainerChange) (c : Container) (m : ManagedTask)
    → group (change_container now change c m) ≡ group m
unfolding change_container apply_container_change
group-change_container now change c m =
    let m0 = handle_stopped_to_running_container_transition change.status change.container c m in
    let applied =
      group-resolve_error now change.container change.status c.known_status change.error (
        with_container change.container
          (λ x.
            update_container_metadata now change.metadata
              (Container.set_known_status change.status x))
          m0)
      ∙ group-with_container change.container _ m0 in
    let metadata =
      group-with_container change.container (update_container_metadata now change.metadata) m0 in
    ground (arith, group-stopped_to_running change.status change.container c m, applied, metadata)

group-change_found :
    (now : Time) (change : DockerContainerChange) (found : Option Container) (m : ManagedTask)
    → group (change_found now change found m) ≡ group m
group-change_found now change none m = refl
group-change_found now change (some c) m = group-change_container now change c m

stop_sequence-set_terminal_reason :
    (reason : String) (t : Task)
    → (set_terminal_reason reason t).stop_sequence_number ≡ t.stop_sequence_number
unfolding set_terminal_reason
stop_sequence-set_terminal_reason reason t = ground arith

group-resource_change :
    (change : ResourceStateChange) (found : Option TaskResource) (m : ManagedTask)
    → group (resource_change change found m) ≡ group m
unfolding with_task Task.set_desired_status
group-resource_change change none m = refl
group-resource_change change (some r) m =
    let stops =
      with_task
        (λ t. set_terminal_reason r.terminal_reason (Task.set_desired_status task_stopped t)) m in
    let moves =
      with_task (set_resources (set_resource_status change.resource change.next_state)) m in
    ground (
      arith,
      group-send save moves refl,
      group-send save stops refl,
      stop_sequence-set_terminal_reason r.terminal_reason
          (Task.set_desired_status task_stopped m.task),
    )

group-wait_event :
    (message : Message) (m : ManagedTask)
    → is_zero m.task.stop_sequence_number ≡ false
    → group (wait_event message m) ≡ group m
unfolding wait_event handle_container_change handle_resource_state_change
group-wait_event (acs_message transition) m h =
    let (number, sent) =
      stop_sequence-handle_desired_status_change transition.desired_status transition.seqnum m h in
    ap₂ (λ n es. (n, joined_groups es)) number sent
group-wait_event (docker_message now change) m h =
    group-change_found now change (get_elem? m.task.containers change.container) m
group-wait_event (resource_state_change_event change) m h =
    group-resource_change change (find_resource change.resource m.task.resources) m

group-wait_events :
    (messages : List Message) (m : ManagedTask)
    → is_zero m.task.stop_sequence_number ≡ false
    → group (wait_events messages m) ≡ group m
unfolding wait_events
group-wait_events [] m h = refl
group-wait_events (message ∷ messages) m h =
    let one = group-wait_event message m h in
    let number = ap (λ (g : ℤ × List ℤ). g.0) one in
    group-wait_events messages (wait_event message m) (rw number h) ∙ one

-- Where a stop sequence number is recorded, the messages that the task reads after that, of the backend,
-- of Docker and of its resources, however many and in whatever order, leave that number, and the task
-- joins no further stop group.
pub stop_sequence_kept :
    (messages : List Message) (m : ManagedTask)
    → is_zero m.task.stop_sequence_number ≡ false
    → let m' = wait_events messages m in
      (m'.task.stop_sequence_number ≡ m.task.stop_sequence_number)
      × (joined_groups m'.outbox ≡ joined_groups m.outbox)
stop_sequence_kept messages m h =
    let same = group-wait_events messages m h in
    (ap (λ (g : ℤ × List ℤ). g.0) same, ap (λ (g : ℤ × List ℤ). g.1) same)
