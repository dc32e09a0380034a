-- ===== src/ManagedTask/Progress.antt =====
-- agent/engine/task_manager.go: which container and resource transitions are started next.
use amazon_ecs_agent.Common.{
  ℕ, suc, Bool, true, false, not, ◌&&◌, ◌||◌, ◌==◌, leb, ltb, if◌then◌else◌, String, Option, none,
  some, List, [], ◌∷◌, ◌++◌, insert, string_key, ℤ, length,
}
use amazon_ecs_agent.Status.ContainerStatus.{
  ContainerStatus, container_status_none, container_running, container_stopped,
}
use amazon_ecs_agent.Status.TaskStatus
use amazon_ecs_agent.Status.TaskStatus.{task_running, task_stopped}
use amazon_ecs_agent.Container
use amazon_ecs_agent.Container.{
  Container, DependsOn, ResourceStatus, Time, desired_terminal, container_is_running,
  get_next_known_state_progression,
}
use amazon_ecs_agent.Credentials.{Manager}
use amazon_ecs_agent.Resource
use amazon_ecs_agent.Resource.{TaskResource, terminal_status, next_known_state}
use amazon_ecs_agent.DependencyGraph.{
  DependencyError, Verdict, resolved, unresolved, dependencies_are_resolved,
  credentials_not_resolved,
}
use amazon_ecs_agent.Task
use amazon_ecs_agent.Task.{Task}
use amazon_ecs_agent.ManagedTask.Types.{
  ManagedTask, Effect, transition_container, self_message, transition_resource, resource_message,
}
use amazon_ecs_agent.ManagedTask.Events.{handle_desired_status_change, emit_task_event}

-- Why a container does not move.
pub data Obstacle : Type 0 where
  past_desired_status : Obstacle
  dependency : DependencyError → Obstacle

pub record ContainerTransition : Type 0 where
  pub next_state : ContainerStatus
  pub action_required : Bool
  pub blocked_on : Option DependsOn
  pub reason : Option Obstacle

abbrev stays : Option DependsOn → Obstacle → ContainerTransition
stays blocked_on why = record {
  next_state = container_status_none;
  action_required = false;
  blocked_on = blocked_on;
  reason = some why;
}

abbrev moves : ContainerStatus → Bool → ContainerTransition
moves next_state action_required = record {
  next_state = next_state;
  action_required = action_required;
  blocked_on = none;
  reason = none;
}

-- The end of `containerNextState`, once nothing holds the container back.
unfoldable pub next_transition : Container → ContainerTransition
next_transition c =
    if desired_terminal c
    then if not (container_is_running c)
      then moves
          (if c.applied_status == container_running
            then container_status_none
            else container_stopped)
          false
      else moves container_stopped true
    else moves (get_next_known_state_progression c) true

abbrev transition_of : Container → Verdict → ContainerTransition
transition_of c resolved = next_transition c
transition_of c (unresolved blocked_on e) = stays blocked_on (dependency e)

unfoldable pub container_next_state : Time → Manager → Task → Container → ContainerTransition
unfolding next_transition
container_next_state now manager task c =
    if leb c.desired_status c.known_status
    then stays none past_desired_status
    else transition_of c (
        dependencies_are_resolved now c task.containers task.execution_credentials_id manager
          task.resources)

-- The variables of the loop of `startContainerTransitions`, with the containers as the loop leaves
-- them, in order, and the goroutines that it starts. The code compares and hands over pointers;
-- `position` is where the next container stands.
pub record Started : Type 0 where
  pub any_can_transition : Bool
  pub blocked : List (String × DependsOn)
  pub transitions : List (String × ContainerStatus)
  pub reasons : List Obstacle
  pub containers : List Container
  pub effects : List Effect

abbrev add_blocked :
    String → Option DependsOn → List (String × DependsOn) → List (String × DependsOn)
add_blocked name none blocked = blocked
add_blocked name (some d) blocked = insert name d blocked

-- One round of the loop, for a container that may move.
unfoldable pub start_transition : ℕ → Container → ContainerTransition → Started → Started
start_transition position c transition s =
    if not transition.action_required
    then record s {
      any_can_transition = true;
      containers = s.containers ++ c ∷ [];
      effects = s.effects ++ self_message position transition.next_state ∷ [];
    }
    else let (c', applied) = Container.set_applied_status transition.next_state c in
      if not applied
      then record s { any_can_transition = true; containers = s.containers ++ c ∷ [] }
      else record s {
        any_can_transition = true;
        transitions = insert c.name transition.next_state s.transitions;
        containers = s.containers ++ c' ∷ [];
        effects = s.effects ++ transition_container position transition.next_state ∷ [];
      }

unfoldable pub start_one : ℕ → Container → ContainerTransition → Started → Started
unfolding start_transition
start_one position c transition s = elim transition.reason [
  | none ↦ start_transition position c transition s
  | some why ↦ record s {
    blocked = add_blocked c.name transition.blocked_on s.blocked;
    reasons = s.reasons ++ why ∷ [];
    containers = s.containers ++ c ∷ [];
  }
]

-- The loop. A container that is given an applied status in an earlier round is only changed in
-- that field, which no later round reads of another container: so the dependencies are judged by
-- the task as it was.
unfoldable pub start_containers : Time → Manager → Task → ℕ → List Container → Started → Started
start_containers now manager task position [] s = s
start_containers now manager task position (c ∷ cs) s =
    start_containers now manager task (suc position) cs
      (start_one position c (container_next_state now manager task c) s)

abbrev pub none_started : Started
none_started = record {
  any_can_transition = false;
  blocked = [];
  transitions = [];
  reasons = [];
  containers = [];
  effects = [];
}

unfoldable pub start_container_transitions : Time → Manager → Task → Started
start_container_transitions now manager task =
    start_containers now manager task 0 task.containers none_started

pub record StartedResources : Type 0 where
  pub any_can_transition : Bool
  pub transitions : List (String × ResourceStatus)
  pub resources : List TaskResource
  pub effects : List Effect

-- `resourceNextState`: the next status, and whether a transition function is to be called.
unfoldable pub resource_next_state : TaskResource → ResourceStatus × Bool
resource_next_state r =
    if Resource.desired_terminal r then (terminal_status r, false) else (next_known_state r, true)

unfoldable pub start_resource : TaskResource → StartedResources → StartedResources
unfolding resource_next_state
start_resource r s =
    if leb r.desired_status r.known_status
    then record s { resources = s.resources ++ r ∷ [] }
    else let (next_state, action_required) = resource_next_state r in
      if not action_required
      then record s {
        any_can_transition = true;
        resources = s.resources ++ r ∷ [];
        effects = s.effects ++ resource_message r.name next_state ∷ [];
      }
      else let (r', applied) = Resource.set_applied_status next_state r in
        if not applied
        then record s { any_can_transition = true; resources = s.resources ++ r ∷ [] }
        else record s {
          any_can_transition = true;
          transitions = insert r.name next_state s.transitions;
          resources = s.resources ++ r' ∷ [];
          effects = s.effects ++ transition_resource r.name next_state ∷ [];
        }

unfoldable pub start_resources : List TaskResource → StartedResources → StartedResources
start_resources [] s = s
start_resources (r ∷ rs) s = start_resources rs (start_resource r s)

unfoldable pub start_resource_transitions : Task → StartedResources
start_resource_transitions task =
    start_resources task.resources
      (record { any_can_transition = false; transitions = []; resources = []; effects = [] })

-- The reason that is sent with a task that could not be stopped.
abbrev pub unable_to_stop : String
unable_to_stop = "TaskStateError: Agent could not progress task's state to stopped"

unfoldable pub handle_containers_unable_to_transition_state : Time → ManagedTask → ManagedTask
handle_containers_unable_to_transition_state now m =
    if TaskStatus.terminal m.task.desired_status
    then emit_task_event unable_to_stop
        (record m { task = Task.set_known_status now task_stopped m.task })
    else handle_desired_status_change task_stopped (ℤ.pos 0) m

abbrev pub is_credentials : Obstacle → Bool
is_credentials (dependency credentials_not_resolved) = true
is_credentials _ = false

-- Whether `isWaitingForACSExecutionCredentials` waits.
unfoldable pub waits_for_credentials : List Obstacle → Bool
waits_for_credentials [] = false
waits_for_credentials (r ∷ rs) = is_credentials r || waits_for_credentials rs

-- What `progressTask` does once it has started what can be started: it waits for one of the
-- transitions, or for a change of what blocks the containers, or for credentials, or it gives up.
pub data NextMove : Type 0 where
  wait_for_transition wait_for_dependencies wait_for_credentials give_up : NextMove

unfoldable pub next_move : StartedResources → Started → NextMove
unfolding waits_for_credentials
next_move resources containers =
    if resources.any_can_transition || containers.any_can_transition
    then wait_for_transition
    else if ltb 0 (length containers.blocked)
    then wait_for_dependencies
    else if waits_for_credentials containers.reasons
    then wait_for_credentials
    else give_up

unfoldable pub finish_progress : Time → NextMove → ManagedTask → ManagedTask × NextMove
finish_progress now give_up m = (handle_containers_unable_to_transition_state now m, give_up)
finish_progress now move m = (m, move)

-- The first half of `progressTask`: resources first, then containers.
unfoldable pub progress : Time → Manager → ManagedTask → ManagedTask × NextMove
unfolding start_resource_transitions start_container_transitions next_move
progress now manager m =
    let rs = start_resource_transitions m.task in
    let t1 = record (m.task) { resources = rs.resources } in
    let cs = start_container_transitions now manager t1 in
    finish_progress now (next_move rs cs) (record m {
      task = record t1 { containers = cs.containers };
      outbox = m.outbox ++ rs.effects ++ cs.effects;
    })

-- Whether `steadyState` holds of a task whose context is not cancelled.
unfoldable pub steady_state : Task → Bool
steady_state task = task.known_status == task_running && leb task.desired_status task.known_status
