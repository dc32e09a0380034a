-- ===== src/ManagedTask/Examples.antt =====
-- The manager of a task with two containers, handed single messages.
use amazon_ecs_agent.Common.{
  List, lookup, ◌≤◌, ◌<◌, ◌≡◌, ◌⊎◌, refl, arith, true, [], ◌∷◌, ℤ, All, if◌then◌else◌,
}
use amazon_ecs_agent.Status.TaskStatus.{task_stopped}
use amazon_ecs_agent.Status.ContainerStatus.{container_stopped}
use amazon_ecs_agent.Container
use amazon_ecs_agent.Container.{Container, get_steady_state_status}
use amazon_ecs_agent.DependencyGraph
use amazon_ecs_agent.DependencyGraph.{resolved, dependencies_are_resolved}
use amazon_ecs_agent.Samples.{db, web, task, managed, change}
use amazon_ecs_agent.Task.{essential_container_terminal}
use amazon_ecs_agent.Task.Desired.{Follows, ResourceFollows}
use amazon_ecs_agent.ManagedTask.Types.{ManagedTask, modify}
use amazon_ecs_agent.ManagedTask.Events.{handle_container_change, handle_desired_status_change}
use amazon_ecs_agent.ManagedTask.Progress
use amazon_ecs_agent.ManagedTask.Progress.{container_next_state, progress, give_up}
use amazon_ecs_agent.ManagedTask.Writes.{known_statuses}
use amazon_ecs_agent.ManagedTask.Known.{handle_container_change-known_statuses}
use amazon_ecs_agent.ManagedTask.DesiredChange.{handle_desired_status_change_lem}
use amazon_ecs_agent.ManagedTask.Messages.{Message, acs_message, docker_message, wait_events}
use amazon_ecs_agent.ManagedTask.Groups.{joined_groups}
use amazon_ecs_agent.ManagedTask.StopGroup.{stop_sequence_kept}
use amazon_ecs_agent.ManagedTask.Next.{container_next_state_forward}
use amazon_ecs_agent.ManagedTask.Move.{Chooses, some_moves, some_blocked, some_lacks_credentials}
use amazon_ecs_agent.ManagedTask.GivesUp.{Outcome, progress_lem}

abbrev fresh : ManagedTask
fresh = managed (task (db ∷ web ∷ []) 0 3)

-- The database is reported to run.
handle_container_change-known_statuses_example :
    let after = known_statuses (handle_container_change 9 (change 0 3) fresh) in
    (after ≡ known_statuses fresh)
    ⊎ ((db.known_status < 3) × (after ≡ modify (known_statuses fresh) 0 (λ _. 3)))
handle_container_change-known_statuses_example =
    handle_container_change-known_statuses 9 (change 0 3) db fresh refl

handle_desired_status_change_lem_example :
    let m' = handle_desired_status_change task_stopped (ℤ.pos 2) fresh in
    ((task_stopped ≤ fresh.task.desired_status) × (m' ≡ fresh))
    ⊎ ((fresh.task.desired_status < m'.task.desired_status)
        × (m'.task.desired_status ≡ (
            if essential_container_terminal fresh.task.containers
            then task_stopped
            else task_stopped))
        × All (Follows m'.task.desired_status) m'.task.containers
        × All (ResourceFollows m'.task.desired_status) m'.task.resources)
handle_desired_status_change_lem_example =
    handle_desired_status_change_lem task_stopped (ℤ.pos 2) fresh (omega arith)

-- The task's stop has the number 4.
abbrev numbered : ManagedTask
numbered = managed (record (task (db ∷ web ∷ []) 0 3) { stop_sequence_number = ℤ.pos 4 })

abbrev some_messages : List Message
some_messages =
    acs_message (record { seqnum = ℤ.pos 2; desired_status = task_stopped })
    ∷ docker_message 9 (change 0 3)
    ∷ acs_message (record { seqnum = ℤ.pos 5; desired_status = task_stopped })
    ∷ []

stop_sequence_kept_example :
    let m' = wait_events some_messages numbered in
    (m'.task.stop_sequence_number ≡ ℤ.pos 4) × (joined_groups m'.outbox ≡ [])
stop_sequence_kept_example = stop_sequence_kept some_messages numbered refl

db_moves : (container_next_state 9 [] fresh.task db).action_required ≡ true
unfolding container_next_state dependencies_are_resolved DependencyGraph.verify_container_ordering
    DependencyGraph.check_dependencies DependencyGraph.verify_status_resolvable
    DependencyGraph.verify_transition_dependencies DependencyGraph.execution_credentials_resolved
    Container.dependencies_at lookup
db_moves = refl

container_next_state_forward_example :
    let t = container_next_state 9 [] fresh.task db in
    (db.known_status < t.next_state)
    × (t.next_state ≤ container_stopped)
    × (db.known_status < db.desired_status)
    × (dependencies_are_resolved 9 db fresh.task.containers "" [] fresh.task.resources ≡ resolved)
container_next_state_forward_example =
    container_next_state_forward 9 [] fresh.task db (omega arith) (omega arith) db_moves

-- The task's container waits for a resource that is not there.
abbrev waiting : Container
waiting = record db {
  transition_dependencies_map =
      (
        1,
        record {
          container_dependencies = [];
          resource_dependencies = (record { name = "none"; required_status = 1 }) ∷ [];
        },
      )
      ∷ [];
}

abbrev stuck : ManagedTask
stuck = managed (record (task (waiting ∷ []) 0 3) { resources = [] })

stuck_gives_up : (progress 9 [] stuck).1 ≡ give_up
unfolding progress Progress.finish_progress Progress.start_resources Progress.start_containers
    Progress.start_one container_next_state dependencies_are_resolved
    DependencyGraph.execution_credentials_resolved DependencyGraph.verify_container_ordering
    DependencyGraph.check_dependencies DependencyGraph.verify_status_resolvable
    DependencyGraph.verify_transition_dependencies Container.dependencies_at lookup
    Container.get_next_known_state_progression DependencyGraph.resources_map
stuck_gives_up = refl

progress_lem_example :
    let (m', move) = progress 9 [] stuck in
    Chooses
      (some_moves 9 [] stuck.task)
      (some_blocked 9 [] stuck.task)
      (some_lacks_credentials 9 [] stuck.task)
      move
    × Outcome stuck.task move m'.task
progress_lem_example = progress_lem 9 [] stuck (omega arith)
