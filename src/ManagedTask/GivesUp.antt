-- ===== src/ManagedTask/GivesUp.antt =====
-- What becomes of a task that cannot go on.
use amazon_ecs_agent.Common.{
  sym, ltb, ◌&&◌, length, string_key, refl, ◌⊎◌, ◌≢◌, ap, String, inl, inr, ◌==◌, subst, Bool-cases,
  All, ℤ, ℕ, ◌≤◌, ◌<◌, ◌≡◌, arith, Bool, ◌||◌, any, List,
}
use amazon_ecs_agent.Container.{Time}
use amazon_ecs_agent.Credentials.{Manager}
use amazon_ecs_agent.Task
use amazon_ecs_agent.Task.{Task}
use amazon_ecs_agent.Status.TaskStatus.{task_stopped}
use amazon_ecs_agent.Task.Desired.{Follows}
use amazon_ecs_agent.ManagedTask.Types.{ManagedTask, send}
use amazon_ecs_agent.ManagedTask.DesiredChange.{handle_desired_status_change_lem}
use amazon_ecs_agent.ManagedTask.Events.{emit_task_event, handle_desired_status_change}
use amazon_ecs_agent.ManagedTask.Progress.{
  waits_for_credentials, start_resource_transitions, start_container_transitions, StartedResources,
  next_move, none_started, finish_progress, unable_to_stop, wait_for_transition,
  wait_for_dependencies, wait_for_credentials, progress, give_up, NextMove,
  handle_containers_unable_to_transition_state, start_containers,
}
use amazon_ecs_agent.Resource.{TaskResource}
use amazon_ecs_agent.ManagedTask.Move.{
  is_resource_behind, is_behind, verdict, is_resolved, some_moves, some_blocked,
  some_lacks_credentials, Chooses, next_move-Chooses, any-start_resources, same_resources,
  any-start_containers, blocked-start_containers, waits-start_containers,
}

task-emit_task_event :
    (reason : String) (m : ManagedTask) → (emit_task_event reason m).task ≡ m.task
unfolding emit_task_event send
task-emit_task_event reason m = ground arith

unable_lem :
    (now : Time) (m : ManagedTask)
    → m.task.desired_status ≤ task_stopped
    → let t = (handle_containers_unable_to_transition_state now m).task in
      ((m.task.desired_status ≡ task_stopped) × (t.known_status ≡ task_stopped))
      ⊎ ((m.task.desired_status < task_stopped)
          × (t.desired_status ≡ task_stopped)
          × All (Follows task_stopped) t.containers)
unfolding handle_containers_unable_to_transition_state Task.set_known_status
unable_lem now m bound = elim (Bool-cases (m.task.desired_status == task_stopped)) [
  | inl stops ↦ inl (
    ground arith,
    rw stops (
        ap (λ (t : Task). t.known_status)
          (task-emit_task_event unable_to_stop
            (record m { task = Task.set_known_status now task_stopped m.task }))),
  )
  | inr runs ↦
      let task_runs : m.task.desired_status ≢ task_stopped = ground arith in
      elim (handle_desired_status_change_lem task_stopped (ℤ.pos 0) m (omega arith)) [
        | inl (less, same) ↦ absurd (ground arith)
        | inr (less, goal, follow, resources) ↦
            let m' = handle_desired_status_change task_stopped (ℤ.pos 0) m in
            let stops : m'.task.desired_status ≡ task_stopped = ground arith in
            inr (
              omega (arith, task_runs),
              rw runs stops,
              rw runs (subst (λ (d : ℕ). All (Follows d) m'.task.containers) stops follow),
            )
      ]
]

-- What the task is known and to be afterwards, by what it does: where it does not give up, both as before.
abbrev pub Outcome : Task → NextMove → Task → Type 0
Outcome task give_up t =
    ((task.desired_status ≡ task_stopped) × (t.known_status ≡ task_stopped))
    ⊎ ((task.desired_status < task_stopped)
        × (t.desired_status ≡ task_stopped)
        × All (Follows task_stopped) t.containers)
Outcome task move t =
    (t.known_status ≡ task.known_status) × (t.desired_status ≡ task.desired_status)

finish_progress-Outcome :
    (now : Time) (move : NextMove) (m : ManagedTask)
    → m.task.desired_status ≤ task_stopped
    → Outcome m.task (finish_progress now move m).1 (finish_progress now move m).0.task
unfolding finish_progress
finish_progress-Outcome now give_up m bound = unable_lem now m bound
finish_progress-Outcome now wait_for_transition m bound = (refl, refl)
finish_progress-Outcome now wait_for_dependencies m bound = (refl, refl)
finish_progress-Outcome now wait_for_credentials m bound = (refl, refl)

same_move : (now : Time) (move : NextMove) (m : ManagedTask) → (finish_progress now move m).1 ≡ move
unfolding finish_progress
same_move now give_up m = refl
same_move now wait_for_transition m = refl
same_move now wait_for_dependencies m = refl
same_move now wait_for_credentials m = refl

module _ (now : Time) (manager : Manager) where
  start_container_transitions-Chooses :
      (rs : StartedResources) (task : Task)
      → Chooses
          (rs.any_can_transition
            || any (λ c. is_behind c && is_resolved (verdict now manager task c)) task.containers)
          (some_blocked now manager task)
          (some_lacks_credentials now manager task)
          (next_move rs (start_container_transitions now manager task))
  unfolding start_container_transitions waits_for_credentials
  start_container_transitions-Chooses rs task =
      let cs = start_containers now manager task 0 task.containers none_started in
      let move = next_move rs cs in
      subst
        (λ (b : Bool).
          Chooses (rs.any_can_transition || b) (some_blocked now manager task)
            (some_lacks_credentials now manager task) move)
        (any-start_containers now manager task 0 task.containers none_started)
        (subst
          (λ (b : Bool).
            Chooses (rs.any_can_transition || cs.any_can_transition) b
              (some_lacks_credentials now manager task) move)
          (blocked-start_containers now manager task 0 task.containers none_started)
          (subst
            (λ (b : Bool).
              Chooses (rs.any_can_transition || cs.any_can_transition) (ltb 0 (length cs.blocked)) b
                move)
            (waits-start_containers now manager task 0 task.containers none_started)
            (next_move-Chooses rs cs)))

  progress-Chooses :
      (task : Task)
      → let rs = start_resource_transitions task in
        Chooses
          (some_moves now manager task)
          (some_blocked now manager task)
          (some_lacks_credentials now manager task)
          (next_move rs
            (start_container_transitions now manager (record task { resources = rs.resources })))
  unfolding start_resource_transitions next_move
  progress-Chooses task =
      let rs = start_resource_transitions task in
      let moved : rs.any_can_transition ≡ any is_resource_behind task.resources =
        any-start_resources task.resources _ in
      elim (Bool-cases (any is_resource_behind task.resources)) [
        | inl behind ↦ inl (ground (arith, behind), ground (arith, behind, moved))
        | inr idle ↦
            let same : rs.resources ≡ task.resources = same_resources task.resources _ idle in
            subst
              (λ (xs : List TaskResource).
                Chooses (some_moves now manager task) (some_blocked now manager task)
                  (some_lacks_credentials now manager task)
                  (next_move rs
                    (start_container_transitions now manager (record task { resources = xs }))))
              (sym same)
              (subst
                (λ (b : Bool).
                  Chooses
                    (b
                      || any (λ c. is_behind c && is_resolved (verdict now manager task c))
                          task.containers)
                    (some_blocked now manager task) (some_lacks_credentials now manager task)
                    (next_move rs (start_container_transitions now manager task)))
                moved (start_container_transitions-Chooses rs task))
      ]

  -- For a desired status up to STOPPED. Something can move where a resource is short of its desired
  -- status, or a container is short of its own and its dependencies are resolved; then the task waits
  -- for a transition. Where nothing can move, it waits for its dependencies if a container that is short
  -- of its desired status is held back by one that the check names; where none is, for credentials if
  -- such a container lacks them. Its statuses stay in these cases. Where there is nothing to wait for it
  -- gives up: a task that was to stop is known to be stopped, and any other task, with its containers, is
  -- to stop from now on.
  pub progress_lem :
      (m : ManagedTask)
      → m.task.desired_status ≤ task_stopped
      → let (m', move) = progress now manager m in
        Chooses
          (some_moves now manager m.task)
          (some_blocked now manager m.task)
          (some_lacks_credentials now manager m.task)
          move
        × Outcome m.task move m'.task
  unfolding progress
  progress_lem m bound = (
    subst
        (λ (move : NextMove).
          Chooses (some_moves now manager m.task) (some_blocked now manager m.task)
            (some_lacks_credentials now manager m.task) move)
        (sym (same_move now _ _)) (progress-Chooses m.task),
    finish_progress-Outcome now _ _ bound,
  )
