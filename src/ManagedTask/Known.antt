-- ===== src/ManagedTask/Known.antt =====
-- What a container change does to the known statuses of a task's containers.
use amazon_ecs_agent.Common.{
  ◌<◌, ℕ, Bool, true, false, ◌≡◌, refl, sym, ap, subst, ◌∙◌, ◌⊎◌, inl, inr, arith, Option, none,
  some, List, map,
}
use amazon_ecs_agent.Status.ContainerStatus.{ContainerStatus, container_stopped}
use amazon_ecs_agent.Container
use amazon_ecs_agent.Container.{
  Container, NamedError, Time, set_created_at, set_started_at, set_finished_at, set_health_status,
  update_applied_status,
}
use amazon_ecs_agent.Task
use amazon_ecs_agent.Task.{
  Task, update_status, update_desired_status, update_task_known_status, update_task_desired_status,
  raise_container, record_execution_stopped_at, update_container_desired_status,
  set_execution_stopped_at,
}
use amazon_ecs_agent.ManagedTask.Types.{
  ManagedTask, DockerContainerChange, get_elem?, modify, send, with_task, with_container,
}
use amazon_ecs_agent.ManagedTask.Events.{
  handle_container_change, change_container, change_found, apply_container_change, carry_on,
  resolve_error, handle_event_error, handle_container_stopped_transition_error,
  update_container_metadata, set_applying_error, give_up_container,
  handle_stopped_to_running_container_transition,
}
use amazon_ecs_agent.ManagedTask.Writes.{
  known_statuses, known, modify_id, modify_twice, modify_back,
  known_statuses-finish_container_change, known-set_known_status, known-give_up_container,
  known-set_applying_error, known-update_container_metadata, known_statuses-with_container,
}

module _ (e : NamedError) (i : ℕ) (current : ContainerStatus) where
  -- After an error the container has its old known status back, the one of the change, or STOPPED.
  abbrev AfterError : ContainerStatus → List ContainerStatus → List ContainerStatus → Type 0
  AfterError status before after =
      (after ≡ before)
      ⊎ (after ≡ modify before i (λ _. current))
      ⊎ ((status ≡ container_stopped) × (after ≡ modify before i (λ _. container_stopped)))

  known_statuses-stopped_transition_error :
      (m : ManagedTask)
      → AfterError container_stopped
          (known_statuses m)
          (known_statuses (handle_container_stopped_transition_error e i current m).0)
  unfolding handle_container_stopped_transition_error
  known_statuses-stopped_transition_error m = ground (
    arith,
    known_statuses-with_container i (Container.set_known_status current) (λ _. current) m
        (known-set_known_status current),
    known_statuses-with_container i (give_up_container container_stopped) (λ _. container_stopped) m
        (known-give_up_container container_stopped),
  )

  known_statuses-handle_event_error :
      (status : ContainerStatus) (m : ManagedTask)
      → AfterError status
          (known_statuses m)
          (known_statuses (handle_event_error e status i current m).0)
  unfolding handle_event_error send with_task Task.set_desired_status
  known_statuses-handle_event_error status m =
      let m1 = with_container i (set_applying_error e) m in
      let same : known_statuses m1 ≡ known_statuses m =
        known_statuses-with_container i (set_applying_error e) (λ k. k) m
          (known-set_applying_error e)
        ∙ modify_id (known_statuses m) i in
      ground (
        arith,
        same,
        known_statuses-stopped_transition_error m1,
        known_statuses-with_container i (give_up_container current) (λ _. current) m1
            (known-give_up_container current),
      )

task-handle_stopped_to_running :
    (status : ContainerStatus) (i : ℕ) (c : Container) (m : ManagedTask)
    → (handle_stopped_to_running_container_transition status i c m).task ≡ m.task
unfolding handle_stopped_to_running_container_transition send
task-handle_stopped_to_running status i c m = ground arith

module _ (now : Time) (change : DockerContainerChange) (c : Container) where
  -- The known statuses stay, or that of the changed container becomes the change's.
  abbrev AfterChange : List ContainerStatus → List ContainerStatus → Type 0
  AfterChange before after =
      (after ≡ before) ⊎ (after ≡ modify before change.container (λ _. change.status))

  known_statuses-carry_on :
      (proceed : Bool) (m : ManagedTask)
      → known_statuses (carry_on now change.container change.status proceed m) ≡ known_statuses m
  unfolding carry_on
  known_statuses-carry_on true m =
      known_statuses-finish_container_change now change.container change.status m
  known_statuses-carry_on false m = refl

  known_statuses-AfterError :
      (ks ks1 ks2 : List ContainerStatus) (e : NamedError)
      → ks1 ≡ modify ks change.container (λ _. change.status)
      → modify ks change.container (λ _. known c) ≡ ks
      → AfterError e change.container (known c) change.status ks1 ks2
      → AfterChange ks ks2
  known_statuses-AfterError ks ks1 ks2 e h back (inl same) = inr (same ∙ h)
  known_statuses-AfterError ks ks1 ks2 e h back (inr (inl old)) = inl (
      old
      ∙ ap (λ l. modify l change.container (λ _. known c)) h
      ∙ modify_twice ks change.container change.status (known c)
      ∙ back)
  known_statuses-AfterError ks ks1 ks2 e h back (inr (inr (stopped, new))) = inr (
      new
      ∙ ap (λ l. modify l change.container (λ _. container_stopped)) h
      ∙ modify_twice ks change.container change.status container_stopped
      ∙ ap (λ (s : ContainerStatus). modify ks change.container (λ _. s)) (sym stopped))

  known_statuses-resolve_error :
      (error : Option NamedError) (ks : List ContainerStatus) (m : ManagedTask)
      → known_statuses m ≡ modify ks change.container (λ _. change.status)
      → modify ks change.container (λ _. known c) ≡ ks
      → AfterChange ks
          (known_statuses (resolve_error now change.container change.status (known c) error m))
  unfolding resolve_error
  known_statuses-resolve_error none ks m h back =
      inr (known_statuses-finish_container_change now change.container change.status m ∙ h)
  known_statuses-resolve_error (some e) ks m h back =
      let (m', proceed) = handle_event_error e change.status change.container (known c) m in
      known_statuses-AfterError ks (known_statuses m) _ e h back (
        subst (AfterError e change.container (known c) change.status (known_statuses m))
          (sym (known_statuses-carry_on proceed m'))
          (known_statuses-handle_event_error e change.container (known c) change.status m))

  known_statuses-apply :
      (m : ManagedTask)
      → get_elem? m.task.containers change.container ≡ some c
      → AfterChange
          (known_statuses m)
          (known_statuses (apply_container_change now change (known c) m))
  unfolding apply_container_change
  known_statuses-apply m found =
      let write = λ (x : Container).
        update_container_metadata now change.metadata
          (Container.set_known_status change.status x) in
      known_statuses-resolve_error change.error (known_statuses m)
        (with_container change.container write m)
        (known_statuses-with_container change.container write (λ _. change.status) m
          (λ x.
            known-update_container_metadata now change.metadata _
            ∙ known-set_known_status change.status x))
        (modify_back m.task.containers change.container c found)

  known_statuses-change_container :
      (m : ManagedTask)
      → get_elem? m.task.containers change.container ≡ some c
      → (known_statuses (change_container now change c m) ≡ known_statuses m)
        ⊎ ((known c < change.status)
            × (known_statuses (change_container now change c m)
                ≡ modify (known_statuses m) change.container (λ _. change.status)))
  unfolding change_container
  known_statuses-change_container m found =
      let m0 = handle_stopped_to_running_container_transition change.status change.container c m in
      let same = task-handle_stopped_to_running change.status change.container c m in
      let k0 : known_statuses m0 ≡ known_statuses m =
        ap (λ (t : Task). map known t.containers) same in
      let metadata : known_statuses
            (with_container change.container (update_container_metadata now change.metadata) m0)
          ≡ known_statuses m0 =
        known_statuses-with_container change.container
          (update_container_metadata now change.metadata) (λ k. k) m0
          (known-update_container_metadata now change.metadata)
        ∙ modify_id (known_statuses m0) change.container in
      let applied =
        known_statuses-apply m0
          (ap (λ (t : Task). get_elem? t.containers change.container) same ∙ found) in
      ground (arith, k0, metadata, applied)

-- A message about a container of the task changes no known status but that container's, which it
-- can only set to the status of the message, and only if that is further on than the one it has.
pub handle_container_change-known_statuses :
    (now : Time) (change : DockerContainerChange) (c : Container) (m : ManagedTask)
    → get_elem? m.task.containers change.container ≡ some c
    → let after = known_statuses (handle_container_change now change m) in
      (after ≡ known_statuses m)
      ⊎ ((c.known_status < change.status)
          × (after ≡ modify (known_statuses m) change.container (λ _. change.status)))
unfolding handle_container_change
handle_container_change-known_statuses now change c m found =
    rw (found, change_found) (known_statuses-change_container now change c m found)
