-- ===== src/ManagedTask/Groups.antt =====
-- Which calls leave the stop groups that a task has joined.
use amazon_ecs_agent.Common.{
  ℕ, Bool, true, false, ◌≡◌, refl, ap, ◌∙◌, arith, String, Option, none, some, List, [], ◌∷◌, ◌++◌,
  ℤ,
}
use amazon_ecs_agent.Status.ContainerStatus.{ContainerStatus}
use amazon_ecs_agent.Container.{Container, Time}
use amazon_ecs_agent.StateChange.{ContainerStateChange, TaskStateChange}
use amazon_ecs_agent.Task.{
  Task, update_status, update_task_known_status, record_execution_stopped_at,
  set_execution_stopped_at,
}
use amazon_ecs_agent.ManagedTask.Types.{
  ManagedTask, Effect, stop_group_add, telemetry_event, get_elem?, send, with_task, with_container,
}
use amazon_ecs_agent.ManagedTask.Events.{
  finish_container_change, update_and_report, report_task, record_stop_of, emit_task_event,
  emit_container_event, send_if_some_container, send_if_some_task, event_of,
}
use amazon_ecs_agent.ManagedTask.DesiredChange.{stop_sequence-update_desired_status}

-- The groups that the sent effects join, in their order.
abbrev pub joined_groups : List Effect → List ℤ
joined_groups [] = []
joined_groups (stop_group_add seqnum ∷ es) = seqnum ∷ joined_groups es
joined_groups (e ∷ es) = joined_groups es

abbrev joins : Effect → Bool
joins (stop_group_add seqnum) = true
joins e = false

-- The recorded number and the groups that were joined.
abbrev pub group : ManagedTask → ℤ × List ℤ
group m = (m.task.stop_sequence_number, joined_groups m.outbox)

joined_groups-snoc :
    (e : Effect) (es : List Effect)
    → joins e ≡ false
    → joined_groups (es ++ e ∷ []) ≡ joined_groups es
joined_groups-snoc e [] h = ground (arith, h)
joined_groups-snoc e (x ∷ es) h = ground (arith, h, joined_groups-snoc e es)

pub group-send : (e : Effect) (m : ManagedTask) → joins e ≡ false → group (send e m) ≡ group m
unfolding send
group-send e m h = ap (λ js. (m.task.stop_sequence_number, js)) (joined_groups-snoc e m.outbox h)

group-with_task :
    (f : Task → Task) (m : ManagedTask)
    → (f m.task).stop_sequence_number ≡ m.task.stop_sequence_number
    → group (with_task f m) ≡ group m
unfolding with_task
group-with_task f m h = ap (λ n. (n, joined_groups m.outbox)) h

pub group-with_container :
    (i : ℕ) (f : Container → Container) (m : ManagedTask) → group (with_container i f m) ≡ group m
unfolding with_container
group-with_container i f m = refl

group-emit_container_event :
    (i : ℕ) (reason : String) (m : ManagedTask) → group (emit_container_event i reason m) ≡ group m
unfolding emit_container_event
group-emit_container_event i reason m = sent (event_of (get_elem? m.task.containers i) reason)
  where
    sent : (o : Option ContainerStateChange) → group (send_if_some_container o m) ≡ group m
    sent none = refl
    sent (some e) = group-send _ m refl

group-emit_task_event :
    (reason : String) (m : ManagedTask) → group (emit_task_event reason m) ≡ group m
unfolding emit_task_event
group-emit_task_event reason m = sent _
  where
    sent : (o : Option TaskStateChange) → group (send_if_some_task o m) ≡ group m
    sent none = refl
    sent (some e) = group-send _ m refl

group-report_task : (b : Bool) (m : ManagedTask) → group (report_task b m) ≡ group m
unfolding report_task
group-report_task false m = refl
group-report_task true m = group-emit_task_event _ m

stop_sequence-update_status :
    (now : Time) (t : Task) → (update_status now t).0.stop_sequence_number ≡ t.stop_sequence_number
unfolding update_status update_task_known_status
stop_sequence-update_status now t =
    stop_sequence-update_desired_status (update_task_known_status now t).0 ∙ ground arith

group-update_and_report : (now : Time) (m : ManagedTask) → group (update_and_report now m) ≡ group m
unfolding update_and_report
group-update_and_report now m =
    let (t, changed) = update_status now m.task in
    group-report_task changed (record m { task = t })
    ∙ ap (λ n. (n, joined_groups m.outbox)) (stop_sequence-update_status now m.task)

stop_sequence-record_stop_of :
    (now : Time) (o : Option Container) (t : Task)
    → (record_stop_of now o t).stop_sequence_number ≡ t.stop_sequence_number
unfolding record_execution_stopped_at set_execution_stopped_at
stop_sequence-record_stop_of now none t = refl
stop_sequence-record_stop_of now (some c) t = ground arith

pub group-finish_container_change :
    (now : Time) (i : ℕ) (status : ContainerStatus) (m : ManagedTask)
    → group (finish_container_change now i status m) ≡ group m
unfolding finish_container_change
group-finish_container_change now i status m =
    let m1 = with_task (record_stop_of now (get_elem? m.task.containers i)) m in
    group-update_and_report now _
    ∙ group-emit_container_event i "" _
    ∙ group-send (telemetry_event i status) m1 refl
    ∙ group-with_task _ m (stop_sequence-record_stop_of now (get_elem? m.task.containers i) m.task)
