-- ===== src/ManagedTask/Writes.antt =====
-- What the single writes of agent/engine/task_manager.go do to containers' known statuses.
use amazon_ecs_agent.Common.{
  ℕ, zero, suc, Bool, true, false, ◌≡◌, refl, ap, ap₂, ◌∙◌, arith, Option, none, some, List, [],
  ◌∷◌, map, String,
}
use amazon_ecs_agent.Status.ContainerStatus.{ContainerStatus}
use amazon_ecs_agent.Status.TaskStatus.{TaskStatus}
use amazon_ecs_agent.Container
use amazon_ecs_agent.Container.{
  Container, NamedError, Time, set_created_at, set_started_at, set_finished_at, set_health_status,
  update_applied_status,
}
use amazon_ecs_agent.Task.{
  Task, update_status, update_desired_status, update_task_known_status, update_task_desired_status,
  raise_container, record_execution_stopped_at, update_container_desired_status,
  set_execution_stopped_at,
}
use amazon_ecs_agent.ManagedTask.Types.{
  ManagedTask, DockerContainerMetadata, get_elem?, modify, send, with_task, with_container,
}
use amazon_ecs_agent.ManagedTask.Events.{
  finish_container_change, update_and_report, report_task, record_stop_of, emit_task_event,
  emit_container_event, update_container_metadata, set_applying_error, give_up_container,
}

-- The known statuses of the containers, in their order.
abbrev pub known_statuses : ManagedTask → List ContainerStatus
known_statuses m = map (λ c. c.known_status) m.task.containers

abbrev pub known : Container → ContainerStatus
known c = c.known_status

-- A write of one container, by its effect on the known status.
pub map-modify :
    (cs : List Container) (i : ℕ) (f : Container → Container)
    (g : ContainerStatus → ContainerStatus)
    → ((c : Container) → known (f c) ≡ g (known c))
    → map known (modify cs i f) ≡ modify (map known cs) i g
map-modify [] i f g h = refl
map-modify (c ∷ cs) zero f g h = ap (λ k. k ∷ map known cs) (h c)
map-modify (c ∷ cs) (suc i) f g h = ap (◌∷◌ (known c)) (map-modify cs i f g h)

pub modify_id : (ks : List ContainerStatus) (i : ℕ) → modify ks i (λ k. k) ≡ ks
modify_id [] i = refl
modify_id (k ∷ ks) zero = refl
modify_id (k ∷ ks) (suc i) = ap (◌∷◌ k) (modify_id ks i)

pub modify_twice :
    (ks : List ContainerStatus) (i : ℕ) (a b : ContainerStatus)
    → modify (modify ks i (λ _. a)) i (λ _. b) ≡ modify ks i (λ _. b)
modify_twice [] i a b = refl
modify_twice (k ∷ ks) zero a b = refl
modify_twice (k ∷ ks) (suc i) a b = ap (◌∷◌ k) (modify_twice ks i a b)

pub modify_back :
    (cs : List Container) (i : ℕ) (c : Container)
    → get_elem? cs i ≡ some c
    → modify (map known cs) i (λ _. known c) ≡ map known cs
modify_back [] i c h = refl
modify_back (d ∷ cs) zero c h = ap (λ k. k ∷ map known cs) (ground arith)
modify_back (d ∷ cs) (suc i) c h = ap (◌∷◌ (known d)) (modify_back cs i c h)

-- Raising desired statuses leaves the known ones.
pub map_raise :
    (desired : TaskStatus) (cs : List Container)
    → map known (map (raise_container desired) cs) ≡ map known cs
unfolding raise_container Container.set_desired_status
map_raise desired [] = refl
map_raise desired (c ∷ cs) = ap₂ ◌∷◌ (ground arith) (map_raise desired cs)

pub containers-update_task_known_status :
    (now : Time) (task : Task) → (update_task_known_status now task).0.containers ≡ task.containers
unfolding update_task_known_status
containers-update_task_known_status now task = ground arith

pub containers-update_task_desired_status :
    (task : Task) → (update_task_desired_status task).containers ≡ task.containers
unfolding update_task_desired_status
containers-update_task_desired_status task = ground arith

pub known-update_desired_status :
    (task : Task) → map known (update_desired_status task).containers ≡ map known task.containers
unfolding update_desired_status update_container_desired_status
known-update_desired_status task =
    let t = update_task_desired_status task in
    map_raise t.desired_status t.containers
    ∙ ap (map known) (containers-update_task_desired_status task)

pub known-update_status :
    (now : Time) (task : Task)
    → map known (update_status now task).0.containers ≡ map known task.containers
unfolding update_status
known-update_status now task =
    known-update_desired_status (update_task_known_status now task).0
    ∙ ap (map known) (containers-update_task_known_status now task)

pub task-report_task : (b : Bool) (m : ManagedTask) → (report_task b m).task ≡ m.task
unfolding report_task emit_task_event send
task-report_task false m = refl
task-report_task true m = ground arith

pub known_statuses-update_and_report :
    (now : Time) (m : ManagedTask) → known_statuses (update_and_report now m) ≡ known_statuses m
unfolding update_and_report
known_statuses-update_and_report now m =
    let (t, changed) = update_status now m.task in
    ap (λ (u : Task). map known u.containers) (task-report_task changed (record m { task = t }))
    ∙ known-update_status now m.task

pub task-emit_container_event :
    (i : ℕ) (reason : String) (m : ManagedTask) → (emit_container_event i reason m).task ≡ m.task
unfolding emit_container_event send
task-emit_container_event i reason m = ground arith

pub containers-record_stop_of :
    (now : Time) (o : Option Container) (t : Task)
    → (record_stop_of now o t).containers ≡ t.containers
unfolding record_execution_stopped_at set_execution_stopped_at
containers-record_stop_of now none t = refl
containers-record_stop_of now (some c) t = ground arith

pub known_statuses-finish_container_change :
    (now : Time) (i : ℕ) (status : ContainerStatus) (m : ManagedTask)
    → known_statuses (finish_container_change now i status m) ≡ known_statuses m
unfolding finish_container_change send with_task
known_statuses-finish_container_change now i status m =
    known_statuses-update_and_report now _
    ∙ ap (λ (u : Task). map known u.containers) (task-emit_container_event i "" _)
    ∙ ap (map known) (containers-record_stop_of now (get_elem? m.task.containers i) m.task)

pub known-set_known_status :
    (status : ContainerStatus) (c : Container)
    → known (Container.set_known_status status c) ≡ status
unfolding Container.set_known_status
known-set_known_status status c = ground arith

pub known-give_up_container :
    (status : ContainerStatus) (c : Container) → known (give_up_container status c) ≡ status
unfolding give_up_container Container.set_desired_status
known-give_up_container status c = known-set_known_status status c

pub known-set_applying_error :
    (e : NamedError) (c : Container) → known (set_applying_error e c) ≡ known c
unfolding set_applying_error
known-set_applying_error e c = refl

pub known-update_container_metadata :
    (now : Time) (md : DockerContainerMetadata) (c : Container)
    → known (update_container_metadata now md c) ≡ known c
unfolding update_container_metadata set_created_at set_started_at set_finished_at set_health_status
known-update_container_metadata now md c = ground arith

pub known_statuses-with_container :
    (i : ℕ) (f : Container → Container) (g : ContainerStatus → ContainerStatus) (m : ManagedTask)
    → ((c : Container) → known (f c) ≡ g (known c))
    → known_statuses (with_container i f m) ≡ modify (known_statuses m) i g
unfolding with_container
known_statuses-with_container i f g m h = map-modify m.task.containers i f g h
