-- ===== src/Task/Desired.antt =====
-- Desired statuses: a task with an essential container that is stopped, or is to stop, is to stop,
-- and its containers and resources follow its desired status and never turn back.
use amazon_ecs_agent.Common.{
  ◌≤◌, ◌<◌, false, ◌≡◌, refl, ap₂, subst, ◌≢◌, ◌⊎◌, inl, arith, List, [], ◌∷◌, map, All, ◌==◌,
  if◌then◌else◌, ◌&&◌, ◌||◌,
}
use native.Mathlib.Decide.{ℕ_discrete}
use amazon_ecs_agent.Status.TaskStatus.{task_stopped, task_running, TaskStatus}
use amazon_ecs_agent.Status.ContainerStatus.{container_stopped}
use amazon_ecs_agent.Status.Mapping.{map_task_to_container_status}
use amazon_ecs_agent.Container
use amazon_ecs_agent.Container.{
  Container, get_steady_state_status, known_terminal, desired_terminal,
}
use amazon_ecs_agent.Resource
use amazon_ecs_agent.Resource.{TaskResource, resource_created, resource_removed}
use amazon_ecs_agent.Task.Types.{Task}
use amazon_ecs_agent.Task.Update.{
  essential_container_terminal, update_task_desired_status, raise_container,
  update_container_desired_status, raise_resource, update_resource_desired_status,
  update_desired_status,
}

-- A container has the goal that its task's desired status gives it, or one further on.
abbrev pub Follows : TaskStatus → Container → Type 0
Follows desired c =
    map_task_to_container_status desired (get_steady_state_status c) ≤ c.desired_status

-- A resource is to be created for a task that is to run, and otherwise to be removed.
abbrev pub ResourceFollows : TaskStatus → TaskResource → Type 0
ResourceFollows desired r =
    (if desired == task_running then resource_created else resource_removed) ≤ r.desired_status

-- Only the desired status differs, and it is not lower.
abbrev pub Raised : Container → Container → Type 0
Raised before after =
    (after ≡ Container.set_desired_status after.desired_status before)
    × (before.desired_status ≤ after.desired_status)

-- The two lists have the same length, and each element of the second is raised from its partner.
abbrev pub AllRaised : List Container → List Container → Type 0
AllRaised [] [] = Unit
AllRaised (b ∷ bs) (a ∷ as_) = Raised b a × AllRaised bs as_
AllRaised _ _ = ⊥

raise_container-Follows :
    (desired : TaskStatus) (c : Container) → Follows desired (raise_container desired c)
unfolding raise_container
raise_container-Follows desired c = ground arith

raise_container-Raised :
    (desired : TaskStatus) (c : Container) → Raised c (raise_container desired c)
unfolding raise_container Container.set_desired_status
raise_container-Raised desired c = ground arith

raise_resource-Follows :
    (desired : TaskStatus) (r : TaskResource) → ResourceFollows desired (raise_resource desired r)
unfolding raise_resource Resource.set_desired_status
raise_resource-Follows desired r = ground arith

map-raise_container :
    (desired : TaskStatus) (cs : List Container)
    → All (Follows desired) (map (raise_container desired) cs)
      × AllRaised cs (map (raise_container desired) cs)
map-raise_container desired [] = (tt, tt)
map-raise_container desired (c ∷ cs) =
    let (follow, raised) = map-raise_container desired cs in
    ((raise_container-Follows desired c, follow), (raise_container-Raised desired c, raised))

map-raise_resource :
    (desired : TaskStatus) (rs : List TaskResource)
    → All (ResourceFollows desired) (map (raise_resource desired) rs)
map-raise_resource desired [] = tt
map-raise_resource desired (r ∷ rs) =
    (raise_resource-Follows desired r, map-raise_resource desired rs)

update_task_desired_status_lem :
    (task : Task)
    → (update_task_desired_status task).desired_status
      ≡ (if essential_container_terminal task.containers then task_stopped else task.desired_status)
unfolding update_task_desired_status
update_task_desired_status_lem task = ground arith

containers-update_task_desired_status :
    (task : Task) → (update_task_desired_status task).containers ≡ task.containers
unfolding update_task_desired_status
containers-update_task_desired_status task = ground arith

-- After `UpdateDesiredStatus` the task is to stop if an essential container was stopped or was to
-- stop, and is to go where it was to go otherwise; every container and resource is to go at least
-- as far as the task's desired status says; and nothing changed in the containers but desired
-- statuses that were raised.
pub update_desired_status_lem :
    (task : Task)
    → let t = update_desired_status task in
      (t.desired_status ≡ (
        if essential_container_terminal task.containers then task_stopped else task.desired_status))
      × All (Follows t.desired_status) t.containers
      × All (ResourceFollows t.desired_status) t.resources
      × AllRaised task.containers t.containers
unfolding update_desired_status update_container_desired_status update_resource_desired_status
update_desired_status_lem task =
    let t = update_task_desired_status task in
    let (follow, raised) = map-raise_container t.desired_status t.containers in
    (
      update_task_desired_status_lem task,
      follow,
      map-raise_resource t.desired_status t.resources,
      subst
          (λ (cs : List Container).
            AllRaised cs (map (raise_container t.desired_status) t.containers))
          (containers-update_task_desired_status task) raised,
    )

raise_container_again :
    (desired : TaskStatus) (c : Container)
    → raise_container desired (raise_container desired c) ≡ raise_container desired c
unfolding raise_container Container.set_desired_status
raise_container_again desired c = ground arith

map-raise_container_again :
    (desired : TaskStatus) (cs : List Container)
    → map (raise_container desired) (map (raise_container desired) cs)
      ≡ map (raise_container desired) cs
map-raise_container_again desired [] = refl
map-raise_container_again desired (c ∷ cs) =
    ap₂ ◌∷◌ (raise_container_again desired c) (map-raise_container_again desired cs)

raise_resource_again :
    (desired : TaskStatus) (r : TaskResource)
    → raise_resource desired (raise_resource desired r) ≡ raise_resource desired r
unfolding raise_resource Resource.set_desired_status
raise_resource_again desired r = ground arith

map-raise_resource_again :
    (desired : TaskStatus) (rs : List TaskResource)
    → map (raise_resource desired) (map (raise_resource desired) rs)
      ≡ map (raise_resource desired) rs
map-raise_resource_again desired [] = refl
map-raise_resource_again desired (r ∷ rs) =
    ap₂ ◌∷◌ (raise_resource_again desired r) (map-raise_resource_again desired rs)

-- The container's steady state comes before STOPPED.
abbrev pub IsSteadyBeforeStopped : Container → Type 0
IsSteadyBeforeStopped c = get_steady_state_status c < container_stopped

raised_terminal :
    (desired : TaskStatus) (c : Container)
    → IsSteadyBeforeStopped c
    → desired ≢ task_stopped
    → let d = raise_container desired c in
      (d.essential && (known_terminal d || desired_terminal d))
      ≡ (c.essential && (known_terminal c || desired_terminal c))
unfolding raise_container Container.set_desired_status map_task_to_container_status
raised_terminal desired c h n = ground arith

essential_container_terminal-raise :
    (desired : TaskStatus) (cs : List Container)
    → All IsSteadyBeforeStopped cs
    → desired ≢ task_stopped
    → essential_container_terminal (map (raise_container desired) cs)
      ≡ essential_container_terminal cs
unfolding essential_container_terminal
essential_container_terminal-raise desired [] h n = refl
essential_container_terminal-raise desired (c ∷ cs) (h, hs) n =
    ap₂ ◌||◌ (raised_terminal desired c h n) (essential_container_terminal-raise desired cs hs n)

-- A task that need not turn to STOPPED, or has, is left by the first step.
update_task_desired_status_fixed :
    (task : Task)
    → (task.desired_status ≡ task_stopped) ⊎ (essential_container_terminal task.containers ≡ false)
    → update_task_desired_status task ≡ task
unfolding update_task_desired_status
update_task_desired_status_fixed task h = ground arith

update_desired_status_fixed :
    (task : Task)
    → (task.desired_status ≡ task_stopped) ⊎ (essential_container_terminal task.containers ≡ false)
    → map (raise_container task.desired_status) task.containers ≡ task.containers
    → map (raise_resource task.desired_status) task.resources ≡ task.resources
    → update_desired_status task ≡ task
unfolding update_desired_status update_container_desired_status update_resource_desired_status
update_desired_status_fixed task h c r = ground (arith, update_task_desired_status_fixed task h)

settled :
    (task : Task)
    → All IsSteadyBeforeStopped task.containers
    → let t = update_desired_status task in
      (t.desired_status ≡ task_stopped) ⊎ (essential_container_terminal t.containers ≡ false)
unfolding update_desired_status update_container_desired_status update_task_desired_status
settled task h = elim (ℕ_discrete task.desired_status task_stopped) [
  | yes stopped ↦ inl (ground arith)
  | no runs ↦
      ground (arith, essential_container_terminal-raise task.desired_status task.containers h runs)
]

-- `UpdateDesiredStatus` may be called any number of times: a second call changes nothing. No
-- container has STOPPED for its steady state.
pub update_desired_status_idempotent :
    (task : Task)
    → All IsSteadyBeforeStopped task.containers
    → update_desired_status (update_desired_status task) ≡ update_desired_status task
update_desired_status_idempotent task h =
    update_desired_status_fixed (update_desired_status task) (settled task h)
      (unfold update_desired_status update_container_desired_status in
        map-raise_container_again _ _)
      (unfold update_desired_status update_resource_desired_status in map-raise_resource_again _ _)
