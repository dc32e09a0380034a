-- ===== src/Task/Known.antt =====
-- A task's known status only moves forward, to the least that its containers have reached.
use amazon_ecs_agent.Common.{
  false, ◌≤◌, ◌<◌, true, ◌≡◌, refl, sym, subst, ◌⊎◌, inl, inr, arith, none, some, List, [], ◌∷◌,
  Option-cases, Bool-cases, All, In, ltb, ltb→lt, ◌&&◌, if◌then◌else◌,
}
use amazon_ecs_agent.Status.TaskStatus.{task_stopped, task_zombie, task_status_none, TaskStatus}
use amazon_ecs_agent.Status.ContainerStatus.{ContainerStatus, container_zombie}
use amazon_ecs_agent.Status.Mapping.{map_container_to_task_status}
use amazon_ecs_agent.Container.{Container, Time, is_known_steady_state, get_steady_state_status}
use amazon_ecs_agent.Task.Types.{Task}
use amazon_ecs_agent.Task.Update.{
  earliest_container, essential_container_stopped, task_status_of, least_task_status,
  get_earliest_known_task_status, update_task_known_status, update_status, update_desired_status,
  update_task_desired_status,
}

map_bounded :
    (known steady : ContainerStatus) → map_container_to_task_status known steady ≤ task_stopped
unfolding map_container_to_task_status
map_bounded known steady = ground arith

-- `m` is the least status of the list.
abbrev pub IsReached : TaskStatus → List Container → Type 0
IsReached m cs = (c : Container) × In c cs × (task_status_of c ≡ m)

abbrev pub IsLeast : TaskStatus → List Container → Type 0
IsLeast m cs = All (λ c. m ≤ task_status_of c) cs × IsReached m cs

least_task_status_le :
    (e : TaskStatus) (cs : List Container)
    → (least_task_status e cs ≤ e) × All (λ c. least_task_status e cs ≤ task_status_of c) cs
unfolding least_task_status
least_task_status_le e [] = (omega arith, tt)
least_task_status_le e (c ∷ cs) =
    let (low, all) =
      least_task_status_le (if ltb (task_status_of c) e then task_status_of c else e) cs in
    (ground arith, (ground arith, all))

least_task_status_reached :
    (e : TaskStatus) (cs : List Container)
    → (least_task_status e cs ≡ e)
      ⊎ ((c : Container) × In c cs × (task_status_of c ≡ least_task_status e cs))
unfolding least_task_status
least_task_status_reached e [] = inl refl
least_task_status_reached e (c ∷ cs) = elim (Bool-cases (ltb (task_status_of c) e)) [
  | inl less ↦ elim (least_task_status_reached (task_status_of c) cs) [
    | inl here ↦ inr (c, inl refl, rw less (sym here))
    | inr (d, m, eq) ↦ inr (d, inr m, rw less eq)
  ]
  | inr same ↦ elim (least_task_status_reached e cs) [
    | inl here ↦ inl (rw same here)
    | inr (d, m, eq) ↦ inr (d, inr m, rw same eq)
  ]
]

get_earliest_IsLeast :
    (c : Container) (cs : List Container)
    → IsLeast (get_earliest_known_task_status (c ∷ cs)) (c ∷ cs)
unfolding get_earliest_known_task_status
get_earliest_IsLeast c cs =
    let (low, all) = least_task_status_le task_zombie (c ∷ cs) in
    (
      all,
      elim (least_task_status_reached task_zombie (c ∷ cs)) [
        | inl none_less ↦ absurd (
            omega (arith, map_bounded c.known_status (get_steady_state_status c), all.0, none_less))
        | inr found ↦ found
      ],
    )

found_IsLeast :
    (cs : List Container) (c : Container)
    → earliest_container container_zombie none cs ≡ some c
    → IsLeast (get_earliest_known_task_status cs) cs
unfolding earliest_container
found_IsLeast [] c h = absurd (ground arith)
found_IsLeast (d ∷ cs) c h = get_earliest_IsLeast d cs

abbrev Stays : Task → Task × TaskStatus → Type 0
Stays task r = (r.0 ≡ task) × (r.1 ≡ task_status_none)

abbrev Advances : Task → Task × TaskStatus → Type 0
Advances task r =
    (task.known_status < r.0.known_status)
    × (r.1 ≡ r.0.known_status)
    × IsLeast r.0.known_status task.containers

-- The known status of the task stays, or moves forward to the least task status of its
-- containers, and the value that is returned is NONE or that status.
pub update_task_known_status_cases :
    (now : Time) (task : Task)
    → Stays task (update_task_known_status now task)
      ⊎ Advances task (update_task_known_status now task)
update_task_known_status_cases now task =
    elim (Option-cases (earliest_container container_zombie none task.containers)) [
      | inl e ↦ inl (
          unfold update_task_known_status in
          (rw (e, update_task_known_status), rw (e, update_task_known_status)))
      | inr (c, e) ↦
          elim (Bool-cases
            (is_known_steady_state c && essential_container_stopped task.containers)) [
              | inl waits ↦ inl (unfold update_task_known_status in (ground arith, ground arith))
              | inr ready ↦
                  elim (Bool-cases
                    (ltb task.known_status (get_earliest_known_task_status task.containers))) [
                      | inr old ↦
                          inl (unfold update_task_known_status in (ground arith, ground arith))
                      | inl new ↦
                          let sets : (update_task_known_status now task).0.known_status
                              ≡ get_earliest_known_task_status task.containers =
                            unfold update_task_known_status in ground arith in
                          inr (
                            rw sets (
                                omega (
                                  arith,
                                  ltb→lt task.known_status
                                      (get_earliest_known_task_status task.containers) new,
                                )),
                            unfold update_task_known_status in ground arith,
                            rw sets (found_IsLeast task.containers c e),
                          )
                    ]
            ]
    ]

known_status-update_desired_status :
    (task : Task) → (update_desired_status task).known_status ≡ task.known_status
unfolding update_desired_status update_task_desired_status
known_status-update_desired_status task = ground arith

-- `UpdateStatus` reports a change exactly when the task's known status moved forward; it never
-- moves it back, and where it moves it the new status is the least that the task's containers'
-- known statuses stand for.
pub update_status_advances :
    (now : Time) (task : Task)
    → let (t, changed) = update_status now task in
      ((changed ≡ false) × (t.known_status ≡ task.known_status))
      ⊎ ((changed ≡ true)
          × (task.known_status < t.known_status)
          × IsLeast t.known_status task.containers)
unfolding update_status update_desired_status update_task_desired_status
update_status_advances now task = elim (update_task_known_status_cases now task) [
  | inl (same, change) ↦ inl (ground arith, ground arith)
  | inr (less, change, least) ↦ inr (
    ground arith,
    ground arith,
    subst (λ (k : TaskStatus). IsLeast k task.containers)
        (sym (known_status-update_desired_status (update_task_known_status now task).0)) least,
  )
]
