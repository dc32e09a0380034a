-- ===== src/EngineState/Removal.antt =====
-- What is left of a task that is removed.
use amazon_ecs_agent.Common.{
  ◌≡◌, ◌∙◌, refl, arith, any, Bool, if◌then◌else◌, String, str_eq, str_eq_refl, Option, none, some,
  List, [], ◌∷◌, lookup, remove, string_key, lookup-remove,
}
use amazon_ecs_agent.EngineState.{
  TaskPointer, DockerContainer, DockerTaskEngineState, container_key, container_by_id, task_by_arn,
  container_map_by_arn, remove_task, remove_containers, remove_id_to_container_task,
  remove_v3_endpoint_id, remove_ip, task_to_ip, remove_container_map,
}

-- Some container of the list has the key.
abbrev pub keyed : String → List (String × DockerContainer) → Bool
keyed id cs = any (λ (e : String × DockerContainer). str_eq (container_key e.1) id) cs

containers-remove_containers :
    (cs : List (String × DockerContainer)) (id : String) (s : DockerTaskEngineState)
    → (lookup id (remove_containers cs s).id_to_container
        ≡ (if keyed id cs then none else lookup id s.id_to_container))
      × (lookup id (remove_containers cs s).id_to_task
          ≡ (if keyed id cs then none else lookup id s.id_to_task))
unfolding remove_containers remove_id_to_container_task remove_v3_endpoint_id any
containers-remove_containers [] id s = (refl, refl)
containers-remove_containers ((name, c) ∷ cs) id s =
    let t = remove_v3_endpoint_id c.v3_endpoint_id (remove_id_to_container_task c s) in
    ground (
      arith,
      containers-remove_containers cs id t,
      lookup-remove (container_key c) id s.id_to_container,
      lookup-remove (container_key c) id s.id_to_task,
    )

tasks-remove_containers :
    (cs : List (String × DockerContainer)) (s : DockerTaskEngineState)
    → ((remove_containers cs s).tasks ≡ s.tasks)
      × ((remove_containers cs s).task_to_id ≡ s.task_to_id)
unfolding remove_containers remove_id_to_container_task remove_v3_endpoint_id
tasks-remove_containers [] s = (refl, refl)
tasks-remove_containers ((name, c) ∷ cs) s = ground (
  arith,
  tasks-remove_containers cs
      (remove_v3_endpoint_id c.v3_endpoint_id (remove_id_to_container_task c s)),
)

abbrev pub IsRemoved :
    TaskPointer
    → List (String × DockerContainer)
    → String
    → DockerTaskEngineState
    → DockerTaskEngineState
    → Type 0
IsRemoved task containers id s t =
    (task_by_arn task.arn t ≡ none)
    × (container_map_by_arn task.arn t ≡ none)
    × (container_by_id id t ≡ (if keyed id containers then none else container_by_id id s))

remove_containers-IsRemoved :
    (task : TaskPointer) (containers : List (String × DockerContainer)) (id : String)
    (s u : DockerTaskEngineState)
    → u.tasks ≡ remove task.arn s.tasks
    → u.task_to_id ≡ remove task.arn s.task_to_id
    → u.id_to_container ≡ s.id_to_container
    → IsRemoved task containers id s (remove_containers containers u)
unfolding task_by_arn container_map_by_arn container_by_id
remove_containers-IsRemoved task containers id s u tasks maps ids =
    let (same_tasks, same_maps) = tasks-remove_containers containers u in
    (
      rw (same_tasks, tasks, lookup-remove, str_eq_refl) refl,
      rw (same_maps, maps, lookup-remove, str_eq_refl) refl,
      (containers-remove_containers containers id u).0 ∙ rw ids refl,
    )

found-IsRemoved :
    (task : TaskPointer) (containers : List (String × DockerContainer)) (id : String)
    (s : DockerTaskEngineState) (o : Option String)
    → lookup task.arn s.task_to_id ≡ some containers
    → let s2 = remove_ip o (record s { tasks = remove task.arn s.tasks }) in
      IsRemoved task containers id s
        (remove_container_map task.arn (lookup task.arn s2.task_to_id) s2)
found-IsRemoved task containers id s none mapped =
    rw mapped (remove_containers-IsRemoved task containers id s _ refl refl refl)
found-IsRemoved task containers id s (some ip) mapped =
    rw mapped (remove_containers-IsRemoved task containers id s _ refl refl refl)

-- A task that is stored under its ARN, with its map of containers, is gone after its removal: it is
-- not found by its ARN, its map is not, and none of its containers is found by its Docker id, or by
-- its name where it has no id. Every other id leads to the container that it led to.
pub remove_task_lem :
    (task : TaskPointer) (containers : List (String × DockerContainer)) (id : String)
    (s : DockerTaskEngineState)
    → lookup task.arn s.tasks ≡ some task
    → lookup task.arn s.task_to_id ≡ some containers
    → let t = remove_task task s in
      (task_by_arn task.arn t ≡ none)
      × (container_map_by_arn task.arn t ≡ none)
      × (container_by_id id t ≡ (if keyed id containers then none else container_by_id id s))
unfolding remove_task
remove_task_lem task containers id s found mapped =
    rw found (found-IsRemoved task containers id s (task_to_ip task.arn s.ip_to_task) mapped)
