-- ===== src/EngineState/Examples.antt =====
-- A task with one container, which is added under its name, gets its Docker id, and is removed.
use amazon_ecs_agent.Common.{
  ◌≡◌, refl, str_eq, none, some, List, [], ◌∷◌, if◌then◌else◌, string_key, lookup, insert, remove,
  lookup, insert, remove,
}
use amazon_ecs_agent.EngineState.{
  TaskPointer, DockerContainer, DockerTaskEngineState, new_task_engine_state, container_by_id,
  task_by_arn, container_map_by_arn, add_task, add_container, remove_task, add_task_ip_address,
  get_task_by_ip_address, store_id_to_container_task, store_v3_endpoint_id, remove_containers,
  task_to_ip,
}
use amazon_ecs_agent.EngineState.Changes.{
  Change, task_added, container_added, ip_added, task_removed, apply, run,
}
use amazon_ecs_agent.EngineState.Consistency.{IsConsistent}
use amazon_ecs_agent.EngineState.Runs.{run-IsConsistent}
use amazon_ecs_agent.EngineState.Removal.{keyed, remove_task_lem}
use amazon_ecs_agent.EngineState.Addition.{container_by_id-add_container}

abbrev task : TaskPointer
task = record { arn = "task"; address = 1 }

abbrev unnamed : DockerContainer
unnamed = record { docker_id = ""; docker_name = "ecs-db"; name = "db"; v3_endpoint_id = "v3" }

abbrev created : DockerContainer
created = record { docker_id = "4f2a"; docker_name = "ecs-db"; name = "db"; v3_endpoint_id = "v3" }

abbrev changes : List Change
changes =
    task_added task
    ∷ container_added (some unnamed) (some task)
    ∷ container_added (some created) (some task)
    ∷ []

run-IsConsistent_example : IsConsistent (run changes new_task_engine_state)
run-IsConsistent_example = run-IsConsistent changes

abbrev before : DockerTaskEngineState
before =
    run (task_added task ∷ container_added (some unnamed) (some task) ∷ []) new_task_engine_state

container_by_id-add_container_example :
    container_by_id "ecs-db" (add_container (some created) (some task) before) ≡ (
      if str_eq "4f2a" "ecs-db"
      then some created
      else if str_eq "ecs-db" "ecs-db"
      then none
      else container_by_id "ecs-db" before)
container_by_id-add_container_example =
    container_by_id-add_container created task "ecs-db" before refl refl

abbrev running : DockerTaskEngineState
running = run changes new_task_engine_state

running_task : lookup "task" running.tasks ≡ some task
unfolding run apply new_task_engine_state add_task add_container store_id_to_container_task
    store_v3_endpoint_id lookup insert remove
running_task = refl

running_containers : lookup "task" running.task_to_id ≡ some (("db", created) ∷ [])
unfolding run apply new_task_engine_state add_task add_container store_id_to_container_task
    store_v3_endpoint_id lookup insert remove
running_containers = refl

remove_task_lem_example :
    let t = remove_task task running in
    (task_by_arn "task" t ≡ none)
    × (container_map_by_arn "task" t ≡ none)
    × (container_by_id "4f2a" t
        ≡ (if keyed "4f2a" (("db", created) ∷ []) then none else container_by_id "4f2a" running))
remove_task_lem_example =
    remove_task_lem task (("db", created) ∷ []) "4f2a" running running_task running_containers

-- A task that has two addresses keeps one of them when it is removed.
address_left :
    get_task_by_ip_address "10.0.0.2" (
      run
        (task_added task
          ∷ ip_added "10.0.0.1" "task"
          ∷ ip_added "10.0.0.2" "task"
          ∷ task_removed task
          ∷ [])
        new_task_engine_state)
    ≡ some "task"
unfolding get_task_by_ip_address run apply new_task_engine_state add_task add_task_ip_address
    remove_task remove_containers task_to_ip lookup insert remove
address_left = refl
