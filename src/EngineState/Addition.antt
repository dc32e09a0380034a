-- ===== src/EngineState/Addition.antt =====
-- What is found of a container that is added.
use amazon_ecs_agent.Common.{
  ◌≡◌, arith, false, if◌then◌else◌, String, str_eq, str_eq_iff, str_eq_refl, none, some, insert,
  string_key, lookup-insert, lookup-remove,
}
use amazon_ecs_agent.EngineState.{
  TaskPointer, DockerContainer, DockerTaskEngineState, has, container_by_id, task_by_arn,
  task_by_id, add_container, store_id_to_container_task, store_v3_endpoint_id,
}

-- A container with a Docker id, which is not its name, is found by the id once it is added, and its
-- name, which was its key before it had an id, is a key no more. Every other id leads where it led.
pub container_by_id-add_container :
    (c : DockerContainer) (task : TaskPointer) (id : String) (s : DockerTaskEngineState)
    → str_eq c.docker_id "" ≡ false
    → str_eq c.docker_name c.docker_id ≡ false
    → container_by_id id (add_container (some c) (some task) s) ≡ (
        if str_eq c.docker_id id
        then some c
        else if str_eq c.docker_name id
        then none
        else container_by_id id s)
unfolding container_by_id add_container store_id_to_container_task store_v3_endpoint_id
container_by_id-add_container c task id s named differs = ground (
  arith,
  lookup-insert c.docker_id id c s.id_to_container,
  lookup-remove c.docker_name id (insert c.docker_id c s.id_to_container),
  str_eq_iff c.docker_id id,
  str_eq_iff c.docker_name id,
  str_eq_iff c.docker_name c.docker_id,
)

-- The task of a container that was added with its Docker id is the one that is stored under its ARN,
-- which is the task that was stored there before, if any.
pub task_by_id-add_container :
    (c : DockerContainer) (task : TaskPointer) (s : DockerTaskEngineState)
    → str_eq c.docker_id "" ≡ false
    → str_eq c.docker_name c.docker_id ≡ false
    → task_by_id c.docker_id (add_container (some c) (some task) s)
      ≡ (if has (task_by_arn task.arn s) then task_by_arn task.arn s else some task)
unfolding task_by_id task_by_arn add_container store_id_to_container_task store_v3_endpoint_id
task_by_id-add_container c task s named differs = ground (
  arith,
  lookup-insert c.docker_id c.docker_id task.arn s.id_to_task,
  lookup-remove c.docker_name c.docker_id (insert c.docker_id task.arn s.id_to_task),
  str_eq_refl c.docker_id,
  lookup-insert task.arn task.arn task s.tasks,
  str_eq_refl task.arn,
)
