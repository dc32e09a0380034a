-- ===== src/Task/Examples.antt =====
-- Status updates of a task with two containers.
use amazon_ecs_agent.Common.{
  refl, Option, none, some, map, ◌++◌, String, List, ◌<◌, ◌≡◌, ◌⊎◌, true, false, [], ◌∷◌, All,
  if◌then◌else◌,
}
use amazon_ecs_agent.Status.TaskStatus.{task_stopped}
use amazon_ecs_agent.Samples.{container, web, task}
use amazon_ecs_agent.Task.{Task, update_status, update_desired_status, essential_container_terminal}
use amazon_ecs_agent.Container.{Container}
use amazon_ecs_agent.Task.{
  initialize_container_ordering, volume_sources, link_names,
  add_network_resource_provisioning_dependency,
}
use amazon_ecs_agent.Task.Ordering.{
  first_problem, all_names, is_problem, ordered, initialize_container_ordering_lem,
}
use amazon_ecs_agent.Task.PauseSetup
use amazon_ecs_agent.Task.PauseSetup.{PauseConfig, unable_to_decode}
use amazon_ecs_agent.Task.Known.{IsLeast, update_status_advances}
use amazon_ecs_agent.Task.Desired.{Follows, ResourceFollows, AllRaised, update_desired_status_lem}

-- One container runs and the other is created.
abbrev starting : Task
starting = task (container "db" [] 3 3 ∷ container "web" [] 2 3 ∷ []) 0 3

update_status_advances_example :
    let (t, changed) = update_status 7 starting in
    ((changed ≡ false) × (t.known_status ≡ starting.known_status))
    ⊎ ((changed ≡ true)
        × (starting.known_status < t.known_status)
        × IsLeast t.known_status starting.containers)
update_status_advances_example = update_status_advances 7 starting

-- An essential container has stopped.
abbrev stopping : Task
stopping = task (container "db" [] 5 3 ∷ web ∷ []) 3 3

update_desired_status_lem_example :
    let t = update_desired_status stopping in
    (t.desired_status ≡ (
      if essential_container_terminal stopping.containers
      then task_stopped
      else stopping.desired_status))
    × All (Follows t.desired_status) t.containers
    × All (ResourceFollows t.desired_status) t.resources
    × AllRaised stopping.containers t.containers
update_desired_status_lem_example = update_desired_status_lem stopping

-- The web server has a link to the database, and mounts its volumes.
abbrev linked : List Container
linked =
    container "db" [] 0 3
    ∷ record (container "web" [] 0 3) {
      links = "db:storage" ∷ [];
      volumes_from = record { source_container = "db"; read_only = true } ∷ [];
    }
    ∷ []

abbrev split : String → List String
split link = "db" ∷ "storage" ∷ []

initialize_container_ordering_lem_example :
    let problem =
      first_problem linked
        (all_names volume_sources linked ++ all_names (link_names split) linked) in
    ((initialize_container_ordering split linked).1 ≡ problem)
    × ((is_problem problem ≡ true)
        ⊎ ((initialize_container_ordering split linked).0 ≡ map (ordered split) linked))
initialize_container_ordering_lem_example = initialize_container_ordering_lem split linked

-- The web server is the proxy, and its configuration says its user.
abbrev mesh : PauseConfig
mesh = record {
  app_mesh_container_name = some "web";
  pause_container_image_name = "pause";
  default_pause_container_image_name = "amazon/amazon-ecs-pause";
  docker_config = λ c. some "{}";
}

abbrev decode : String → Option String
decode text = some "1337"

mesh_user :
    (add_network_resource_provisioning_dependency decode mesh true linked).user ≡ some "1337"
unfolding add_network_resource_provisioning_dependency PauseSetup.find_proxy_user
    PauseSetup.pause_user PauseSetup.if_user_found
mesh_user = refl

mesh_fails :
    (add_network_resource_provisioning_dependency (λ text. none) mesh true linked).error
    ≡ some unable_to_decode
unfolding add_network_resource_provisioning_dependency PauseSetup.find_proxy_user
    PauseSetup.pause_user PauseSetup.if_user_found
mesh_fails = refl
