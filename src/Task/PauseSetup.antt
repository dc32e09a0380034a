-- ===== src/Task/PauseSetup.antt =====
-- agent/api/task/task.go: the pause containers that a task gets when it is added, for its network and for
-- the namespaces that its containers share.
use amazon_ecs_agent.Common.{
  Bool, true, not, ◌&&◌, if◌then◌else◌, String, str_eq, Option, none, some, List, [], ◌∷◌, ◌++◌,
  map, ℤ,
}
use amazon_ecs_agent.Status.ContainerStatus.{
  ContainerStatus, container_pulled, container_running, container_resources_provisioned,
  container_stopped,
}
use amazon_ecs_agent.Container.{
  Container, ContainerType, container_cni_pause, container_namespace_pause, is_internal,
  build_container_dependency,
}

abbrev pub network_pause_container_name : String
network_pause_container_name = "~internal~ecs~pause"

abbrev pub namespace_pause_container_name : String
namespace_pause_container_name = "~internal~ecs~pause~namespace"

-- A pause container: Go's zero values but for the name, the steady state, `Essential` and the type.
abbrev pub new_pause_container : String → ContainerStatus → ContainerType → Container
new_pause_container name steady type = record {
  name = name;
  depends_on = [];
  links = [];
  volumes_from = [];
  secrets = [];
  essential = true;
  environment = none;
  registry_authentication = none;
  health_check_type = "";
  health = record { status = 0; since = none; exit_code = ℤ.pos 0; output = "" };
  start_timeout = 0;
  stop_timeout = 0;
  desired_status = 0;
  known_status = 0;
  transition_dependencies_map = [];
  steady_state_dependencies = [];
  type = type;
  applied_status = 0;
  applying_error = none;
  sent_status = 0;
  known_exit_code = none;
  steady_state_status = some steady;
  created_at = 0;
  started_at = 0;
  finished_at = 0;
}

-- The loop: each container of the user waits for the pause container, which stops after it.
unfoldable pub wait_for_pause : String → ContainerStatus → Container → Container
unfolding build_container_dependency is_internal
wait_for_pause name satisfied c =
    if is_internal c then c else build_container_dependency name satisfied container_pulled c

unfoldable pub stop_after_container : Container → Container → Container
unfolding build_container_dependency is_internal
stop_after_container c pause =
    if is_internal c
    then pause
    else build_container_dependency c.name container_stopped container_stopped pause

unfoldable pub stop_after : List Container → Container → Container
unfolding stop_after_container
stop_after [] pause = pause
stop_after (c ∷ cs) pause = stop_after cs (stop_after_container c pause)

abbrev pub add_pause_container : Container → ContainerStatus → List Container → List Container
unfolding wait_for_pause stop_after
add_pause_container pause satisfied cs =
    map (wait_for_pause pause.name satisfied) cs ++ stop_after cs pause ∷ []

-- What the call reads of the task and of the agent's configuration: the container's name in the task's
-- App Mesh configuration, where the task has one, the names of the pause container's image and of the
-- default one, which the build sets, and a container's Docker configuration, as JSON text.
pub record PauseConfig : Type 0 where
  pub app_mesh_container_name : Option String
  pub pause_container_image_name : String
  pub default_pause_container_image_name : String
  pub docker_config : Container → Option String

pub data PauseError : Type 0 where
  user_not_specified unable_to_decode : PauseError

-- The user in a decoded Docker configuration.
abbrev pub checked_user : Option String → Option String × Option PauseError
checked_user none = (none, some unable_to_decode)
checked_user (some user) =
    if str_eq user "" then (none, some user_not_specified) else (some user, none)

abbrev pub proxy_user : (String → Option String) → Option String → Option String × Option PauseError
proxy_user decode none = (none, some user_not_specified)
proxy_user decode (some config) = checked_user (decode config)

-- The loop, which ends with the first container that has the name.
unfoldable pub find_proxy_user :
    (String → Option String)
    → (Container → Option String)
    → String
    → List Container
    → Option String × Option PauseError
find_proxy_user decode docker_config name [] = (none, none)
find_proxy_user decode docker_config name (c ∷ cs) =
    let rest = find_proxy_user decode docker_config name cs in
    if str_eq c.name name then proxy_user decode (docker_config c) else rest

unfoldable pub pause_user :
    (String → Option String)
    → (Container → Option String)
    → Bool
    → Option String
    → List Container
    → Option String × Option PauseError
unfolding find_proxy_user
pause_user decode docker_config is_default none cs = (none, none)
pause_user decode docker_config is_default (some name) cs =
    if is_default then (none, none) else find_proxy_user decode docker_config name cs

-- The task's containers, the user in the pause container's Docker configuration, where it has one, and
-- the error.
pub record NetworkPause : Type 0 where
  pub containers : List Container
  pub user : Option String
  pub error : Option PauseError

abbrev pub network_pause_container : Container
network_pause_container =
    new_pause_container network_pause_container_name container_resources_provisioned
      container_cni_pause

unfoldable pub if_user_found : List Container → Option String × Option PauseError → NetworkPause
unfolding wait_for_pause stop_after
if_user_found cs (user, some err) = record { containers = cs; user = none; error = some err }
if_user_found cs (user, none) = record {
  containers = add_pause_container network_pause_container container_resources_provisioned cs;
  user = user;
  error = none;
}

-- `decode` is `json.Unmarshal` of a Docker configuration, with the `User` that it finds, or `none`
-- where it fails. The images of the pause container are left out.
unfoldable pub add_network_resource_provisioning_dependency :
    (String → Option String) → PauseConfig → Bool → List Container → NetworkPause
unfolding wait_for_pause stop_after find_proxy_user pause_user if_user_found
add_network_resource_provisioning_dependency decode cfg is_network_mode_awsvpc cs =
    if not is_network_mode_awsvpc
    then record { containers = cs; user = none; error = none }
    else if_user_found cs (
        pause_user decode cfg.docker_config
          (str_eq cfg.pause_container_image_name cfg.default_pause_container_image_name)
          cfg.app_mesh_container_name cs)

abbrev pub mode_task : String
mode_task = "task"

unfoldable pub add_namespace_sharing_provisioning_dependency :
    String → String → List Container → List Container
unfolding wait_for_pause stop_after
add_namespace_sharing_provisioning_dependency ipc_mode pid_mode cs =
    if not (str_eq ipc_mode mode_task) && not (str_eq pid_mode mode_task)
    then cs
    else add_pause_container
        (new_pause_container namespace_pause_container_name container_running
          container_namespace_pause)
        container_running cs
