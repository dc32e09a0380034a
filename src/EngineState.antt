-- ===== src/EngineState.antt =====
-- agent/engine/dockerstate/docker_task_engine_state.go: the maps between tasks, containers and their
-- Docker ids. The lock makes each method one step. A pointer to a task or an image state is its key
-- with an address; the order in which Go visits a map is that of the list here, and where a result
-- depends on it a theorem says so.
use amazon_ecs_agent.Common.{
  ℕ, ◌&&◌, not, Bool, true, false, if◌then◌else◌, String, str_eq, Option, none, some, List, [], ◌∷◌,
  map, lookup, insert, remove, string_key,
}
mod Changes
pub mod Consistency
pub mod Runs
pub mod Removal
pub mod Addition
mod Examples

pub record TaskPointer : Type 0 where
  pub arn : String
  pub address : ℕ

-- `DockerContainer`, with the name and the endpoint id of the container that it points to.
pub record DockerContainer : Type 0 where
  pub docker_id : String
  pub docker_name : String
  pub name : String
  pub v3_endpoint_id : String

pub record EniAttachment : Type 0 where
  pub mac_address : String
  pub address : ℕ

pub record ImagePointer : Type 0 where
  pub image_id : String
  pub address : ℕ

pub record DockerTaskEngineState : Type 0 where
  pub tasks : List (String × TaskPointer)
  pub id_to_task : List (String × String)
  pub task_to_id : List (String × List (String × DockerContainer))
  pub id_to_container : List (String × DockerContainer)
  pub eni_attachments : List (String × EniAttachment)
  pub image_states : List (String × ImagePointer)
  pub ip_to_task : List (String × String)
  pub v3_endpoint_id_to_task : List (String × String)
  pub v3_endpoint_id_to_docker_id : List (String × String)

unfoldable pub new_task_engine_state : DockerTaskEngineState
new_task_engine_state = record {
  tasks = [];
  id_to_task = [];
  task_to_id = [];
  id_to_container = [];
  eni_attachments = [];
  image_states = [];
  ip_to_task = [];
  v3_endpoint_id_to_task = [];
  v3_endpoint_id_to_docker_id = [];
}

unfoldable pub container_by_id : String → DockerTaskEngineState → Option DockerContainer
container_by_id id s = lookup id s.id_to_container

unfoldable pub container_map_by_arn :
    String → DockerTaskEngineState → Option (List (String × DockerContainer))
container_map_by_arn arn s = lookup arn s.task_to_id

unfoldable pub task_by_arn : String → DockerTaskEngineState → Option TaskPointer
task_by_arn arn s = lookup arn s.tasks

abbrev pub task_of_arn : DockerTaskEngineState → Option String → Option TaskPointer
task_of_arn s none = none
task_of_arn s (some arn) = lookup arn s.tasks

unfoldable pub task_by_id : String → DockerTaskEngineState → Option TaskPointer
task_by_id id s = task_of_arn s (lookup id s.id_to_task)

unfoldable pub eni_by_mac : String → DockerTaskEngineState → Option EniAttachment
eni_by_mac mac s = lookup mac s.eni_attachments

unfoldable pub get_task_by_ip_address : String → DockerTaskEngineState → Option String
get_task_by_ip_address addr s = lookup addr s.ip_to_task

unfoldable pub docker_id_by_v3_endpoint_id : String → DockerTaskEngineState → Option String
docker_id_by_v3_endpoint_id id s = lookup id s.v3_endpoint_id_to_docker_id

unfoldable pub task_arn_by_v3_endpoint_id : String → DockerTaskEngineState → Option String
task_arn_by_v3_endpoint_id id s = lookup id s.v3_endpoint_id_to_task

unfoldable pub add_task : TaskPointer → DockerTaskEngineState → DockerTaskEngineState
add_task task s = record s { tasks = insert task.arn task s.tasks }

-- The second result of a map read.
abbrev pub has {ℓ} : {A : Type ℓ} → Option A → Bool
has none = false
has (some a) = true

-- What is there already stays.
unfoldable pub add_eni_attachment :
    Option EniAttachment → DockerTaskEngineState → DockerTaskEngineState
add_eni_attachment none s = s
add_eni_attachment (some eni) s =
    if has (lookup eni.mac_address s.eni_attachments)
    then s
    else record s { eni_attachments = insert eni.mac_address eni s.eni_attachments }

unfoldable pub remove_eni_attachment : String → DockerTaskEngineState → DockerTaskEngineState
remove_eni_attachment mac s =
    if str_eq mac ""
    then s
    else if has (lookup mac s.eni_attachments)
    then record s { eni_attachments = remove mac s.eni_attachments }
    else s

-- `storeIDToContainerTaskUnsafe`: the key is the Docker id, and the name as long as there is no id.
unfoldable pub store_id_to_container_task :
    DockerContainer → TaskPointer → DockerTaskEngineState → DockerTaskEngineState
store_id_to_container_task c task s =
    if not (str_eq c.docker_id "")
    then record s {
      id_to_container = remove c.docker_name (insert c.docker_id c s.id_to_container);
      id_to_task = remove c.docker_name (insert c.docker_id task.arn s.id_to_task);
    }
    else if not (str_eq c.docker_name "")
    then record s {
      id_to_container = insert c.docker_name c s.id_to_container;
      id_to_task = insert c.docker_name task.arn s.id_to_task;
    }
    else s

-- `storeV3EndpointIDToTaskUnsafe` and `storeV3EndpointIDToDockerIDUnsafe`, under their guard.
unfoldable pub store_v3_endpoint_id :
    DockerContainer → TaskPointer → DockerTaskEngineState → DockerTaskEngineState
store_v3_endpoint_id c task s =
    if not (str_eq c.docker_id "") && not (str_eq c.v3_endpoint_id "")
    then record s {
      v3_endpoint_id_to_task = insert c.v3_endpoint_id task.arn s.v3_endpoint_id_to_task;
      v3_endpoint_id_to_docker_id =
          insert c.v3_endpoint_id c.docker_id s.v3_endpoint_id_to_docker_id;
    }
    else s

abbrev pub map_or_empty : Option (List (String × DockerContainer)) → List (String × DockerContainer)
map_or_empty none = []
map_or_empty (some m) = m

abbrev pub add_unknown_task : TaskPointer → DockerTaskEngineState → DockerTaskEngineState
add_unknown_task task s =
    if has (lookup task.arn s.tasks) then s else record s { tasks = insert task.arn task s.tasks }

abbrev pub add_to_task :
    DockerContainer → TaskPointer → DockerTaskEngineState → DockerTaskEngineState
add_to_task c task s = record s {
  task_to_id =
      insert task.arn (insert c.name c (map_or_empty (lookup task.arn s.task_to_id))) s.task_to_id;
}

unfoldable pub add_container :
    Option DockerContainer → Option TaskPointer → DockerTaskEngineState → DockerTaskEngineState
unfolding store_id_to_container_task store_v3_endpoint_id
add_container (some c) (some task) s =
    add_to_task c task
      (store_v3_endpoint_id c task (store_id_to_container_task c task (add_unknown_task task s)))
add_container (some c) none s = s
add_container none task s = s

unfoldable pub add_image_state : Option ImagePointer → DockerTaskEngineState → DockerTaskEngineState
add_image_state none s = s
add_image_state (some image) s =
    if str_eq image.image_id ""
    then s
    else record s { image_states = insert image.image_id image s.image_states }

unfoldable pub remove_image_state :
    Option ImagePointer → DockerTaskEngineState → DockerTaskEngineState
remove_image_state none s = s
remove_image_state (some image) s =
    if has (lookup image.image_id s.image_states)
    then record s { image_states = remove image.image_id s.image_states }
    else s

unfoldable pub add_task_ip_address : String → String → DockerTaskEngineState → DockerTaskEngineState
add_task_ip_address addr arn s = record s { ip_to_task = insert addr arn s.ip_to_task }

-- `taskToIPUnsafe`: an address of the task, which is any of them where it has several.
unfoldable pub task_to_ip : String → List (String × String) → Option String
task_to_ip arn [] = none
task_to_ip arn ((ip, a) ∷ m) = let rest = task_to_ip arn m in if str_eq arn a then some ip else rest

-- The Docker id, and the name where there is no id.
abbrev pub container_key : DockerContainer → String
container_key c = if str_eq c.docker_id "" then c.docker_name else c.docker_id

unfoldable pub remove_id_to_container_task :
    DockerContainer → DockerTaskEngineState → DockerTaskEngineState
remove_id_to_container_task c s = record s {
  id_to_task = remove (container_key c) s.id_to_task;
  id_to_container = remove (container_key c) s.id_to_container;
}

unfoldable pub remove_v3_endpoint_id : String → DockerTaskEngineState → DockerTaskEngineState
remove_v3_endpoint_id id s =
    if not (str_eq id "")
    then record s {
      v3_endpoint_id_to_task = remove id s.v3_endpoint_id_to_task;
      v3_endpoint_id_to_docker_id = remove id s.v3_endpoint_id_to_docker_id;
    }
    else s

-- The loop of `RemoveTask` over the containers of the task.
unfoldable pub remove_containers :
    List (String × DockerContainer) → DockerTaskEngineState → DockerTaskEngineState
unfolding remove_id_to_container_task remove_v3_endpoint_id
remove_containers [] s = s
remove_containers ((name, c) ∷ cs) s =
    remove_containers cs (remove_v3_endpoint_id c.v3_endpoint_id (remove_id_to_container_task c s))

abbrev pub remove_ip : Option String → DockerTaskEngineState → DockerTaskEngineState
remove_ip none s = s
remove_ip (some ip) s = record s { ip_to_task = remove ip s.ip_to_task }

abbrev pub remove_container_map :
    String
    → Option (List (String × DockerContainer))
    → DockerTaskEngineState
    → DockerTaskEngineState
remove_container_map arn none s = s
remove_container_map arn (some cs) s =
    remove_containers cs (record s { task_to_id = remove arn s.task_to_id })

abbrev pub remove_known_task : Option TaskPointer → DockerTaskEngineState → DockerTaskEngineState
remove_known_task none s = s
remove_known_task (some task) s0 =
    let s1 = record s0 { tasks = remove task.arn s0.tasks } in
    let s2 = remove_ip (task_to_ip task.arn s1.ip_to_task) s1 in
    remove_container_map task.arn (lookup task.arn s2.task_to_id) s2

-- The task that is removed is the one that is stored under the ARN.
unfoldable pub remove_task : TaskPointer → DockerTaskEngineState → DockerTaskEngineState
unfolding task_to_ip remove_containers
remove_task task s = remove_known_task (lookup task.arn s.tasks) s

-- `GetAllContainerIDs`
unfoldable pub get_all_container_ids : DockerTaskEngineState → List String
get_all_container_ids s = map (λ (e : String × String). e.0) s.id_to_task
