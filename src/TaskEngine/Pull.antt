-- ===== src/TaskEngine/Pull.antt =====
-- agent/engine/docker_task_engine.go: whether an image is pulled for a container, and what is recorded
-- of it. What Docker and the stores of credentials answer is an argument.
use amazon_ecs_agent.Common.{
  ℕ, ◌==◌, Bool, true, false, not, ◌&&◌, if◌then◌else◌, String, Option, none, some, List, [], ◌∷◌,
}
use amazon_ecs_agent.Status.TaskStatus.{task_stopped}
use amazon_ecs_agent.Status.ContainerStatus.{container_stopped}
use amazon_ecs_agent.Container
use amazon_ecs_agent.Container.{
  Container, NamedError, Time, container_cni_pause, container_namespace_pause, ContainerType,
  is_internal, should_pull_with_execution_role, should_pull_with_asm_auth,
}
use amazon_ecs_agent.Task.{Task, set_pull_started_at, set_pull_stopped_at}
use amazon_ecs_agent.ManagedTask.{
  ImagePullBehavior, image_pull_default, image_pull_always, image_pull_once,
  image_pull_prefer_cached,
}
use amazon_ecs_agent.ImageManager.{
  ImageState, ImageUser, Inspection, record_container_reference, get_image_state_from_image_name,
  has_image_name, set_pull_succeeded,
}

-- What the outside world answers in one call: whether the image can be inspected, what its inspection
-- says when it is recorded, whether the credentials are found, the result of the pull, the time, and an
-- address for a new image state.
pub record PullWorld : Type 0 where
  pub cached : Bool
  pub inspection : Inspection
  pub execution_credentials_found : Bool
  pub asm_auth_found : Bool
  pub pull_image : Option NamedError
  pub now : Time
  pub address : ℕ

pub data PullError : Type 0 where
  task_stopped_before_pull_begin cannot_pull_ecr_container cannot_pull_container_auth : PullError
  of_docker : NamedError → PullError

-- The container, its task, the fields that the image manager sees of it, the manager's states, whether
-- Docker was asked to pull, and the error in the metadata that is returned.
pub record Pulled : Type 0 where
  pub container : Container
  pub task : Task
  pub user : ImageUser
  pub image_states : List ImageState
  pub asked : Bool
  pub error : Option PullError

abbrev pub has_pull_succeeded : Option ImageState → Bool
has_pull_succeeded none = false
has_pull_succeeded (some s) = s.pull_succeeded

unfoldable pub image_pull_required : ImagePullBehavior → Bool → String → List ImageState → Bool
image_pull_required image_pull_once cached image ss =
    not (has_pull_succeeded (get_image_state_from_image_name image ss))
image_pull_required image_pull_prefer_cached cached image ss = not cached
image_pull_required image_pull_default cached image ss = true
image_pull_required image_pull_always cached image ss = true

-- `SetPullSucceeded` on the state that `GetImageStateFromImageName` finds.
unfoldable pub mark_pull_succeeded : String → List ImageState → List ImageState
mark_pull_succeeded image [] = []
mark_pull_succeeded image (s ∷ ss) =
    if has_image_name image s
    then set_pull_succeeded true s ∷ ss
    else s ∷ mark_pull_succeeded image ss

-- The image state is saved by the engine's state too, which is left out.
unfoldable pub update_image_reference :
    PullWorld → Bool → ImageUser → List ImageState → List ImageState × ImageUser
unfolding record_container_reference mark_pull_succeeded
update_image_reference w pull_succeeded user ss0 =
    let (ss, user', _) = record_container_reference w.now w.address w.inspection user ss0 in
    (if pull_succeeded then mark_pull_succeeded user'.image ss else ss, user')

abbrev pub docker_error : Option NamedError → Option PullError
docker_error none = none
docker_error (some e) = some (of_docker e)

abbrev pub is_no_error : Option NamedError → Bool
is_no_error none = true
is_no_error (some e) = false

-- The end of the call, where Docker is asked. Credentials are set on the container for its time only.
unfoldable pub ask_to_pull : PullWorld → Task → Container → ImageUser → List ImageState → Pulled
unfolding update_image_reference
ask_to_pull w task c user ss =
    let (ss', user') = update_image_reference w (is_no_error w.pull_image) user ss in
    record {
      container = c;
      task = task;
      user = if is_internal c then user else user';
      image_states = if is_internal c then ss else ss';
      asked = true;
      error = docker_error w.pull_image;
    }

abbrev pub not_pulled : PullError → Task → Container → ImageUser → List ImageState → Pulled
not_pulled err task c user ss = record {
  container = c;
  task = task;
  user = user;
  image_states = ss;
  asked = false;
  error = some err;
}

unfoldable pub pull_and_update_container_reference :
    PullWorld → Task → Container → ImageUser → List ImageState → Pulled
unfolding ask_to_pull
pull_and_update_container_reference w task c user ss =
    if task.desired_status == task_stopped
    then not_pulled task_stopped_before_pull_begin task
        (Container.set_desired_status container_stopped c) user ss
    else if should_pull_with_execution_role c && not w.execution_credentials_found
    then not_pulled cannot_pull_ecr_container task c user ss
    else if should_pull_with_asm_auth c && not w.asm_auth_found
    then not_pulled cannot_pull_container_auth task c user ss
    else ask_to_pull w task c user ss

-- The lock against the clean-up of images is left out.
unfoldable pub concurrent_pull : PullWorld → Task → Container → ImageUser → List ImageState → Pulled
unfolding pull_and_update_container_reference
concurrent_pull w task c user ss =
    pull_and_update_container_reference w (set_pull_started_at w.now task).0 c user ss

abbrev pub is_pause : ContainerType → Bool
is_pause container_cni_pause = true
is_pause container_namespace_pause = true
is_pause _ = false

abbrev pub without_pull : PullWorld → Task → Container → ImageUser → List ImageState → Pulled
unfolding update_image_reference
without_pull w task c user ss =
    let (ss', user') = update_image_reference w false user ss in
    record {
      container = c;
      task = task;
      user = user';
      image_states = ss';
      asked = false;
      error = none;
    }

unfoldable pub pull_container :
    ImagePullBehavior → PullWorld → Task → Container → ImageUser → List ImageState → Pulled
unfolding image_pull_required concurrent_pull
pull_container behavior w task c user ss =
    let r = concurrent_pull w task c user ss in
    if is_pause c.type
    then record {
      container = c;
      task = task;
      user = user;
      image_states = ss;
      asked = false;
      error = none;
    }
    else if image_pull_required behavior w.cached user.image ss
    then record r { task = set_pull_stopped_at w.now r.task }
    else without_pull w task c user ss
