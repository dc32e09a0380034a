-- ===== src/TaskEngine/Examples.antt =====
-- A task that can start, one whose containers wait for each other, a pull, and a container that ended
-- while the agent was down.
use amazon_ecs_agent.Common.{
  not, ◌||◌, ◌/=◌, ◌≡◌, refl, arith, true, false, ltb, none, some, List, [], ◌∷◌, ℤ, string_key,
}
use amazon_ecs_agent.Samples.{container, db, web, starts_after, task, unknown_health}
use amazon_ecs_agent.Container
use amazon_ecs_agent.Container.{is_internal}
use amazon_ecs_agent.Task
use amazon_ecs_agent.ImageManager
use amazon_ecs_agent.Task.{Task}
use amazon_ecs_agent.ManagedTask.{image_pull_once}
use amazon_ecs_agent.ImageManager.{ImageUser, inspected, record_container_reference}
use amazon_ecs_agent.TaskEngine.{
  new_task_engine, EngineCall, add_called, calls, PullWorld, pull_container, image_pull_required,
  concurrent_pull, pull_and_update_container_reference, ask_to_pull, Description,
  synchronize_container_status,
}
use amazon_ecs_agent.TaskEngine.Admission.{IsAdmitted, calls-IsAdmitted}
use amazon_ecs_agent.TaskEngine.Once.{pull_container-image_pull_required}
use amazon_ecs_agent.TaskEngine.Restart.{Told, synchronize_container_status_lem}

abbrev waiting : Task
waiting = task (db ∷ web ∷ []) 0 3

abbrev cyclic : Task
cyclic =
    task
      (container "a" (starts_after "b" ∷ []) 0 3 ∷ container "b" (starts_after "a" ∷ []) 0 3 ∷ []) 0
      3

abbrev some_calls : List EngineCall
some_calls =
    add_called 5 "one" none waiting
    ∷ add_called 6 "two" none cyclic
    ∷ add_called 7 "one" none waiting
    ∷ []

calls-IsAdmitted_example : IsAdmitted (calls some_calls new_task_engine)
calls-IsAdmitted_example = calls-IsAdmitted some_calls

abbrev world : PullWorld
world = record {
  cached = true;
  inspection = inspected "sha256:a" 10;
  execution_credentials_found = false;
  asm_auth_found = false;
  pull_image = none;
  now = 90;
  address = 1;
}

abbrev user : ImageUser
user = record { name = "db"; image = "db:1"; image_id = "" }

recorded : (record_container_reference 90 1 (inspected "sha256:a" 10) user []).2 ≡ true
unfolding record_container_reference
recorded = refl

external : is_internal db ≡ false
unfolding is_internal
external = refl

asked : (pull_container image_pull_once world waiting db user []).asked ≡ true
unfolding pull_container image_pull_required concurrent_pull pull_and_update_container_reference
    ask_to_pull ImageManager.get_image_state_from_image_name Task.set_pull_started_at
    Container.should_pull_with_asm_auth
asked = refl

pull_container-image_pull_required_example :
    image_pull_required image_pull_once false "db:1"
      (pull_container image_pull_once world waiting db user []).image_states
    ≡ false
pull_container-image_pull_required_example =
    pull_container-image_pull_required image_pull_once world waiting db user [] false tt tt external
      refl recorded asked

abbrev ended : Description
ended = record {
  state = 5;
  metadata = record {
    created_at = 1;
    started_at = 2;
    finished_at = 3;
    exit_code = some (ℤ.pos 0);
    health = unknown_health;
  };
  error = none;
}

synchronize_container_status_lem_example :
    let r = synchronize_container_status 9 "4f2a" none ended db waiting in
    Told none 5 db r.container
    × (r.container.desired_status ≡ 3)
    × (r.container.sent_status ≡ 0)
    × ((not db.essential || (r.container.known_status /= 5) || ltb 0 r.task.execution_stopped_at)
        ≡ true)
synchronize_container_status_lem_example =
    synchronize_container_status_lem 9 "4f2a" none ended db waiting refl (omega arith)
