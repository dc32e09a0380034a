-- ===== src/Samples.antt =====
-- Containers, tasks and events for the tests and examples.
use amazon_ecs_agent.Common.{ℕ, true, false, String, none, List, [], ◌∷◌, ℤ}
use amazon_ecs_agent.Container.{Container, DependsOn, container_normal, HealthStatus}
use amazon_ecs_agent.Resource.{TaskResource}
use amazon_ecs_agent.Task.{Task}
use amazon_ecs_agent.ManagedTask.{
  ManagedTask, DockerContainerMetadata, DockerContainerChange, image_pull_default,
}

abbrev pub unknown_health : HealthStatus
unknown_health = record { status = 0; since = none; exit_code = ℤ.pos 0; output = "" }

-- An essential container with the given dependencies, known and desired statuses.
abbrev pub container : String → List DependsOn → ℕ → ℕ → Container
container name depends_on known desired = record {
  name = name;
  depends_on = depends_on;
  links = [];
  volumes_from = [];
  secrets = [];
  essential = true;
  environment = none;
  registry_authentication = none;
  health_check_type = "";
  health = unknown_health;
  start_timeout = 0;
  stop_timeout = 0;
  desired_status = desired;
  known_status = known;
  transition_dependencies_map = [];
  steady_state_dependencies = [];
  type = container_normal;
  applied_status = 0;
  applying_error = none;
  sent_status = 0;
  known_exit_code = none;
  steady_state_status = none;
  created_at = 0;
  started_at = 0;
  finished_at = 0;
}

abbrev pub starts_after : String → DependsOn
starts_after name = record { container_name = name; condition = "START" }

-- A database, and a web server that starts after it.
abbrev pub db : Container
db = container "db" [] 0 3

abbrev pub web : Container
web = container "web" (starts_after "db" ∷ []) 0 3

abbrev pub volume : TaskResource
volume = record {
  name = "volume";
  desired_status = 0;
  known_status = 0;
  applied_status = 0;
  terminal_reason = "VolumeError";
  clears_applied = false;
}

abbrev pub task : List Container → ℕ → ℕ → Task
task containers known desired = record {
  containers = containers;
  resources = volume ∷ [];
  desired_status = desired;
  known_status = known;
  known_status_time = 0;
  sent_status = 0;
  start_sequence_number = ℤ.pos 0;
  stop_sequence_number = ℤ.pos 0;
  execution_credentials_id = "";
  credentials_id = "";
  pull_started_at = 0;
  pull_stopped_at = 0;
  execution_stopped_at = 0;
  terminal_reason = none;
}

abbrev pub managed : Task → ManagedTask
managed t = record {
  task = t;
  unexpected_start = false;
  image_pull_behavior = image_pull_default;
  outbox = [];
}

abbrev pub no_metadata : DockerContainerMetadata
no_metadata = record {
  created_at = 0;
  started_at = 0;
  finished_at = 0;
  exit_code = none;
  health = unknown_health;
}

abbrev pub change : ℕ → ℕ → DockerContainerChange
change container status = record {
  container = container;
  status = status;
  metadata = no_metadata;
  error = none;
}
