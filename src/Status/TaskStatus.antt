-- ===== src/Status/TaskStatus.antt =====
-- agent/api/task/status/taskstatus.go: `TaskStatus`, an `int32` as `ContainerStatus` is.
use amazon_ecs_agent.Common.{
  ℕ, Bool, List, [], ◌∷◌, ◌||◌, ◌==◌, if◌then◌else◌, codes, bytes_eq, to_lower, string_literal,
  quoted_bytes,
}
use amazon_ecs_agent.Status.ContainerStatus.{Decoded, decoded, find_name, name_or, unmarshal_name}

abbrev pub TaskStatus : Type 0
TaskStatus = ℕ

abbrev pub task_status_none : TaskStatus
task_status_none = 0

abbrev pub task_pulled : TaskStatus
task_pulled = 1

abbrev pub task_created : TaskStatus
task_created = 2

abbrev pub task_running : TaskStatus
task_running = 3

abbrev pub task_stopped : TaskStatus
task_stopped = 4

abbrev pub task_zombie : TaskStatus
task_zombie = 5

abbrev pub task_status_map : List (List ℕ × TaskStatus)
task_status_map =
    (codes "NONE", task_status_none)
    ∷ (codes "CREATED", task_created)
    ∷ (codes "RUNNING", task_running)
    ∷ (codes "STOPPED", task_stopped)
    ∷ []

unfoldable pub to_string : TaskStatus → List ℕ
unfolding find_name
to_string ts = name_or (codes "NONE") (find_name ts task_status_map)

unfoldable pub backend_status : TaskStatus → List ℕ
unfolding to_string
backend_status ts =
    if ts == task_running || ts == task_stopped then to_string ts else codes "PENDING"

unfoldable pub backend_recognized : TaskStatus → Bool
backend_recognized ts = ts == task_running || ts == task_stopped

abbrev pub terminal : TaskStatus → Bool
terminal ts = ts == task_stopped

unfoldable pub unmarshal_json : List ℕ → Decoded
unmarshal_json b =
    if bytes_eq (to_lower b) (codes "null")
    then decoded task_status_none
    else unmarshal_name task_status_map task_stopped (string_literal b)

unfoldable pub marshal_json : TaskStatus → List ℕ
unfolding to_string
marshal_json ts = quoted_bytes (to_string ts)
