-- ===== src/Task/Types.antt =====
-- agent/api/task/task.go: the record of a task, with the fields that the modelled code reads or
-- writes, and the operations on one field. Each takes the task's lock, so it is one step.
use amazon_ecs_agent.Common.{
  Bool, true, false, not, ◌==◌, ◌/=◌, if◌then◌else◌, String, str_eq, Option, none, some, List, [],
  ◌∷◌, ℤ,
}
use amazon_ecs_agent.Status.ContainerStatus.{container_stopped}
use amazon_ecs_agent.Status.TaskStatus.{TaskStatus}
use amazon_ecs_agent.Container.{Container, Time}
use amazon_ecs_agent.Resource.{TaskResource}

-- `resources` lists the values of `ResourcesMapUnsafe`. `terminal_reason` is the reason given to
-- the first `SetTerminalReason`, before its first word is put in title case.
pub record Task : Type 0 where
  pub containers : List Container
  pub resources : List TaskResource
  pub desired_status : TaskStatus
  pub known_status : TaskStatus
  pub known_status_time : Time
  pub sent_status : TaskStatus
  pub start_sequence_number : ℤ
  pub stop_sequence_number : ℤ
  pub execution_credentials_id : String
  pub credentials_id : String
  pub pull_started_at : Time
  pub pull_stopped_at : Time
  pub execution_stopped_at : Time
  pub terminal_reason : Option String

-- `SetKnownStatus`: the status and the time at which it is set.
unfoldable pub set_known_status : Time → TaskStatus → Task → Task
set_known_status now status task = record task { known_status = status; known_status_time = now }

unfoldable pub set_desired_status : TaskStatus → Task → Task
set_desired_status status task = record task { desired_status = status }

unfoldable pub set_sent_status : TaskStatus → Task → Task
set_sent_status status task = record task { sent_status = status }

unfoldable pub set_stop_sequence_number : ℤ → Task → Task
set_stop_sequence_number seqnum task = record task { stop_sequence_number = seqnum }

-- Only the first time is kept.
unfoldable pub set_pull_started_at : Time → Task → Task × Bool
set_pull_started_at timestamp task =
    if task.pull_started_at == 0
    then (record task { pull_started_at = timestamp }, true)
    else (task, false)

unfoldable pub set_pull_stopped_at : Time → Task → Task
set_pull_stopped_at timestamp task = record task { pull_stopped_at = timestamp }

unfoldable pub set_execution_stopped_at : Time → Task → Task × Bool
set_execution_stopped_at timestamp task =
    if task.execution_stopped_at == 0
    then (record task { execution_stopped_at = timestamp }, true)
    else (task, false)

unfoldable pub record_execution_stopped_at : Time → Container → Task → Task
unfolding set_execution_stopped_at
record_execution_stopped_at now container task =
    if not container.essential
    then task
    else if container.known_status /= container_stopped
    then task
    else (set_execution_stopped_at now task).0

-- `terminalReasonOnce`
unfoldable pub set_terminal_reason : String → Task → Task
set_terminal_reason reason task = elim task.terminal_reason [
  | none ↦ record task { terminal_reason = some reason }
  | some first ↦ task
]

unfoldable pub find_container : String → List Container → Option Container
find_container name [] = none
find_container name (c ∷ cs) = if str_eq c.name name then some c else find_container name cs

unfoldable pub container_by_name : String → Task → Option Container
container_by_name name task = find_container name task.containers
