-- ===== src/TaskEngine/Add.antt =====
-- agent/engine/docker_task_engine.go: the tasks that the engine knows, and those that it manages. The
-- lock of the tasks makes each call one step. What `PostUnmarshalTask` makes of a task comes before.
use Prim.Native.String.{◌++◌ as ◌<>◌}
use amazon_ecs_agent.Common.{
  Bool, any, if◌then◌else◌, String, str_eq, Option, none, some, List, [], ◌∷◌, ◌++◌, lookup, insert,
  remove, string_key,
}
use amazon_ecs_agent.Status.TaskStatus.{task_stopped}
use amazon_ecs_agent.Container.{Time}
use amazon_ecs_agent.DependencyGraph.{valid_dependencies}
use amazon_ecs_agent.Task
use amazon_ecs_agent.Task.{Task, update_desired_status}
use amazon_ecs_agent.StateChange.{TaskStateChange, new_task_state_change_event}
use amazon_ecs_agent.ManagedTask.{AcsTransition}

-- An event of a task, the start of its goroutine, and a message of the backend that is passed on to it.
pub data EngineEffect : Type 0 where
  event_sent : String → TaskStateChange → EngineEffect
  task_started : String → EngineEffect
  transition_emitted : String → AcsTransition → EngineEffect

-- `tasks` is the engine state's map, `managed_tasks` has the keys of the map of that name.
pub record TaskEngine : Type 0 where
  pub tasks : List (String × Task)
  pub managed_tasks : List String
  pub effects : List EngineEffect

abbrev pub new_task_engine : TaskEngine
new_task_engine = record { tasks = []; managed_tasks = []; effects = [] }

abbrev pub perform : EngineEffect → TaskEngine → TaskEngine
perform x e = record e { effects = e.effects ++ x ∷ [] }

abbrev pub send_event : String → Option TaskStateChange → TaskEngine → TaskEngine
send_event arn none e = e
send_event arn (some event) e = perform (event_sent arn event) e

-- `emitTaskEvent`
unfoldable pub emit_event_of_task : String → Task → String → TaskEngine → TaskEngine
emit_event_of_task arn task reason e = send_event arn (new_task_state_change_event task reason) e

-- `isTaskManaged`
abbrev pub is_task_managed : String → TaskEngine → Bool
is_task_managed arn e = any (λ a. str_eq a arn) e.managed_tasks

unfoldable pub start_task : String → TaskEngine → TaskEngine
start_task arn e = perform (task_started arn) (record e { managed_tasks = arn ∷ e.managed_tasks })

abbrev pub stop_at_once : Time → Task → Task
stop_at_once now task =
    Task.set_desired_status task_stopped (Task.set_known_status now task_stopped task)

unfoldable pub update_task : String → Task → TaskEngine → TaskEngine
unfolding any
update_task arn update e =
    if is_task_managed arn e
    then perform
        (transition_emitted arn
          (record { seqnum = update.stop_sequence_number; desired_status = update.desired_status }))
        e
    else e

-- The text of `TaskDependencyError`.
abbrev pub dependency_error : String → String
dependency_error arn = "Task dependencies cannot be resolved, taskArn: " <> arn

-- A task that is not known yet. The map has a pointer to the task, so that it shows later writes.
unfoldable pub add_new_task : Time → String → Task → TaskEngine → TaskEngine
unfolding emit_event_of_task start_task
add_new_task now arn task0 e =
    let task = update_desired_status task0 in
    if valid_dependencies now task.containers
    then start_task arn (record e { tasks = insert arn task e.tasks })
    else let stopped = stop_at_once now task in
      emit_event_of_task arn stopped (dependency_error arn)
        (record e { tasks = insert arn stopped e.tasks })

abbrev pub add_or_update : Time → String → Task → Option Task → TaskEngine → TaskEngine
unfolding add_new_task update_task
add_or_update now arn task none e = add_new_task now arn task e
add_or_update now arn task (some existing) e = update_task arn task e

-- `AddTask` after `PostUnmarshalTask`, and the error that it returns, if any.
unfoldable pub add_task_to_engine : Time → String → Option String → Task → TaskEngine → TaskEngine
unfolding emit_event_of_task add_new_task update_task
add_task_to_engine now arn (some err) task e = emit_event_of_task arn (stop_at_once now task) err e
add_task_to_engine now arn none task e = add_or_update now arn task (lookup arn e.tasks) e

abbrev pub drop_arn : String → List String → List String
drop_arn arn [] = []
drop_arn arn (a ∷ as') = let rest = drop_arn arn as' in if str_eq a arn then rest else a ∷ rest

-- `deleteTask`: resources and network attachments are left out.
unfoldable pub delete_task : String → TaskEngine → TaskEngine
delete_task arn e = record e {
  tasks = remove arn e.tasks;
  managed_tasks = drop_arn arn e.managed_tasks;
}

pub data EngineCall : Type 0 where
  add_called : Time → String → Option String → Task → EngineCall
  delete_called : String → EngineCall

unfoldable pub call : EngineCall → TaskEngine → TaskEngine
unfolding add_task_to_engine delete_task
call (add_called now arn err task) e = add_task_to_engine now arn err task e
call (delete_called arn) e = delete_task arn e

unfoldable pub calls : List EngineCall → TaskEngine → TaskEngine
unfolding call
calls [] e = e
calls (x ∷ xs) e = calls xs (call x e)
