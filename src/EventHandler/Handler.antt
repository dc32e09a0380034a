-- ===== src/EventHandler/Handler.antt =====
-- agent/eventhandler/task_handler.go: the maps of the handler, and its methods. The lists of events have
-- addresses, since a goroutine goes on with its list after the map has dropped it.
use amazon_ecs_agent.Common.{
  ℕ, suc, leb, Bool, true, false, if◌then◌else◌, String, Option, none, some, List, [], ◌∷◌, ◌++◌,
  lookup, insert, remove, string_key,
}
use amazon_ecs_agent.Status.TaskStatus.{TaskStatus, task_stopped}
use amazon_ecs_agent.EventHandler.Events.{
  Store, put, ContainerChange, TaskChange, Change, container_event, task_event, SendableEvent,
  new_sendable_task_event,
}
use amazon_ecs_agent.EventHandler.Sending.{
  TaskSendableEvents, new_task_sendable_events, send_change,
}

-- A goroutine that runs `submitTaskEvents`; `done` from the end of its loop until it has removed the
-- entry of its task.
pub record Sender : Type 0 where
  pub list : ℕ
  pub task_arn : String
  pub done : Bool

-- `next` is the address of the list that is made next.
pub record TaskHandler : Type 0 where
  pub tasks_to_events : List (String × ℕ)
  pub tasks_to_container_states : List (String × List ContainerChange)
  pub lists : ℕ → TaskSendableEvents
  pub next : ℕ
  pub senders : List Sender
  pub store : Store

abbrev pub new_task_handler : Store → TaskHandler
new_task_handler s = record {
  tasks_to_events = [];
  tasks_to_container_states = [];
  lists = λ a. new_task_sendable_events;
  next = 0;
  senders = [];
  store = s;
}

abbrev pub or_empty : Option (List ContainerChange) → List ContainerChange
or_empty none = []
or_empty (some cs) = cs

-- What the map of batches has for a task.
unfoldable pub batch_of : String → TaskHandler → List ContainerChange
unfolding lookup
batch_of arn h = or_empty (lookup arn h.tasks_to_container_states)

unfoldable pub batch_container_event : ContainerChange → TaskHandler → TaskHandler
unfolding batch_of insert
batch_container_event c h = record h {
  tasks_to_container_states =
      insert c.task_arn (batch_of c.task_arn h ++ c ∷ []) h.tasks_to_container_states;
}

abbrev pub found_or_new : String → Option ℕ → TaskHandler → TaskHandler × ℕ
found_or_new arn (some a) h = (h, a)
found_or_new arn none h = (
  record h {
    tasks_to_events = insert arn h.next h.tasks_to_events;
    lists = put h.next new_task_sendable_events h.lists;
    next = suc h.next;
  },
  h.next,
)

unfoldable pub get_task_events : String → TaskHandler → TaskHandler × ℕ
unfolding lookup insert
get_task_events arn h = found_or_new arn (lookup arn h.tasks_to_events) h

abbrev pub started : Bool → ℕ → String → List Sender → List Sender
started false a arn senders = senders
started true a arn senders = senders ++ record { list = a; task_arn = arn; done = false } ∷ []

-- `sendChange` on the list at the address, for the task with the arn.
unfoldable pub send_change_at : ℕ → String → SendableEvent → TaskHandler → TaskHandler
unfolding send_change
send_change_at a arn e h =
    let (l, starts) = send_change e (h.lists a) in
    record h { lists = put a l h.lists; senders = started starts a arn h.senders }

unfoldable pub flush_batch : TaskChange → TaskHandler → TaskHandler
unfolding batch_of remove get_task_events send_change_at
flush_batch t0 h0 =
    let t = record t0 { containers = t0.containers ++ batch_of t0.task_arn h0 } in
    let h1 = record h0 {
      tasks_to_container_states = remove t0.task_arn h0.tasks_to_container_states;
    } in
    let (h, a) = get_task_events t0.task_arn h1 in
    send_change_at a t0.task_arn (new_sendable_task_event t) h

unfoldable pub add_state_change_event : Change → TaskHandler → TaskHandler
unfolding flush_batch batch_container_event
add_state_change_event (task_event t) h = flush_batch t h
add_state_change_event (container_event c) h = batch_container_event c h

-- What the engine's state says of a task: its address and known status.
abbrev pub drain_event : String → Option (ℕ × TaskStatus) → List TaskChange → List TaskChange
drain_event arn none rest = rest
drain_event arn (some (task, status)) rest =
    if leb task_stopped status
    then rest
    else record {
      task_arn = arn;
      status = status;
      task = some task;
      containers = [];
      attachment = none;
    }
      ∷ rest

abbrev pub drain_events :
    (String → Option (ℕ × TaskStatus)) → List (String × List ContainerChange) → List TaskChange
drain_events task_by_arn [] = []
drain_events task_by_arn ((arn, cs) ∷ m) =
    drain_event arn (task_by_arn arn) (drain_events task_by_arn m)

-- `taskStateChangesToSend`; the code's order is that of a Go map.
unfoldable pub task_state_changes_to_send :
    (String → Option (ℕ × TaskStatus)) → TaskHandler → List TaskChange
task_state_changes_to_send task_by_arn h = drain_events task_by_arn h.tasks_to_container_states

abbrev pub add_all : List TaskChange → TaskHandler → TaskHandler
unfolding add_state_change_event
add_all [] h = h
add_all (t ∷ ts) h = add_all ts (add_state_change_event (task_event t) h)
