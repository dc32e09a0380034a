-- ===== src/EventHandler/Events.antt =====
-- agent/eventhandler/task_handler_types.go: the events, and which of them are to be sent. Tasks,
-- containers and attachments are shared with the engine: events have their addresses, and the store has
-- what stands there. An event of a container always has its container.
use amazon_ecs_agent.Common.{
  ℕ, ◌==◌, ltb, leb, Bool, true, false, not, ◌&&◌, ◌||◌, if◌then◌else◌, String, Option, none, some,
  List, [], ◌∷◌,
}
use amazon_ecs_agent.Status.TaskStatus.{TaskStatus, task_status_none}
use amazon_ecs_agent.Status.ContainerStatus.{ContainerStatus}

pub record Store : Type 0 where
  pub task_sent_status : ℕ → TaskStatus
  pub container_known_status : ℕ → ContainerStatus
  pub container_sent_status : ℕ → ContainerStatus
  pub attachment_expired : ℕ → Bool
  pub attachment_sent : ℕ → Bool

abbrev pub put {ℓ} : {A : Type ℓ} → ℕ → A → (ℕ → A) → ℕ → A
put address v f x = if x == address then v else f x

pub record ContainerChange : Type 0 where
  pub task_arn : String
  pub container : ℕ
  pub status : ContainerStatus

pub record TaskChange : Type 0 where
  pub task_arn : String
  pub status : TaskStatus
  pub task : Option ℕ
  pub containers : List ContainerChange
  pub attachment : Option ℕ

pub data Change : Type 0 where
  container_event : ContainerChange → Change
  task_event : TaskChange → Change

-- `sent` is `containerSent` or `taskSent`, whichever the kind of event has.
pub record SendableEvent : Type 0 where
  pub change : Change
  pub sent : Bool

abbrev pub new_sendable_container_event : ContainerChange → SendableEvent
new_sendable_container_event c = record { change = container_event c; sent = false }

abbrev pub new_sendable_task_event : TaskChange → SendableEvent
new_sendable_task_event t = record { change = task_event t; sent = false }

abbrev pub some_container_behind : Store → List ContainerChange → Bool
some_container_behind s [] = false
some_container_behind s (c ∷ cs) =
    ltb (s.container_sent_status c.container) (s.container_known_status c.container)
    || some_container_behind s cs

abbrev pub known_task_should_be_sent : Store → TaskChange → Option ℕ → Bool
known_task_should_be_sent s t none = false
known_task_should_be_sent s t (some task) =
    ltb (s.task_sent_status task) t.status || some_container_behind s t.containers

abbrev pub task_change_should_be_sent : Store → Bool → Change → Bool
task_change_should_be_sent s sent (container_event c) = false
task_change_should_be_sent s sent (task_event t) = not sent && known_task_should_be_sent s t t.task

unfoldable pub task_should_be_sent : Store → SendableEvent → Bool
task_should_be_sent s e = task_change_should_be_sent s e.sent e.change

abbrev pub attachment_pending : Store → Option ℕ → Bool
attachment_pending s none = false
attachment_pending s (some a) = not (s.attachment_expired a) && not (s.attachment_sent a)

abbrev pub attachment_should_be_sent : Store → Change → Bool
attachment_should_be_sent s (container_event c) = false
attachment_should_be_sent s (task_event t) =
    (t.status == task_status_none) && attachment_pending s t.attachment

unfoldable pub task_attachment_should_be_sent : Store → SendableEvent → Bool
task_attachment_should_be_sent s e = attachment_should_be_sent s e.change

abbrev pub container_change_should_be_sent : Store → Bool → Change → Bool
container_change_should_be_sent s sent (container_event c) =
    not (sent || leb c.status (s.container_sent_status c.container))
container_change_should_be_sent s sent (task_event t) = false

unfoldable pub container_should_be_sent : Store → SendableEvent → Bool
container_should_be_sent s e = container_change_should_be_sent s e.sent e.change

abbrev pub raise_sent_container : ContainerChange → Store → Store
raise_sent_container c s =
    if ltb (s.container_sent_status c.container) c.status
    then record s { container_sent_status = put c.container c.status s.container_sent_status }
    else s

abbrev pub raise_sent_containers : List ContainerChange → Store → Store
raise_sent_containers [] s = s
raise_sent_containers (c ∷ cs) s = raise_sent_containers cs (raise_sent_container c s)

abbrev pub raise_sent_task : Option ℕ → TaskStatus → Store → Store
raise_sent_task none status s = s
raise_sent_task (some task) status s =
    if ltb (s.task_sent_status task) status
    then record s { task_sent_status = put task status s.task_sent_status }
    else s

abbrev pub send_attachment : Option ℕ → Store → Store
send_attachment none s = s
send_attachment (some a) s = record s { attachment_sent = put a true s.attachment_sent }

-- `setContainerChangeSent`, on an event of a container.
unfoldable pub record_container_sent : Change → Store → Store
record_container_sent (container_event c) s = raise_sent_container c s
record_container_sent (task_event t) s = s

-- `setTaskChangeSent`, on an event of a task.
unfoldable pub record_task_sent : Change → Store → Store
record_task_sent (container_event c) s = s
record_task_sent (task_event t) s =
    raise_sent_containers t.containers (raise_sent_task t.task t.status s)

-- `setTaskAttachmentSent`
unfoldable pub record_attachment_sent : Change → Store → Store
record_attachment_sent (container_event c) s = s
record_attachment_sent (task_event t) s = send_attachment t.attachment s
