-- ===== src/EventHandler/Sending.antt =====
-- agent/eventhandler/task_handler.go: the list of one task's events, and the loop that empties it. What
-- the backend answers is an argument.
use amazon_ecs_agent.Common.{
  ℕ, zero, suc, Bool, true, false, if◌then◌else◌, Option, none, some, List, [], ◌∷◌, ◌++◌,
}
use amazon_ecs_agent.EventHandler.Events.{
  Store, Change, SendableEvent, task_should_be_sent, task_attachment_should_be_sent,
  container_should_be_sent, record_container_sent, record_task_sent, record_attachment_sent,
}

-- The backend takes the change, says that its parameters are invalid, or fails in another way.
pub data Answer : Type 0 where
  accepted invalid_parameter failed : Answer

pub record TaskSendableEvents : Type 0 where
  pub events : List SendableEvent
  pub sending : Bool

abbrev pub new_task_sendable_events : TaskSendableEvents
new_task_sendable_events = record { events = []; sending = false }

-- What one submission does: the store and the list as it leaves them, the change that was sent to the
-- backend, and the results `done` and whether there was an error.
pub record Submitted : Type 0 where
  pub store : Store
  pub list : TaskSendableEvents
  pub request : Option Change
  pub done : Bool
  pub err : Bool

-- The end of `submitFirstEvent`, after the first event has been removed.
abbrev pub removed_first : Store → Option Change → Bool → List SendableEvent → Submitted
removed_first s request sending [] = record {
  store = s;
  list = record { events = []; sending = false };
  request = request;
  done = true;
  err = false;
}
removed_first s request sending (e ∷ es) = record {
  store = s;
  list = record { events = e ∷ es; sending = sending };
  request = request;
  done = false;
  err = false;
}

abbrev pub refused : Store → Change → Bool → List SendableEvent → Submitted
refused s change sending es = record {
  store = s;
  list = record { events = es; sending = sending };
  request = some change;
  done = false;
  err = true;
}

abbrev pub send_container : Answer → Store → Bool → SendableEvent → List SendableEvent → Submitted
send_container accepted s sending e es =
    removed_first (record_container_sent e.change s) (some e.change) sending es
send_container invalid_parameter s sending e es = refused s e.change sending (e ∷ es)
send_container failed s sending e es = refused s e.change sending (e ∷ es)

-- An event with invalid parameters is dropped.
abbrev pub send_task :
    (Change → Store → Store)
    → Answer
    → Store
    → Bool
    → SendableEvent
    → List SendableEvent
    → Submitted
send_task set_sent accepted s sending e es =
    removed_first (set_sent e.change s) (some e.change) sending es
send_task set_sent invalid_parameter s sending e es = refused s e.change sending es
send_task set_sent failed s sending e es = refused s e.change sending (e ∷ es)

-- An event that was sent is removed at once, so that its own `sent` is not set any more.
abbrev pub submit_event : Answer → Store → Bool → SendableEvent → List SendableEvent → Submitted
submit_event answer s sending e es =
    if container_should_be_sent s e
    then send_container answer s sending e es
    else if task_should_be_sent s e
    then send_task record_task_sent answer s sending e es
    else if task_attachment_should_be_sent s e
    then send_task record_attachment_sent answer s sending e es
    else removed_first s none sending es

abbrev pub submit_listed : Answer → Store → Bool → List SendableEvent → Submitted
submit_listed answer s sending [] = record {
  store = s;
  list = record { events = []; sending = false };
  request = none;
  done = true;
  err = false;
}
submit_listed answer s sending (e ∷ es) = submit_event answer s sending e es

-- `submitFirstEvent`
unfoldable pub submit_first_event : Answer → Store → TaskSendableEvents → Submitted
submit_first_event answer s l = submit_listed answer s l.sending l.events

-- `sendChange`; the Boolean tells that a goroutine is started.
unfoldable pub send_change : SendableEvent → TaskSendableEvents → TaskSendableEvents × Bool
send_change e l =
    (record { events = l.events ++ e ∷ []; sending = true }, if l.sending then false else true)

-- The loops of `submitTaskEvents` with nothing added to the list: the rounds that are left, the answers
-- in their order by number, and the changes sent so far; `none` without fuel.
unfoldable pub submit_task_events :
    ℕ → (ℕ → Answer) → ℕ → Store → TaskSendableEvents → Option (Store × TaskSendableEvents × ℕ)
unfolding submit_first_event
submit_task_events zero answers n s l = none
submit_task_events (suc fuel) answers n s l =
    let r = submit_first_event (answers n) s l in
    let rest = submit_task_events fuel answers (suc n) r.store r.list in
    if r.done then some (r.store, r.list, suc n) else rest
