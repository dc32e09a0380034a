-- ===== src/EventHandler/Steps.antt =====
-- agent/eventhandler/task_handler.go: runs. A method of the handler holds its lock and a submission the
-- lock of its list, so that each is one step.
use amazon_ecs_agent.Common.{
  ℕ, zero, suc, Bool, if◌then◌else◌, String, Option, none, some, List, [], ◌∷◌, remove, string_key,
}
use amazon_ecs_agent.EventHandler.Events.{Store, put, Change}
use amazon_ecs_agent.EventHandler.Sending.{Answer, Submitted, submit_first_event}
use amazon_ecs_agent.EventHandler.Handler.{Sender, TaskHandler, add_state_change_event}

-- A change is added, the goroutine with the given position submits the first event of its list, or it
-- removes the entry of its task, and ends; or the engine writes to the tasks and containers.
pub data Step : Type 0 where
  added : Change → Step
  submitted : ℕ → Answer → Step
  finished : ℕ → Step
  written : Store → Step

-- The goroutine at a position in the list.
abbrev pub sender_at : ℕ → List Sender → Option Sender
sender_at n [] = none
sender_at zero (x ∷ xs) = some x
sender_at (suc n) (x ∷ xs) = sender_at n xs

abbrev pub set_done : ℕ → Bool → List Sender → List Sender
set_done n d [] = []
set_done zero d (x ∷ xs) = record x { done = d } ∷ xs
set_done (suc n) d (x ∷ xs) = x ∷ set_done n d xs

abbrev pub drop_sender : ℕ → List Sender → List Sender
drop_sender n [] = []
drop_sender zero (x ∷ xs) = xs
drop_sender (suc n) (x ∷ xs) = x ∷ drop_sender n xs

unfoldable pub remove_task_events : String → TaskHandler → TaskHandler
unfolding remove
remove_task_events arn h = record h { tasks_to_events = remove arn h.tasks_to_events }

abbrev pub after_submission : ℕ → ℕ → Submitted → TaskHandler → TaskHandler
after_submission n a r h = record h {
  store = r.store;
  lists = put a r.list h.lists;
  senders = set_done n r.done h.senders;
}

unfoldable pub submit_by : ℕ → Answer → Option Sender → TaskHandler → TaskHandler
unfolding submit_first_event
submit_by n answer none h = h
submit_by n answer (some x) h =
    let r = submit_first_event answer h.store (h.lists x.list) in
    if x.done then h else after_submission n x.list r h

unfoldable pub finish_by : ℕ → Option Sender → TaskHandler → TaskHandler
unfolding remove_task_events
finish_by n none h = h
finish_by n (some x) h =
    if x.done
    then record (remove_task_events x.task_arn h) { senders = drop_sender n h.senders }
    else h

-- A step that cannot be taken changes nothing.
unfoldable pub step : Step → TaskHandler → TaskHandler
unfolding add_state_change_event submit_by finish_by
step (added c) h = add_state_change_event c h
step (submitted n answer) h = submit_by n answer (sender_at n h.senders) h
step (finished n) h = finish_by n (sender_at n h.senders) h
step (written s) h = record h { store = s }

unfoldable pub run : List Step → TaskHandler → TaskHandler
unfolding step
run [] h = h
run (x ∷ xs) h = run xs (step x h)
