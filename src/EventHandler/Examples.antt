-- ===== src/EventHandler/Examples.antt =====
-- A task whose events are added while the goroutine that sent the ones before is about to end.
use amazon_ecs_agent.Common.{
  ◌≡◌, refl, ◌≤◌, ℕ, zero, suc, arith, true, false, none, some, List, [], ◌∷◌, ◌++◌, lookup, insert,
  remove, string_key,
}
use amazon_ecs_agent.Status.TaskStatus.{task_running, task_stopped}
use amazon_ecs_agent.EventHandler.{
  Store, ContainerChange, TaskChange, task_event, new_sendable_task_event, task_should_be_sent,
  task_attachment_should_be_sent, container_should_be_sent, record_task_sent, Answer, accepted,
  failed, TaskSendableEvents, new_task_sendable_events, submit_first_event, submit_task_events,
  send_change, new_task_handler, batch_of, add_state_change_event, flush_batch, get_task_events,
  send_change_at, Step, added, submitted, finished, step, run, submit_by, finish_by,
  remove_task_events,
}
use amazon_ecs_agent.EventHandler.Drained.{submit_task_events-ends}
use amazon_ecs_agent.EventHandler.Served.{IsServed, run-IsServed}
use amazon_ecs_agent.EventHandler.Batched.{
  reported, listed, add_containers, add_state_change_event-reported,
}

-- Nothing was sent, and the containers run.
abbrev store : Store
store = record {
  task_sent_status = λ a. 0;
  container_known_status = λ a. 3;
  container_sent_status = λ a. 0;
  attachment_expired = λ a. false;
  attachment_sent = λ a. false;
}

abbrev running : TaskChange
running = record {
  task_arn = "task";
  status = task_running;
  task = some 7;
  containers = [];
  attachment = none;
}

abbrev stopped : TaskChange
stopped = record {
  task_arn = "task";
  status = task_stopped;
  task = some 7;
  containers = [];
  attachment = none;
}

abbrev web : ContainerChange
web = record { task_arn = "task"; container = 1; status = 3 }

abbrev db : ContainerChange
db = record { task_arn = "task"; container = 2; status = 3 }

abbrev race : List Step
race =
    added (task_event running)
    ∷ submitted 0 accepted
    ∷ added (task_event running)
    ∷ finished 0
    ∷ added (task_event stopped)
    ∷ []

-- The entry that the first goroutine removes is that of the list on which another was started, so that
-- the next event makes a second list, and two goroutines send events of one task.
two_goroutines :
    (run race (new_task_handler store)).senders
    ≡ record { list = 0; task_arn = "task"; done = false }
      ∷ record { list = 1; task_arn = "task"; done = false }
      ∷ []
unfolding run step add_state_change_event flush_batch batch_of get_task_events send_change_at
    send_change submit_by finish_by remove_task_events submit_first_event task_should_be_sent
    task_attachment_should_be_sent container_should_be_sent record_task_sent lookup insert remove
two_goroutines = refl

run-IsServed_example : IsServed (run race (new_task_handler store))
run-IsServed_example = run-IsServed race store

add_state_change_event-reported_example :
    let h' =
      add_state_change_event
        (task_event running)
        (add_containers (web ∷ db ∷ []) (new_task_handler store)) in
    (reported (listed "task" h')
      ≡ reported (listed "task" (new_task_handler store))
        ++ (batch_of "task" (new_task_handler store) ++ web ∷ db ∷ []))
    × (batch_of "task" h' ≡ [])
add_state_change_event-reported_example =
    add_state_change_event-reported (web ∷ db ∷ []) running (new_task_handler store)
      (refl, (refl, tt)) refl

abbrev answers : ℕ → Answer
answers zero = failed
answers (suc n) = accepted

answers_accept : (i : ℕ) → 1 ≤ i → answers i ≡ accepted
answers_accept zero h = absurd (omega (arith, h))
answers_accept (suc i) h = refl

abbrev one_list : TaskSendableEvents
one_list = record { events = new_sendable_task_event running ∷ []; sending = true }

submit_task_events-ends_example :
    (t : Store) × (calls : ℕ) × (submit_task_events 3 answers 0 store one_list
      ≡ some (t, new_task_sendable_events, calls))
    × (calls ≤ 3)
submit_task_events-ends_example =
    submit_task_events-ends answers 1 0 3 store one_list answers_accept (omega arith)
