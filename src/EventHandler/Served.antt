-- ===== src/EventHandler/Served.antt =====
-- Every list that holds events has one goroutine that sends them.
use amazon_ecs_agent.Common.{
  ℕ, ◌≤◌, ◌<◌, ◌≡◌, refl, ap, ◌∙◌, arith, true, false, if◌then◌else◌, String, some, List, [], ◌∷◌,
  lookup, remove, string_key, lookup-insert, lookup-remove, Option-cases, Bool-cases, inl, inr,
}
use amazon_ecs_agent.EventHandler.Events.{
  Store, TaskChange, Change, container_event, task_event, SendableEvent,
}
use amazon_ecs_agent.EventHandler.Sending.{
  Answer, TaskSendableEvents, new_task_sendable_events, Submitted, submit_first_event, send_change,
}
use amazon_ecs_agent.EventHandler.Handler.{
  Sender, TaskHandler, new_task_handler, batch_container_event, get_task_events, send_change_at,
  flush_batch, add_state_change_event,
}
use amazon_ecs_agent.EventHandler.Steps.{
  Step, added, submitted, finished, written, sender_at, drop_sender, remove_task_events,
  after_submission, submit_by, finish_by, step, run,
}
use amazon_ecs_agent.EventHandler.Drained.{submit_first_event-IsProgress}
use amazon_ecs_agent.EventHandler.Senders.{
  active, one_if, active-started, active-set_done, active-drop_sender, active-sender_at,
}

-- A list has one goroutine while `sending` is set and none otherwise, it is empty where it has none,
-- and the map leads to lists that were made.
pub record IsServed (h : TaskHandler) : Type 0 where
  pub one : (a : ℕ) → active a h.senders ≡ one_if (h.lists a).sending
  pub served : (a : ℕ) → (h.lists a).sending ≡ false → (h.lists a).events ≡ []
  pub fresh : (a : ℕ) → h.next ≤ a → (h.lists a).sending ≡ false
  pub known : (arn : String) (a : ℕ) → lookup arn h.tasks_to_events ≡ some a → a < h.next

new-IsServed : (s : Store) → IsServed (new_task_handler s)
unfolding active lookup
new-IsServed s = record {
  one = λ a. refl;
  served = λ a h. refl;
  fresh = λ a h. refl;
  known = λ arn a h. absurd (ground (arith, h));
}

get_task_events-IsServed :
    (arn : String) (h : TaskHandler)
    → IsServed h
    → IsServed (get_task_events arn h).0
      × ((get_task_events arn h).1 < (get_task_events arn h).0.next)
unfolding get_task_events
get_task_events-IsServed arn h s = elim (Option-cases (lookup arn h.tasks_to_events)) [
  | inr (a, found) ↦ rw found (s, s.known arn a found)
  | inl missing ↦ rw missing (
    record {
      one = λ a. ground (arith, s.one a, s.fresh a);
      served = λ a e. ground (arith, s.served a, e);
      fresh = λ a e. ground (arith, s.fresh a, e);
      known = λ arn' a e.
          ground (arith, s.known arn' a, lookup-insert arn arn' h.next h.tasks_to_events, e);
    },
    omega arith,
  )
]

send_change_at-IsServed :
    (a : ℕ) (arn : String) (e : SendableEvent) (h : TaskHandler)
    → IsServed h
    → a < h.next
    → IsServed (send_change_at a arn e h)
unfolding send_change_at send_change
send_change_at-IsServed a arn e h s made =
    let starts = if (h.lists a).sending then false else true in
    record {
      one = λ b. ground (arith, s.one b, s.one a, active-started starts a b arn h.senders);
      served = λ b k. ground (arith, s.served b, k);
      fresh = λ b k. ground (arith, s.fresh b, made, k);
      known = λ arn' b k. s.known arn' b k;
    }

after_submission-IsServed :
    (n a : ℕ) (x : Sender) (r : Submitted) (h : TaskHandler)
    → sender_at n h.senders ≡ some x
    → x.done ≡ false
    → x.list ≡ a
    → (r.done ≡ true → r.list ≡ new_task_sendable_events)
    → (r.done ≡ false → r.list.sending ≡ (h.lists a).sending)
    → IsServed h
    → IsServed (after_submission n a r h)
after_submission-IsServed n a x r h at sends on empty same s =
    let busy = active-sender_at n h.senders x at sends in
    let counted = λ (b : ℕ). active-set_done n b r.done h.senders x at sends in
    let idle = λ (d : r.done ≡ true). ap (λ (l : TaskSendableEvents). l.sending) (empty d) in
    let left = λ (d : r.done ≡ true). ap (λ (l : TaskSendableEvents). l.events) (empty d) in
    record {
      one = λ b. elim (Bool-cases r.done) [
        | inl d ↦ ground (arith, s.one b, busy, s.one x.list, counted b, idle d, d, on)
        | inr d ↦ ground (arith, s.one b, busy, s.one x.list, counted b, same d, d, on)
      ];
      served = λ b k. elim (Bool-cases r.done) [
        | inl d ↦ ground (arith, s.served b, k, left d)
        | inr d ↦ ground (arith, s.served b, k, same d, busy, s.one x.list, on)
      ];
      fresh = λ b k. elim (Bool-cases r.done) [
        | inl d ↦ ground (arith, s.fresh b k, idle d)
        | inr d ↦ ground (arith, s.fresh b k, same d)
      ];
      known = λ arn b k. s.known arn b k;
    }

submit_by-IsServed :
    (n : ℕ) (answer : Answer) (x : Sender) (h : TaskHandler)
    → sender_at n h.senders ≡ some x
    → IsServed h
    → IsServed (submit_by n answer (some x) h)
unfolding submit_by
submit_by-IsServed n answer x h at s =
    let r = submit_first_event answer h.store (h.lists x.list) in
    let (empty, _, _, same) = submit_first_event-IsProgress answer h.store (h.lists x.list) in
    elim (Bool-cases x.done) [
      | inl ended ↦ simp ended s
      | inr sends ↦ simp sends (after_submission-IsServed n x.list x r h at sends refl empty same s)
    ]

remove_task_events-IsServed :
    (n : ℕ) (x : Sender) (h : TaskHandler)
    → sender_at n h.senders ≡ some x
    → x.done ≡ true
    → IsServed h
    → IsServed (record (remove_task_events x.task_arn h) { senders = drop_sender n h.senders })
unfolding remove_task_events
remove_task_events-IsServed n x h at ended s = record {
  one = λ b. active-drop_sender n b h.senders x at ended ∙ s.one b;
  served = λ b k. s.served b k;
  fresh = λ b k. s.fresh b k;
  known =
      λ arn b k. s.known arn b (ground (arith, lookup-remove x.task_arn arn h.tasks_to_events, k));
}

finish_by-IsServed :
    (n : ℕ) (x : Sender) (h : TaskHandler)
    → sender_at n h.senders ≡ some x
    → IsServed h
    → IsServed (finish_by n (some x) h)
unfolding finish_by
finish_by-IsServed n x h at s = elim (Bool-cases x.done) [
  | inl ended ↦ simp ended (remove_task_events-IsServed n x h at ended s)
  | inr sends ↦ simp sends s
]

flush_batch-IsServed : (t : TaskChange) (h : TaskHandler) → IsServed h → IsServed (flush_batch t h)
unfolding flush_batch
flush_batch-IsServed t h s =
    let h1 = record h {
      tasks_to_container_states = remove t.task_arn h.tasks_to_container_states;
    } in
    let s1 : IsServed h1 = record {
      one = s.one;
      served = s.served;
      fresh = s.fresh;
      known = s.known;
    } in
    let (s2, made) = get_task_events-IsServed t.task_arn h1 s1 in
    send_change_at-IsServed (get_task_events t.task_arn h1).1 t.task_arn _
      (get_task_events t.task_arn h1).0 s2 made

add_state_change_event-IsServed :
    (c : Change) (h : TaskHandler) → IsServed h → IsServed (add_state_change_event c h)
unfolding add_state_change_event batch_container_event
add_state_change_event-IsServed (task_event t) h s = flush_batch-IsServed t h s
add_state_change_event-IsServed (container_event c) h s = record {
  one = s.one;
  served = s.served;
  fresh = s.fresh;
  known = s.known;
}

step-IsServed : (x : Step) (h : TaskHandler) → IsServed h → IsServed (step x h)
unfolding step submit_by finish_by
step-IsServed (added c) h s = add_state_change_event-IsServed c h s
step-IsServed (submitted n answer) h s = elim (Option-cases (sender_at n h.senders)) [
  | inl nobody ↦ rw nobody s
  | inr (x, at) ↦ rw at (submit_by-IsServed n answer x h at s)
]
step-IsServed (finished n) h s = elim (Option-cases (sender_at n h.senders)) [
  | inl nobody ↦ rw nobody s
  | inr (x, at) ↦ rw at (finish_by-IsServed n x h at s)
]
step-IsServed (written store) h s = record {
  one = s.one;
  served = s.served;
  fresh = s.fresh;
  known = s.known;
}

run_from-IsServed : (xs : List Step) (h : TaskHandler) → IsServed h → IsServed (run xs h)
unfolding run
run_from-IsServed [] h s = s
run_from-IsServed (x ∷ xs) h s = run_from-IsServed xs (step x h) (step-IsServed x h s)

-- In every run of a new handler, whatever the backend answers, whatever the engine writes, and in
-- whatever order the goroutines go on, exactly one goroutine is in its loop on each list whose
-- `sending` is set and none on any other, and no list without one holds an event: no event waits
-- unattended, and none is sent by two goroutines that share its list.
pub run-IsServed : (xs : List Step) (s : Store) → IsServed (run xs (new_task_handler s))
run-IsServed xs s = run_from-IsServed xs (new_task_handler s) (new-IsServed s)
