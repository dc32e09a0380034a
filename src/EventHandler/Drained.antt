-- ===== src/EventHandler/Drained.antt =====
-- The goroutine that sends a task's events empties its list.
use amazon_ecs_agent.Common.{
  ℕ, zero, suc, ◌+◌, ◌-◌, ◌≤◌, ◌≡◌, refl, arith, Bool, true, false, Option, none, some, List, [],
  ◌∷◌, length, ◌⊎◌, inl, inr, Bool-cases, leb, leb→le,
}
use amazon_ecs_agent.EventHandler.Events.{
  Store, Change, SendableEvent, task_should_be_sent, task_attachment_should_be_sent,
  container_should_be_sent, record_container_sent, record_task_sent, record_attachment_sent,
}
use amazon_ecs_agent.EventHandler.Sending.{
  Answer, accepted, invalid_parameter, failed, TaskSendableEvents, new_task_sendable_events,
  Submitted, removed_first, send_container, send_task, submit_event, submit_listed,
  submit_first_event, submit_task_events,
}

-- The goroutine is done where it leaves the list empty, nothing is added to the list, and an event that
-- the backend accepts is removed, and `sending` stays while the goroutine is not done. `es` are the events
-- after the first one.
abbrev pub IsProgress : Answer → Bool → List SendableEvent → Submitted → Type 0
IsProgress answer sending es r =
    (r.done ≡ true → r.list ≡ new_task_sendable_events)
    × (length r.list.events ≤ suc (length es))
    × (answer ≡ accepted → length r.list.events ≤ length es)
    × (r.done ≡ false → r.list.sending ≡ sending)

removed_first-IsProgress :
    (answer : Answer) (s : Store) (request : Option Change) (sending : Bool)
    (es : List SendableEvent)
    → IsProgress answer sending es (removed_first s request sending es)
removed_first-IsProgress answer s request sending [] =
    (λ d. refl, omega arith, λ a. omega arith, λ d. absurd (ground (arith, d)))
removed_first-IsProgress answer s request sending (e ∷ es) =
    (λ d. absurd (ground (arith, d)), omega arith, λ a. omega arith, λ d. refl)

send_container-IsProgress :
    (answer : Answer) (s : Store) (sending : Bool) (e : SendableEvent) (es : List SendableEvent)
    → IsProgress answer sending es (send_container answer s sending e es)
send_container-IsProgress accepted s sending e es =
    removed_first-IsProgress accepted (record_container_sent e.change s) (some e.change) sending es
send_container-IsProgress invalid_parameter s sending e es =
    (λ d. absurd (ground (arith, d)), omega arith, λ a. absurd (ground (arith, a)), λ d. refl)
send_container-IsProgress failed s sending e es =
    (λ d. absurd (ground (arith, d)), omega arith, λ a. absurd (ground (arith, a)), λ d. refl)

send_task-IsProgress :
    (set_sent : Change → Store → Store) (answer : Answer) (s : Store) (sending : Bool)
    (e : SendableEvent) (es : List SendableEvent)
    → IsProgress answer sending es (send_task set_sent answer s sending e es)
send_task-IsProgress set_sent accepted s sending e es =
    removed_first-IsProgress accepted (set_sent e.change s) (some e.change) sending es
send_task-IsProgress set_sent invalid_parameter s sending e es =
    (λ d. absurd (ground (arith, d)), omega arith, λ a. omega arith, λ d. refl)
send_task-IsProgress set_sent failed s sending e es =
    (λ d. absurd (ground (arith, d)), omega arith, λ a. absurd (ground (arith, a)), λ d. refl)

submit_event-IsProgress :
    (answer : Answer) (s : Store) (sending : Bool) (e : SendableEvent) (es : List SendableEvent)
    → IsProgress answer sending es (submit_event answer s sending e es)
submit_event-IsProgress answer s sending e es = elim (Bool-cases (container_should_be_sent s e)) [
  | inl c ↦ rw c (send_container-IsProgress answer s sending e es)
  | inr no_container ↦ rw no_container (elim (Bool-cases (task_should_be_sent s e)) [
    | inl t ↦ rw t (send_task-IsProgress record_task_sent answer s sending e es)
    | inr no_task ↦ rw no_task (elim (Bool-cases (task_attachment_should_be_sent s e)) [
      | inl a ↦ rw a (send_task-IsProgress record_attachment_sent answer s sending e es)
      | inr redundant ↦ rw redundant (removed_first-IsProgress answer s none sending es)
    ])
  ])
]

-- With an empty list the goroutine is done, with another it makes progress.
pub submit_first_event-IsProgress :
    (answer : Answer) (s : Store) (l : TaskSendableEvents)
    → let r = submit_first_event answer s l in
      (r.done ≡ true → r.list ≡ new_task_sendable_events)
      × (length r.list.events ≤ length l.events)
      × (answer ≡ accepted → (r.done ≡ true) ⊎ (suc (length r.list.events) ≤ length l.events))
      × (r.done ≡ false → r.list.sending ≡ l.sending)
unfolding submit_first_event
submit_first_event-IsProgress answer s l = go l.events
  where
    go :
        (es : List SendableEvent)
        → let r = submit_listed answer s l.sending es in
          (r.done ≡ true → r.list ≡ new_task_sendable_events)
          × (length r.list.events ≤ length es)
          × (answer ≡ accepted → (r.done ≡ true) ⊎ (suc (length r.list.events) ≤ length es))
          × (r.done ≡ false → r.list.sending ≡ l.sending)
    go [] = (λ d. refl, omega arith, λ a. inl refl, λ d. absurd (ground (arith, d)))
    go (e ∷ es) =
        let (empty, shorter, less, same) = submit_event-IsProgress answer s l.sending e es in
        (empty, shorter, λ a. inr (omega (arith, less a)), same)

-- A round that does not end the loop leaves fewer rounds to come.
less_left :
    (answers : ℕ → Answer) (k n fuel : ℕ) (s : Store) (l : TaskSendableEvents)
    → ((i : ℕ) → k ≤ i → answers i ≡ accepted)
    → suc ((k - n) + length l.events) ≤ suc fuel
    → (submit_first_event (answers n) s l).done ≡ false
    → suc ((k - suc n) + length (submit_first_event (answers n) s l).list.events) ≤ fuel
less_left answers k n fuel s l accepts enough more =
    let (_, shorter, less, _) = submit_first_event-IsProgress (answers n) s l in
    elim (Bool-cases (leb k n)) [
      | inl late ↦ elim (less (accepts n (leb→le k n late))) [
        | inl finished ↦ absurd (ground (arith, finished, more))
        | inr shrunk ↦ ground (arith, shrunk, late, enough)
      ]
      | inr early ↦ ground (arith, shorter, early, enough)
    ]

-- Where the backend accepts every change from the call with number `k` on, the goroutine that sends the
-- events of a list that nothing is added to ends and leaves the list empty, with `sending` not set. From
-- the call with number `n` on it takes as many calls as come before that with number `k`, one for each
-- event, and one more, at most.
pub submit_task_events-ends :
    (answers : ℕ → Answer) (k n fuel : ℕ) (s : Store) (l : TaskSendableEvents)
    → ((i : ℕ) → k ≤ i → answers i ≡ accepted)
    → suc ((k - n) + length l.events) ≤ fuel
    → (t : Store) × (calls : ℕ) × (submit_task_events fuel answers n s l
        ≡ some (t, new_task_sendable_events, calls))
      × (calls ≤ suc (n + (k - n) + length l.events))
unfolding submit_task_events
submit_task_events-ends answers k n zero s l accepts enough = absurd (omega arith)
submit_task_events-ends answers k n (suc fuel) s l accepts enough =
    let r = submit_first_event (answers n) s l in
    let (empty, _, _, _) = submit_first_event-IsProgress (answers n) s l in
    elim (Bool-cases r.done) [
      | inl finished ↦ (r.store, suc n, rw (finished, empty finished) refl, omega arith)
      | inr more ↦
          let enough' = less_left answers k n fuel s l accepts enough more in
          let (t, calls, e, bound) =
            submit_task_events-ends answers k (suc n) fuel r.store r.list accepts enough' in
          let fewer =
            less_left answers k n ((k - n) + length l.events) s l accepts (omega arith) more in
          (t, calls, rw more e, omega (arith, bound, fewer))
    ]
