-- ===== src/EventHandler/Batched.antt =====
-- Batches of container events reach the list of their task.
use amazon_ecs_agent.Common.{
  ℕ, ◌==◌, ◌≡◌, refl, sym, ap, ◌∙◌, subst, arith, true, String, str_eq_refl, Option, none, some,
  List, [], ◌∷◌, ◌++◌, All, lookup, remove, string_key, lookup-insert, lookup-remove, Option-cases,
  inl, inr,
}
use mathlib.Core.List.{append_assoc, append-nil}
use amazon_ecs_agent.EventHandler.Events.{
  ContainerChange, TaskChange, Change, container_event, task_event, SendableEvent,
  new_sendable_task_event,
}
use amazon_ecs_agent.EventHandler.Sending.{TaskSendableEvents, send_change}
use amazon_ecs_agent.EventHandler.Handler.{
  TaskHandler, batch_of, batch_container_event, found_or_new, get_task_events, send_change_at,
  flush_batch, add_state_change_event,
}

-- The container changes that an event carries, and those of all events in a list.
abbrev pub carried : Change → List ContainerChange
carried (container_event c) = c ∷ []
carried (task_event t) = t.containers

abbrev pub reported : List SendableEvent → List ContainerChange
reported [] = []
reported (e ∷ es) = carried e.change ++ reported es

abbrev pub events_at : Option ℕ → (ℕ → TaskSendableEvents) → List SendableEvent
events_at none lists = []
events_at (some a) lists = (lists a).events

-- The events that wait in the list of a task.
unfoldable pub listed : String → TaskHandler → List SendableEvent
unfolding lookup
listed arn h = events_at (lookup arn h.tasks_to_events) h.lists

abbrev pub add_containers : List ContainerChange → TaskHandler → TaskHandler
add_containers [] h = h
add_containers (c ∷ cs) h = add_containers cs (add_state_change_event (container_event c) h)

nat_eq_refl : (a : ℕ) → (a == a) ≡ true
nat_eq_refl a = ground arith

reported-append : (es fs : List SendableEvent) → reported (es ++ fs) ≡ reported es ++ reported fs
reported-append [] fs = refl
reported-append (e ∷ es) fs =
    ap (λ (cs : List ContainerChange). carried e.change ++ cs) (reported-append es fs)
    ∙ sym (append_assoc (carried e.change) (reported es) (reported fs))

batched :
    (arn : String) (cs : List ContainerChange) (h : TaskHandler)
    → All (λ c. c.task_arn ≡ arn) cs
    → (batch_of arn (add_containers cs h) ≡ batch_of arn h ++ cs)
      × (listed arn (add_containers cs h) ≡ listed arn h)
unfolding add_state_change_event batch_container_event batch_of listed
batched arn [] h same = (sym (append-nil (batch_of arn h)), refl)
batched arn (c ∷ cs) h (e, es) =
    let h' = batch_container_event c h in
    let (more, same) = batched arn cs h' es in
    let grown : batch_of arn h' ≡ batch_of arn h ++ c ∷ [] =
      subst (λ (a : String). batch_of a h' ≡ batch_of a h ++ c ∷ []) e
        (rw (lookup-insert, str_eq_refl) refl) in
    (
      more
          ∙ ap (λ (xs : List ContainerChange). xs ++ cs) grown
          ∙ append_assoc (batch_of arn h) (c ∷ []) cs,
      same,
    )

sent_at :
    (a : ℕ) (arn : String) (e : SendableEvent) (h : TaskHandler)
    → reported ((send_change_at a arn e h).lists a).events
      ≡ reported (h.lists a).events ++ carried e.change
unfolding send_change_at send_change
sent_at a arn e h =
    rw (nat_eq_refl a) (reported-append (h.lists a).events (e ∷ []))
    ∙ ap (λ (cs : List ContainerChange). reported (h.lists a).events ++ cs)
        (append-nil (carried e.change))

made_at : (h : TaskHandler) (arn : String) → ((found_or_new arn none h).0.lists h.next).events ≡ []
made_at h arn = rw (nat_eq_refl h.next) refl

abbrev flushing : TaskChange → TaskHandler → SendableEvent
flushing t h =
    new_sendable_task_event (record t { containers = t.containers ++ batch_of t.task_arn h })

-- The handler after the batch was taken out of its map.
abbrev taken : String → TaskHandler → TaskHandler
taken arn h = record h { tasks_to_container_states = remove arn h.tasks_to_container_states }

abbrev IsFlushed : TaskChange → TaskHandler → TaskHandler → Type 0
IsFlushed t h h' =
    (reported (listed t.task_arn h') ≡ reported (listed t.task_arn h) ++ batch_of t.task_arn h)
    × (batch_of t.task_arn h' ≡ [])

found-IsFlushed :
    (t : TaskChange) (h : TaskHandler) (a : ℕ)
    → t.containers ≡ []
    → lookup t.task_arn h.tasks_to_events ≡ some a
    → IsFlushed t h (send_change_at a t.task_arn (flushing t h) (taken t.task_arn h))
unfolding listed send_change_at batch_of
found-IsFlushed t h a empty found = (
  rw found (sent_at a t.task_arn (flushing t h) (taken t.task_arn h) ∙ rw empty refl),
  rw (lookup-remove, str_eq_refl) refl,
)

new-IsFlushed :
    (t : TaskChange) (h : TaskHandler)
    → t.containers ≡ []
    → lookup t.task_arn h.tasks_to_events ≡ none
    → IsFlushed t h (
        send_change_at h.next t.task_arn
          (flushing t h)
          (found_or_new t.task_arn none (taken t.task_arn h)).0)
unfolding listed send_change_at batch_of
new-IsFlushed t h empty missing =
    let h1 = (found_or_new t.task_arn none (taken t.task_arn h)).0 in
    (
      rw (lookup-insert, str_eq_refl t.task_arn, missing)
          (sent_at h.next t.task_arn (flushing t h) h1
            ∙ rw (made_at (taken t.task_arn h) t.task_arn, empty) refl),
      rw (lookup-remove, str_eq_refl) refl,
    )

flush_batch-IsFlushed :
    (t : TaskChange) (h : TaskHandler) → t.containers ≡ [] → IsFlushed t h (flush_batch t h)
unfolding flush_batch get_task_events
flush_batch-IsFlushed t h empty = elim (Option-cases (lookup t.task_arn h.tasks_to_events)) [
  | inr (a, found) ↦ subst (IsFlushed t h) (rw found refl) (found-IsFlushed t h a empty found)
  | inl missing ↦ subst (IsFlushed t h) (rw missing refl) (new-IsFlushed t h empty missing)
]

-- The container changes of a task, and a change of the task without any of its own, are added: then
-- the list of the task holds the container changes that it held, after them those that were batched
-- before, and then those that were added, each once and in order, and nothing is batched any more.
pub add_state_change_event-reported :
    (cs : List ContainerChange) (t : TaskChange) (h : TaskHandler)
    → All (λ c. c.task_arn ≡ t.task_arn) cs
    → t.containers ≡ []
    → let h' = add_state_change_event (task_event t) (add_containers cs h) in
      (reported (listed t.task_arn h')
        ≡ reported (listed t.task_arn h) ++ (batch_of t.task_arn h ++ cs))
      × (batch_of t.task_arn h' ≡ [])
unfolding add_state_change_event
add_state_change_event-reported cs t h same empty =
    let (batch, list) = batched t.task_arn cs h same in
    let (out, none_left) = flush_batch-IsFlushed t (add_containers cs h) empty in
    (out ∙ rw (batch, list) refl, none_left)
