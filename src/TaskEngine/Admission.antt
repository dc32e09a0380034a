-- ===== src/TaskEngine/Admission.antt =====
-- The tasks that the engine manages.
use amazon_ecs_agent.Common.{
  ◌≡◌, refl, ap, subst, arith, true, false, any, if◌then◌else◌, String, str_eq, str_eq_iff, Option,
  none, some, List, [], ◌∷◌, lookup, insert, string_key, lookup-insert, lookup-remove, ◌⊎◌, inl,
  inr, Bool-cases, Option-cases,
}
use mathlib.Core.List.{Perm}
use amazon_ecs_agent.Status.TaskStatus.{task_stopped}
use amazon_ecs_agent.Container.{Container, Time}
use amazon_ecs_agent.DependencyGraph.{valid_dependencies}
use amazon_ecs_agent.DependencyGraph.Order.{ResolvesInOrder, valid_dependencies_sound}
use amazon_ecs_agent.Task
use amazon_ecs_agent.Task.{Task, update_desired_status}
use amazon_ecs_agent.StateChange.{TaskStateChange, new_task_state_change_event}
use amazon_ecs_agent.TaskEngine.Add.{
  TaskEngine, new_task_engine, send_event, emit_event_of_task, is_task_managed, start_task,
  stop_at_once, update_task, dependency_error, add_new_task, add_task_to_engine, drop_arn,
  delete_task, EngineCall, add_called, delete_called, call, calls,
}

-- A task that may be managed: its containers can be resolved in some order.
abbrev pub HasOrder : Task → Type 0
HasOrder t =
    (now : Time) × (order : List Container) × Perm t.containers order × ResolvesInOrder now [] order

abbrev pub IsStopped : Task → Type 0
IsStopped t = (t.known_status ≡ task_stopped) × (t.desired_status ≡ task_stopped)

-- Every task in the engine's state is managed and has an order of its containers, or is stopped and not
-- managed; and every managed ARN has a task.
pub record IsAdmitted (e : TaskEngine) : Type 0 where
  pub stored :
      (arn : String) (t : Task)
      → lookup arn e.tasks ≡ some t
      → ((is_task_managed arn e ≡ true) × HasOrder t)
        ⊎ ((is_task_managed arn e ≡ false) × IsStopped t)
  pub managed :
      (arn : String) → is_task_managed arn e ≡ true → (t : Task) × (lookup arn e.tasks ≡ some t)

new-IsAdmitted : IsAdmitted new_task_engine
unfolding any lookup
new-IsAdmitted = record {
  stored = λ arn t h. absurd (ground (arith, h));
  managed = λ arn h. absurd (ground (arith, h));
}

-- Effects do not count.
same-IsAdmitted :
    (e e' : TaskEngine)
    → e'.tasks ≡ e.tasks
    → e'.managed_tasks ≡ e.managed_tasks
    → IsAdmitted e
    → IsAdmitted e'
same-IsAdmitted e e' tasks managed h = record {
  stored = rw (tasks, managed) h.stored;
  managed = rw (tasks, managed) h.managed;
}

event-IsAdmitted :
    (arn reason : String) (task : Task) (e : TaskEngine)
    → IsAdmitted e
    → IsAdmitted (emit_event_of_task arn task reason e)
unfolding emit_event_of_task
event-IsAdmitted arn reason task e h = go (new_task_state_change_event task reason)
  where
    go : (o : Option TaskStateChange) → IsAdmitted (send_event arn o e)
    go none = h
    go (some event) = same-IsAdmitted e (send_event arn (some event) e) refl refl h

abbrev get_or : Task → Option Task → Task
get_or t none = t
get_or t (some u) = u

unmanaged :
    (arn : String) (e : TaskEngine)
    → IsAdmitted e
    → lookup arn e.tasks ≡ none
    → is_task_managed arn e ≡ false
unmanaged arn e h missing = elim (Bool-cases (is_task_managed arn e)) [
  | inl held ↦ let (t, found) = h.managed arn held in absurd (ground (arith, missing, found))
  | inr free ↦ free
]

started-IsAdmitted :
    (now : Time) (arn : String) (task : Task) (e : TaskEngine)
    → valid_dependencies now task.containers ≡ true
    → IsAdmitted e
    → IsAdmitted (start_task arn (record e { tasks = insert arn task e.tasks }))
unfolding start_task any
started-IsAdmitted now arn task e valid h =
    let (order, perm, resolves, _) = valid_dependencies_sound now task.containers valid in
    let ordered : HasOrder task = (now, order, perm, resolves) in
    record {
      stored = λ arn' t. rw lookup-insert (elim (Bool-cases (str_eq arn arn')) [
        | inl same ↦ rw same (λ found. inl (refl, subst HasOrder (ap (get_or task) found) ordered))
        | inr other ↦ rw other (h.stored arn' t)
      ]);
      managed = λ arn'. rw lookup-insert (elim (Bool-cases (str_eq arn arn')) [
        | inl same ↦ rw same (λ m. (task, refl))
        | inr other ↦ rw other (h.managed arn')
      ]);
    }

stopped-IsAdmitted :
    (arn : String) (task : Task) (e : TaskEngine)
    → IsStopped task
    → lookup arn e.tasks ≡ none
    → IsAdmitted e
    → IsAdmitted (record e { tasks = insert arn task e.tasks })
stopped-IsAdmitted arn task e stopped missing h =
    let free = unmanaged arn e h missing in
    record {
      stored = λ arn' t. rw lookup-insert (elim (Bool-cases (str_eq arn arn')) [
        | inl same ↦ rw same (λ found. inr (
          subst (λ (a : String). is_task_managed a e ≡ false) ((str_eq_iff arn arn').0 same) free,
          subst IsStopped (ap (get_or task) found) stopped,
        ))
        | inr other ↦ rw other (h.stored arn' t)
      ]);
      managed = λ arn'. rw lookup-insert (elim (Bool-cases (str_eq arn arn')) [
        | inl same ↦ rw same (λ m. (task, refl))
        | inr other ↦ rw other (h.managed arn')
      ]);
    }

is_managed-drop_arn :
    (arn a : String) (as' : List String)
    → any (λ b. str_eq b a) (drop_arn arn as')
      ≡ (if str_eq arn a then false else any (λ b. str_eq b a) as')
unfolding any
is_managed-drop_arn arn a [] = ground arith
is_managed-drop_arn arn a (b ∷ bs) =
    ground (arith, is_managed-drop_arn arn a bs, str_eq_iff b arn, str_eq_iff b a, str_eq_iff arn a)

delete_task-IsAdmitted :
    (arn : String) (e : TaskEngine) → IsAdmitted e → IsAdmitted (delete_task arn e)
unfolding delete_task
delete_task-IsAdmitted arn e h = record {
  stored = λ arn' t.
      rw (lookup-remove, is_managed-drop_arn arn arn' e.managed_tasks)
        (elim (Bool-cases (str_eq arn arn')) [
          | inl same ↦ rw same (λ found. absurd (ground (arith, found)))
          | inr other ↦ rw other (h.stored arn' t)
        ]);
  managed = λ arn'.
      rw (lookup-remove, is_managed-drop_arn arn arn' e.managed_tasks)
        (elim (Bool-cases (str_eq arn arn')) [
          | inl same ↦ rw same (λ m. absurd (ground (arith, m)))
          | inr other ↦ rw other (h.managed arn')
        ]);
}

update_task-IsAdmitted :
    (arn : String) (update : Task) (e : TaskEngine)
    → IsAdmitted e
    → IsAdmitted (update_task arn update e)
unfolding update_task
update_task-IsAdmitted arn update e h = elim (Bool-cases (is_task_managed arn e)) [
  | inl held ↦ rw held (same-IsAdmitted e _ refl refl h)
  | inr free ↦ rw free h
]

stop_at_once-IsStopped : (now : Time) (task : Task) → IsStopped (stop_at_once now task)
unfolding Task.set_desired_status Task.set_known_status
stop_at_once-IsStopped now task = (refl, refl)

add_new_task-IsAdmitted :
    (now : Time) (arn : String) (task : Task) (e : TaskEngine)
    → lookup arn e.tasks ≡ none
    → IsAdmitted e
    → IsAdmitted (add_new_task now arn task e)
unfolding add_new_task
add_new_task-IsAdmitted now arn task0 e missing h =
    let task = update_desired_status task0 in
    elim (Bool-cases (valid_dependencies now task.containers)) [
      | inl valid ↦ rw valid (started-IsAdmitted now arn task e valid h)
      | inr invalid ↦ rw invalid (
          event-IsAdmitted arn (dependency_error arn) (stop_at_once now task) _ (
            stopped-IsAdmitted arn (stop_at_once now task) e (stop_at_once-IsStopped now task)
              missing h))
    ]

add_task_to_engine-IsAdmitted :
    (now : Time) (arn : String) (err : Option String) (task : Task) (e : TaskEngine)
    → IsAdmitted e
    → IsAdmitted (add_task_to_engine now arn err task e)
unfolding add_task_to_engine
add_task_to_engine-IsAdmitted now arn (some err) task e h =
    event-IsAdmitted arn err (stop_at_once now task) e h
add_task_to_engine-IsAdmitted now arn none task e h = elim (Option-cases (lookup arn e.tasks)) [
  | inl missing ↦ rw missing (add_new_task-IsAdmitted now arn task e missing h)
  | inr (t, found) ↦ rw found (update_task-IsAdmitted arn task e h)
]

calls_from-IsAdmitted :
    (xs : List EngineCall) (e : TaskEngine) → IsAdmitted e → IsAdmitted (calls xs e)
unfolding calls call
calls_from-IsAdmitted [] e h = h
calls_from-IsAdmitted (add_called now arn err task ∷ xs) e h =
    calls_from-IsAdmitted xs (add_task_to_engine now arn err task e)
      (add_task_to_engine-IsAdmitted now arn err task e h)
calls_from-IsAdmitted (delete_called arn ∷ xs) e h =
    calls_from-IsAdmitted xs (delete_task arn e) (delete_task-IsAdmitted arn e h)

-- After any additions and deletions, a task that the engine's state has, as it was when it was added, is
-- managed and has an order of all its containers in which each can be resolved by those before it, or
-- it is stopped and not managed; and the state has every task that is managed.
pub calls-IsAdmitted : (xs : List EngineCall) → IsAdmitted (calls xs new_task_engine)
calls-IsAdmitted xs = calls_from-IsAdmitted xs new_task_engine new-IsAdmitted
