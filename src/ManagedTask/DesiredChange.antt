-- ===== src/ManagedTask/DesiredChange.antt =====
-- What the backend's messages do to a task's desired status.
use amazon_ecs_agent.Common.{
  ◌≤◌, ◌<◌, ◌≡◌, ◌⊎◌, inl, inr, arith, Bool-cases, leb→le, false, not, ◌&&◌, ◌==◌, leb,
  if◌then◌else◌, All, ℤ, is_zero,
}
use amazon_ecs_agent.Status.TaskStatus.{TaskStatus, task_stopped}
use amazon_ecs_agent.Task
use amazon_ecs_agent.Task.{
  Task, update_desired_status, essential_container_terminal, set_stop_sequence_number,
  update_task_desired_status,
}
use amazon_ecs_agent.Task.Desired.{Follows, ResourceFollows, update_desired_status_lem}
use amazon_ecs_agent.ManagedTask.Types.{ManagedTask, send, with_task}
use amazon_ecs_agent.ManagedTask.Events.{handle_desired_status_change}

pub stop_sequence-update_desired_status :
    (t : Task) → (update_desired_status t).stop_sequence_number ≡ t.stop_sequence_number
unfolding update_desired_status update_task_desired_status
stop_sequence-update_desired_status t = ground arith

-- The task when the new desired status is set.
abbrev before_change : TaskStatus → ℤ → ManagedTask → Task
before_change desired seqnum m =
    if desired == task_stopped && not (is_zero seqnum) && is_zero m.task.stop_sequence_number
    then set_stop_sequence_number seqnum m.task
    else m.task

before_change_lem :
    (desired : TaskStatus) (seqnum : ℤ) (m : ManagedTask)
    → (before_change desired seqnum m).containers ≡ m.task.containers
unfolding set_stop_sequence_number
before_change_lem desired seqnum m = ground arith

task-handle_desired_status_change :
    (desired : TaskStatus) (seqnum : ℤ) (m : ManagedTask)
    → leb desired m.task.desired_status ≡ false
    → (handle_desired_status_change desired seqnum m).task
      ≡ update_desired_status (Task.set_desired_status desired (before_change desired seqnum m))
unfolding handle_desired_status_change send with_task
task-handle_desired_status_change desired seqnum m h = ground arith

-- The task's desired status never moves back; a message that asks for no more than the task is
-- already to do changes nothing; after any other message the task is to go where the message says,
-- or to stop if an essential container has stopped or is to stop, and its containers and resources
-- follow.
pub handle_desired_status_change_lem :
    (desired : TaskStatus) (seqnum : ℤ) (m : ManagedTask)
    → desired ≤ task_stopped
    → let m' = handle_desired_status_change desired seqnum m in
      ((desired ≤ m.task.desired_status) × (m' ≡ m))
      ⊎ ((m.task.desired_status < m'.task.desired_status)
          × (m'.task.desired_status
              ≡ (if essential_container_terminal m.task.containers then task_stopped else desired))
          × All (Follows m'.task.desired_status) m'.task.containers
          × All (ResourceFollows m'.task.desired_status) m'.task.resources)
unfolding Task.set_desired_status
handle_desired_status_change_lem desired seqnum m bound =
    elim (Bool-cases (leb desired m.task.desired_status)) [
      | inl redundant ↦ inl (
        omega (arith, leb→le desired m.task.desired_status redundant),
        unfold handle_desired_status_change in rw redundant,
      )
      | inr further ↦
          let t = Task.set_desired_status desired (before_change desired seqnum m) in
          let (goal, follow, resources, raised) = update_desired_status_lem t in
          let eq = task-handle_desired_status_change desired seqnum m further in
          let keeps = before_change_lem desired seqnum m in
          inr (
            rw eq (ground (arith, goal, keeps)),
            rw eq (ground (arith, goal, keeps)),
            rw eq follow,
            rw eq resources,
          )
    ]

-- Where a stop sequence number is recorded, the backend's message changes neither it nor what is sent.
pub stop_sequence-handle_desired_status_change :
    (desired : TaskStatus) (seqnum : ℤ) (m : ManagedTask)
    → is_zero m.task.stop_sequence_number ≡ false
    → let m' = handle_desired_status_change desired seqnum m in
      (m'.task.stop_sequence_number ≡ m.task.stop_sequence_number) × (m'.outbox ≡ m.outbox)
unfolding handle_desired_status_change send with_task Task.set_desired_status
stop_sequence-handle_desired_status_change desired seqnum m h =
    ground (arith, stop_sequence-update_desired_status (Task.set_desired_status desired m.task))
