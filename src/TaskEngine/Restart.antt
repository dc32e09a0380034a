-- ===== src/TaskEngine/Restart.antt =====
-- What is known of a container after the agent was started again.
use amazon_ecs_agent.Common.{
  ◌⊎◌, ◌<◌, inl, inr, Bool-cases, ◌∙◌, ltb, not, ◌||◌, ◌/=◌, ◌≤◌, ◌≡◌, arith, true, false,
  if◌then◌else◌, String, str_eq, Option, none, some,
}
use amazon_ecs_agent.Status.ContainerStatus.{ContainerStatus, container_stopped}
use amazon_ecs_agent.Container
use amazon_ecs_agent.Container.{
  Container, NamedError, Time, known_terminal, health_status_should_be_reported, set_created_at,
  set_started_at, set_finished_at, set_health_status,
}
use amazon_ecs_agent.Task.{Task, record_execution_stopped_at, set_execution_stopped_at}
use amazon_ecs_agent.ManagedTask.{
  DockerContainerMetadata, update_container_metadata, new_named_error,
}
use amazon_ecs_agent.TaskEngine.Synchronize.{
  FoundContainer, Description, described, current_state, raise_known_status,
  container_vanished_error, cannot_describe_container_error_name, synchronize_container_status,
}

-- The fields that the rest of the call reads.
metadata_keeps :
    (now : Time) (metadata : DockerContainerMetadata) (c : Container)
    → let d = update_container_metadata now metadata c in
      (d.known_status ≡ c.known_status)
      × (d.desired_status ≡ c.desired_status)
      × (d.sent_status ≡ c.sent_status)
      × (d.essential ≡ c.essential)
unfolding update_container_metadata set_created_at set_started_at set_finished_at set_health_status
metadata_keeps now metadata c = ground arith

described_keeps :
    (now : Time) (metadata : DockerContainerMetadata) (err : Option NamedError) (c : Container)
    → let d = (described now metadata err c).0 in
      (d.known_status ≡ c.known_status)
      × (d.desired_status ≡ c.desired_status)
      × (d.sent_status ≡ c.sent_status)
      × (d.essential ≡ c.essential)
described_keeps now metadata none c = metadata_keeps now metadata c
described_keeps now metadata (some err) c = ground (arith, metadata_keeps now metadata c)

-- The later of the status and the one that the container had is known of it.
abbrev pub Raised : ContainerStatus → Container → Container → Type 0
Raised state c c' =
    ((c.known_status < state) × (c'.known_status ≡ state))
    ⊎ ((state ≤ c.known_status) × (c'.known_status ≡ c.known_status))

-- What is known of the container after Docker's answer, the status and the error of which are given.
abbrev pub Told : Option NamedError → ContainerStatus → Container → Container → Type 0
Told none state c c' = Raised state c c'
Told (some err) state c c' =
    Raised container_stopped c c'
    × (c'.applying_error ≡ (
        if str_eq err.error_name cannot_describe_container_error_name
        then if known_terminal c then c.applying_error else some container_vanished_error
        else some (new_named_error err)))

raised :
    (state : ContainerStatus) (c c1 : Container)
    → c1.known_status ≡ c.known_status
    → Raised state c (raise_known_status state c1)
unfolding Container.set_known_status Container.update_applied_status
raised state c c1 same = elim (Bool-cases (ltb c.known_status state)) [
  | inl later ↦ inl (ground arith, ground arith)
  | inr kept ↦ inr (ground arith, ground arith)
]

applying_error-raise :
    (state : ContainerStatus) (c : Container)
    → (raise_known_status state c).applying_error ≡ c.applying_error
unfolding Container.set_known_status Container.update_applied_status
applying_error-raise state c = ground arith

error-described :
    (now : Time) (metadata : DockerContainerMetadata) (err : NamedError) (c : Container)
    → (described now metadata (some err) c).0.applying_error ≡ (
        if str_eq err.error_name cannot_describe_container_error_name
        then if known_terminal c then c.applying_error else some container_vanished_error
        else some (new_named_error err))
error-described now metadata err c = ground arith

described-Told :
    (now : Time) (metadata : DockerContainerMetadata) (err : Option NamedError)
    (state : ContainerStatus) (c : Container)
    → Told err state c
        (raise_known_status (current_state state err) (described now metadata err c).0)
described-Told now metadata none state c = raised state c _ (described_keeps now metadata none c).0
described-Told now metadata (some err) state c = (
  raised container_stopped c _ (described_keeps now metadata (some err) c).0,
  applying_error-raise container_stopped (described now metadata (some err) c).0
      ∙ error-described now metadata err c,
)

-- A container with an id that is known: where Docker tells its status, it is then known to have the later
-- of that status and its own, and where Docker cannot tell one, the later of STOPPED and its own. Its
-- error is then Docker's, or, where Docker could not describe it, that it vanished, unless it was known
-- to be STOPPED. Its desired and sent statuses stay; and an essential container that is then known to be
-- STOPPED leaves a stop time in its task, where the clock does not read the zero time.
pub synchronize_container_status_lem :
    (now : Time) (docker_id : String) (found : Option FoundContainer) (d : Description)
    (c : Container) (task : Task)
    → str_eq docker_id "" ≡ false
    → 1 ≤ now
    → let r = synchronize_container_status now docker_id found d c task in
      Told d.error d.state c r.container
      × (r.container.desired_status ≡ c.desired_status)
      × (r.container.sent_status ≡ c.sent_status)
      × ((not c.essential
            || (r.container.known_status /= container_stopped)
            || ltb 0 r.task.execution_stopped_at)
          ≡ true)
unfolding synchronize_container_status record_execution_stopped_at set_execution_stopped_at
    Container.set_known_status Container.update_applied_status
synchronize_container_status_lem now docker_id found d c task has_id clock =
    let keeps = described_keeps now d.metadata d.error c in
    let told = described-Told now d.metadata d.error d.state c in
    (rw has_id told, ground (arith, keeps), ground (arith, keeps), ground (arith, keeps))
