-- ===== src/ManagedTask/Next.antt =====
-- What a container is moved to next.
use amazon_ecs_agent.Common.{◌≤◌, ◌<◌, ◌≡◌, arith, true}
use amazon_ecs_agent.Status.ContainerStatus.{container_stopped}
use amazon_ecs_agent.Container.{
  Container, Time, get_steady_state_status, get_next_known_state_progression,
}
use amazon_ecs_agent.Credentials.{Manager}
use amazon_ecs_agent.Task.{Task}
use amazon_ecs_agent.DependencyGraph.{resolved, dependencies_are_resolved}
use amazon_ecs_agent.ManagedTask.Progress.{container_next_state}

-- A transition that calls Docker moves the container forward, to STOPPED at most, and is only
-- chosen when the container's dependencies are resolved and it is short of its desired status.
-- The container's steady state comes before STOPPED, and it is not to go past STOPPED.
pub container_next_state_forward :
    (now : Time) (manager : Manager) (task : Task) (c : Container)
    → get_steady_state_status c < container_stopped
    → c.desired_status ≤ container_stopped
    → (container_next_state now manager task c).action_required ≡ true
    → let t = container_next_state now manager task c in
      (c.known_status < t.next_state)
      × (t.next_state ≤ container_stopped)
      × (c.known_status < c.desired_status)
      × (dependencies_are_resolved now c task.containers task.execution_credentials_id manager
            task.resources
          ≡ resolved)
unfolding container_next_state get_next_known_state_progression
container_next_state_forward now manager task c s d h = ground arith
