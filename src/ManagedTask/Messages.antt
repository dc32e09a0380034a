-- ===== src/ManagedTask/Messages.antt =====
-- agent/engine/task_manager.go: the messages that a task's loop reads, in the order in which it reads them.
use amazon_ecs_agent.Common.{List, [], ◌∷◌}
use amazon_ecs_agent.Container.{Time}
use amazon_ecs_agent.ManagedTask.Types.{
  ManagedTask, AcsTransition, DockerContainerChange, ResourceStateChange,
}
use amazon_ecs_agent.ManagedTask.Events.{handle_desired_status_change, handle_container_change}
use amazon_ecs_agent.ManagedTask.ResourceEvents.{handle_resource_state_change}

-- A message of one of the three channels, and the time at which a container's is read.
pub data Message : Type 0 where
  acs_message : AcsTransition → Message
  docker_message : Time → DockerContainerChange → Message
  resource_state_change_event : ResourceStateChange → Message

-- `waitEvent`, when there is a message.
unfoldable pub wait_event : Message → ManagedTask → ManagedTask
wait_event (acs_message transition) m =
    handle_desired_status_change transition.desired_status transition.seqnum m
wait_event (docker_message now change) m = handle_container_change now change m
wait_event (resource_state_change_event change) m = handle_resource_state_change change m

unfoldable pub wait_events : List Message → ManagedTask → ManagedTask
wait_events [] m = m
wait_events (message ∷ messages) m = wait_events messages (wait_event message m)
