-- ===== src/Task/Pause.antt =====
-- Pause containers: they are there before the others and stop after them, and the network's has the user
-- of a proxy.
use amazon_ecs_agent.Common.{
  ◌≡◌, if◌then◌else◌, String, List, [], ◌∷◌, ◌++◌, map, nat_key, ◌⊎◌, ◌≢◌, Option, none,
}
use amazon_ecs_agent.Status.ContainerStatus.{
  ContainerStatus, container_status_none, container_pulled, container_running,
  container_resources_provisioned, container_stopped,
}
use amazon_ecs_agent.Container.{Container, ContainerDependency, is_internal, dependencies_at}
use amazon_ecs_agent.Task.PauseSetup.{
  NetworkPause, network_pause_container_name, namespace_pause_container_name,
  add_namespace_sharing_provisioning_dependency,
}

-- A dependency on each container of the user, that it is STOPPED.
abbrev pub stops_of : List Container → List ContainerDependency
stops_of [] = []
stops_of (c ∷ cs) =
    let rest = stops_of cs in
    if is_internal c
    then rest
    else record {
      container_name = c.name;
      satisfied_status = container_stopped;
      dependent_status = container_status_none;
    }
      ∷ rest

-- What a container of the user gains.
abbrev pub waits_for : String → ContainerStatus → Container → List ContainerDependency
waits_for name satisfied c =
    if is_internal c
    then []
    else record {
      container_name = name;
      satisfied_status = satisfied;
      dependent_status = container_status_none;
    }
      ∷ []

-- The dependencies of each container before it is PULLED.
abbrev pub pulled_after : List Container → List (List ContainerDependency)
pulled_after cs =
    map (λ (c : Container). (dependencies_at container_pulled c).container_dependencies) cs

-- The list is the old one, each of whose containers waits for the pause container, and the pause
-- container, which waits with its stop for each container of the user.
abbrev pub HasPause : String → ContainerStatus → List Container → List Container → Type 0
HasPause name satisfied cs result =
    (waiting : List Container) × (pause : Container) × (result ≡ waiting ++ pause ∷ [])
    × (pause.name ≡ name)
    × (pulled_after waiting
        ≡ map
            (λ (c : Container).
              (dependencies_at container_pulled c).container_dependencies
              ++ waits_for name satisfied c)
            cs)
    × ((dependencies_at container_stopped pause).container_dependencies ≡ stops_of cs)

module _ (decode : String → Option String) where
  abbrev pub Provisions : String → String → List Container → NetworkPause → Type 0
  Provisions ipc_mode pid_mode cs r =
      ((r.error ≡ none)
        × HasPause network_pause_container_name container_resources_provisioned cs r.containers
        × HasPause namespace_pause_container_name container_running r.containers
            (add_namespace_sharing_provisioning_dependency ipc_mode pid_mode r.containers))
      ⊎ ((r.error ≢ none) × (r.user ≡ none) × (r.containers ≡ cs))
