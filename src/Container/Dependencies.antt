-- ===== src/Container/Dependencies.antt =====
-- agent/api/container/container.go: what a container waits for.
use amazon_ecs_agent.Common.{
  Bool, str_eq, String, Option, none, some, List, [], ◌∷◌, ◌++◌, any, length, ◌/=◌, lookup, insert,
  nat_key,
}
use amazon_ecs_agent.Status.ContainerStatus.{ContainerStatus, container_status_none}
use amazon_ecs_agent.Container.Types.{
  Container, DependsOn, ContainerDependency, ResourceStatus, TransitionDependencySet,
}

abbrev pub empty_set : TransitionDependencySet
empty_set = record { container_dependencies = []; resource_dependencies = [] }

abbrev pub set_or_empty : Option TransitionDependencySet → TransitionDependencySet
set_or_empty none = empty_set
set_or_empty (some s) = s

-- `TransitionDependenciesMap[status]`: a missing key reads as the empty set.
unfoldable pub dependencies_at : ContainerStatus → Container → TransitionDependencySet
dependencies_at status c = set_or_empty (lookup status c.transition_dependencies_map)

unfoldable pub build_container_dependency :
    String → ContainerStatus → ContainerStatus → Container → Container
unfolding dependencies_at
build_container_dependency cont_name satisfied_status dependent_status c =
    let deps = dependencies_at dependent_status c in
    record c {
      transition_dependencies_map =
          insert dependent_status
            (record deps {
              container_dependencies =
                  deps.container_dependencies
                  ++ record {
                    container_name = cont_name;
                    satisfied_status = satisfied_status;
                    dependent_status = container_status_none;
                  }
                    ∷ [];
            })
            c.transition_dependencies_map;
    }

unfoldable pub build_resource_dependency :
    String → ResourceStatus → ContainerStatus → Container → Container
unfolding dependencies_at
build_resource_dependency resource_name required_status dependent_status c =
    let deps = dependencies_at dependent_status c in
    record c {
      transition_dependencies_map =
          insert dependent_status
            (record deps {
              resource_dependencies =
                  deps.resource_dependencies
                  ++ record { name = resource_name; required_status = required_status } ∷ [];
            })
            c.transition_dependencies_map;
    }

unfoldable pub set_depends_on : List DependsOn → Container → Container
set_depends_on depends_on c = record c { depends_on = depends_on }

unfoldable pub depends_on_container : String → Container → Bool
unfolding any
depends_on_container name c = any (λ d. str_eq d.container_name name) c.depends_on

-- `len(c.DependsOnUnsafe) != 0`
unfoldable pub has_container_dependencies : Container → Bool
has_container_dependencies c = length c.depends_on /= 0

unfoldable pub add_container_dependency : String → String → Container → Container
add_container_dependency name condition c = record c {
  depends_on = c.depends_on ++ record { container_name = name; condition = condition } ∷ [];
}

-- The loop of `TransitionDependenciesMap.UnmarshalJSON` over a decoded deprecated set: each
-- dependency goes under its `DependentStatus`, which is then 0.
unfoldable pub transition_map_of :
    List ContainerDependency
    → List (ContainerStatus × TransitionDependencySet)
    → List (ContainerStatus × TransitionDependencySet)
transition_map_of [] dep_map = dep_map
transition_map_of (dep ∷ deps) dep_map =
    let set = set_or_empty (lookup dep.dependent_status dep_map) in
    transition_map_of deps (
      insert dep.dependent_status
        (record set {
          container_dependencies =
              set.container_dependencies
              ++ record dep { dependent_status = container_status_none } ∷ [];
        })
        dep_map)
