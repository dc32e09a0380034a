-- ===== src/DependencyGraph/Resolution.antt =====
-- agent/engine/dependencygraph/graph.go: `DependenciesAreResolved`.
use amazon_ecs_agent.Common.{
  Bool, true, false, not, ◌&&◌, ◌||◌, leb, if◌then◌else◌, str_eq, String, Option, none, some, List,
  [], ◌∷◌, ◌++◌, lookup, insert, string_key,
}
use amazon_ecs_agent.Status.ContainerStatus.{container_created, container_pulled, container_stopped}
use amazon_ecs_agent.Container.{
  Container, DependsOn, Time, ContainerDependency, ResourceDependency, get_steady_state_status,
  should_pull_with_execution_role, get_next_known_state_progression, dependencies_at,
  known_terminal, desired_terminal,
}
use amazon_ecs_agent.Credentials.{Manager, get_task_credentials}
use amazon_ecs_agent.Resource.{TaskResource}
use amazon_ecs_agent.DependencyGraph.Conditions.{
  Verdict, resolved, unresolved, credentials_not_resolved, dependent_container_not_resolved,
  container_dependency_not_resolved, resource_dependency_not_resolved, stop_order_not_resolved,
  has_steady_goal, name_map, ◌then_check◌, verify_container_ordering, ordering_is_resolved,
}

abbrev is_there {ℓ} : {A : Type ℓ} → Option A → Bool
is_there none = false
is_there (some a) = true

unfoldable pub execution_credentials_resolved : Container → String → Manager → Bool
execution_credentials_resolved target id manager =
    if leb container_pulled target.known_status
      || not (should_pull_with_execution_role target)
      || leb container_stopped target.desired_status
    then true
    else is_there (get_task_credentials id manager)

abbrev pub passes {ℓ} : {A : Type ℓ} → (A → Bool) → Option A → Bool
passes test none = false
passes test (some a) = test a

-- The loop of `verifyStatusResolvable`.
unfoldable pub all_resolve : (Container → Bool) → List (String × Container) → List String → Bool
all_resolve resolves names [] = true
all_resolve resolves names (d ∷ ds) =
    passes resolves (lookup d names) && all_resolve resolves names ds

unfoldable pub verify_status_resolvable :
    Container → List (String × Container) → List String → (Container → Container → Bool) → Bool
unfolding all_resolve
verify_status_resolvable target names dependencies resolves =
    if has_steady_goal target then all_resolve (resolves target) names dependencies else true

unfoldable pub on_steady_state_can_resolve : Container → Container → Bool
on_steady_state_can_resolve target run =
    leb container_created target.desired_status
    && leb (get_steady_state_status run) run.desired_status

unfoldable pub on_steady_state_is_resolved : Container → Container → Bool
on_steady_state_is_resolved target run =
    leb container_created target.desired_status
    && leb (get_steady_state_status run) run.known_status

unfoldable pub container_dependencies_resolved :
    List (String × Container) → List ContainerDependency → Bool
container_dependencies_resolved names [] = true
container_dependencies_resolved names (d ∷ ds) =
    passes (λ dep. leb d.satisfied_status dep.known_status) (lookup d.container_name names)
    && container_dependencies_resolved names ds

-- `verifyContainerDependenciesResolved`
unfoldable pub verify_container_dependencies_resolved : Container → List (String × Container) → Bool
unfolding container_dependencies_resolved
verify_container_dependencies_resolved target names =
    let deps = dependencies_at (get_next_known_state_progression target) target in
    container_dependencies_resolved names deps.container_dependencies

unfoldable pub resource_dependencies_resolved :
    List (String × TaskResource) → List ResourceDependency → Bool
resource_dependencies_resolved resources [] = true
resource_dependencies_resolved resources (d ∷ ds) =
    passes (λ dep. leb d.required_status dep.known_status) (lookup d.name resources)
    && resource_dependencies_resolved resources ds

-- `verifyResourceDependenciesResolved`
unfoldable pub verify_resource_dependencies_resolved :
    Container → List (String × TaskResource) → Bool
unfolding resource_dependencies_resolved
verify_resource_dependencies_resolved target resources =
    let deps = dependencies_at (get_next_known_state_progression target) target in
    resource_dependencies_resolved resources deps.resource_dependencies

-- `verifyTransitionDependenciesResolved`
unfoldable pub verify_transition_dependencies :
    Container → List (String × Container) → List (String × TaskResource) → Verdict
unfolding verify_container_dependencies_resolved verify_resource_dependencies_resolved
verify_transition_dependencies target names resources =
    if not (verify_container_dependencies_resolved target names)
    then unresolved none container_dependency_not_resolved
    else if not (verify_resource_dependencies_resolved target resources)
    then unresolved none resource_dependency_not_resolved
    else resolved

-- The inner loop of `verifyShutdownOrder`: one entry for each dependency on the target that a
-- container which is not stopped declares.
unfoldable pub blocking_names : Container → Container → List DependsOn → List String
blocking_names target existing [] = []
blocking_names target existing (d ∷ ds) =
    let rest = blocking_names target existing ds in
    if str_eq d.container_name target.name && not (known_terminal existing)
    then existing.name ∷ rest
    else rest

-- The loop of `verifyShutdownOrder` over the map's values. Go visits them in any order.
unfoldable pub missing_shutdown_dependencies : Container → List (String × Container) → List String
unfolding blocking_names
missing_shutdown_dependencies target [] = []
missing_shutdown_dependencies target ((n, existing) ∷ names) =
    blocking_names target existing existing.depends_on ++ missing_shutdown_dependencies target names

abbrev pub shutdown_verdict : List String → Verdict
shutdown_verdict [] = resolved
shutdown_verdict (n ∷ ns) = unresolved none (stop_order_not_resolved (n ∷ ns))

unfoldable pub verify_shutdown_order : Container → List (String × Container) → Verdict
unfolding missing_shutdown_dependencies
verify_shutdown_order target names = shutdown_verdict (missing_shutdown_dependencies target names)

-- `resourcesMap`
unfoldable pub add_resources :
    List (String × TaskResource) → List TaskResource → List (String × TaskResource)
add_resources resources [] = resources
add_resources resources (r ∷ rs) = add_resources (insert r.name r resources) rs

unfoldable pub resources_map : List TaskResource → List (String × TaskResource)
unfolding add_resources
resources_map resources = add_resources [] resources

unfoldable pub dependencies_are_resolved :
    Time → Container → List Container → String → Manager → List TaskResource → Verdict
dependencies_are_resolved now target by id manager resources =
    let names = name_map by in
    (if execution_credentials_resolved target id manager
      then resolved
      else unresolved none credentials_not_resolved)
    then_check verify_container_ordering now target names ordering_is_resolved
    then_check (if verify_status_resolvable target names target.steady_state_dependencies
          on_steady_state_is_resolved
        then resolved
        else unresolved none dependent_container_not_resolved)
    then_check verify_transition_dependencies target names (resources_map resources)
    then_check (if desired_terminal target && not (known_terminal target)
        then verify_shutdown_order target names
        else resolved)
