-- ===== src/DependencyGraph/Conditions.antt =====
-- agent/engine/dependencygraph/graph.go: the conditions of a container's `dependsOn`.
-- `time.Now()` is the argument `now`, the same for all the readings of one call.
use amazon_ecs_agent.Common.{
  ◌+◌, Bool, true, false, not, ◌&&◌, ◌||◌, ◌==◌, ◌/=◌, ltb, leb, if◌then◌else◌, str_eq, String,
  Option, none, some, List, [], ◌∷◌, lookup, insert, string_key, ℤ, is_zero,
}
use amazon_ecs_agent.Status.ContainerStatus.{
  container_created, container_stopped, container_healthy,
}
use amazon_ecs_agent.Container.{
  Container, DependsOn, Time, get_steady_state_status, get_start_timeout, duration_not_positive,
  health_status_should_be_reported, is_known_steady_state,
}

abbrev pub create_condition : String
create_condition = "CREATE"

abbrev pub start_condition : String
start_condition = "START"

abbrev pub success_condition : String
success_condition = "SUCCESS"

abbrev pub complete_condition : String
complete_condition = "COMPLETE"

abbrev pub healthy_condition : String
healthy_condition = "HEALTHY"

pub data Condition : Type 0 where
  create start success complete healthy other : Condition

-- The `switch` on the condition's text.
unfoldable pub read_condition : String → Condition
read_condition s =
    if str_eq s create_condition
    then create
    else if str_eq s start_condition
    then start
    else if str_eq s success_condition
    then success
    else if str_eq s complete_condition
    then complete
    else if str_eq s healthy_condition
    then healthy
    else other

-- `nameMap`: of two containers with one name the later is kept.
unfoldable pub add_names : List (String × Container) → List Container → List (String × Container)
add_names names [] = names
add_names names (c ∷ cs) = add_names (insert c.name c names) cs

unfoldable pub name_map : List Container → List (String × Container)
unfolding add_names
name_map by = add_names [] by

abbrev pub is_success_code : Option ℤ → Bool
is_success_code none = false
is_success_code (some code) = is_zero code

abbrev pub has_exit_code : Option ℤ → Bool
has_exit_code none = false
has_exit_code (some code) = true

unfoldable pub has_dependency_stopped_successfully : Container → Bool
has_dependency_stopped_successfully dependency =
    dependency.known_status == container_stopped && is_success_code dependency.known_exit_code

abbrev times_out : Condition → Bool
times_out success = true
times_out complete = true
times_out healthy = true
times_out _ = false

unfoldable pub has_dependency_timed_out : Time → Container → Condition → Bool
has_dependency_timed_out now dependency condition =
    if dependency.started_at == 0 || duration_not_positive (get_start_timeout dependency)
    then false
    else times_out condition && ltb (dependency.started_at + get_start_timeout dependency) now

unfoldable pub verify_container_ordering_status : Container → Bool
verify_container_ordering_status dep =
    dep.desired_status == container_created
    || dep.desired_status == container_stopped
    || dep.desired_status == get_steady_state_status dep

-- `containerOrderingDependenciesCanResolve`
unfoldable pub ordering_can_resolve : Container → Container → Condition → Bool
unfolding verify_container_ordering_status has_dependency_stopped_successfully
    health_status_should_be_reported
ordering_can_resolve target dep create = verify_container_ordering_status dep
ordering_can_resolve target dep start =
    if target.desired_status == container_created
    then dep.desired_status == container_created
      || dep.desired_status == get_steady_state_status dep
    else if target.desired_status == get_steady_state_status target
    then dep.desired_status == get_steady_state_status dep
    else false
ordering_can_resolve target dep success =
    verify_container_ordering_status dep || has_dependency_stopped_successfully dep
ordering_can_resolve target dep complete = verify_container_ordering_status dep
ordering_can_resolve target dep healthy =
    verify_container_ordering_status dep && health_status_should_be_reported dep
ordering_can_resolve target dep other = false

-- `containerOrderingDependenciesIsResolved`
unfoldable pub ordering_is_resolved : Container → Container → Condition → Bool
unfolding has_dependency_stopped_successfully health_status_should_be_reported
ordering_is_resolved target dep create = leb container_created dep.known_status
ordering_is_resolved target dep start =
    if target.desired_status == container_created
    then dep.known_status == container_created || is_known_steady_state dep
    else if target.desired_status == get_steady_state_status target
    then is_known_steady_state dep
    else false
ordering_is_resolved target dep success = has_dependency_stopped_successfully dep
ordering_is_resolved target dep complete =
    dep.known_status == container_stopped && has_exit_code dep.known_exit_code
ordering_is_resolved target dep healthy =
    health_status_should_be_reported dep && dep.health.status == container_healthy
ordering_is_resolved target dep other = false

-- The errors of the package, with the names that their texts give.
pub data DependencyError : Type 0 where
  credentials_not_resolved dependent_container_not_resolved : DependencyError
  container_dependency_not_resolved resource_dependency_not_resolved : DependencyError
  dependency_missing dependency_timed_out dependency_failed dependency_not_resolved :
      String → DependencyError
  stop_order_not_resolved : List String → DependencyError

-- `(*DependsOn, error)`: the nil error, or an error with the dependency that blocks, if any.
pub data Verdict : Type 0 where
  resolved : Verdict
  unresolved : Option DependsOn → DependencyError → Verdict

abbrev pub has_steady_goal : Container → Bool
has_steady_goal target =
    target.desired_status == get_steady_state_status target
    || target.desired_status == container_created

-- The body of the loop of `verifyContainerOrderingStatusResolvable` for a dependency that is there.
unfoldable pub check_dependency :
    Time → Container → (Container → Container → Condition → Bool) → DependsOn → Container → Verdict
unfolding has_dependency_timed_out has_dependency_stopped_successfully
check_dependency now target resolves d dep =
    let condition = read_condition d.condition in
    if ltb target.known_status container_created
      && dep.known_status /= container_stopped
      && has_dependency_timed_out now dep condition
    then unresolved none (dependency_timed_out d.container_name)
    else if str_eq d.condition success_condition
        && has_exit_code dep.known_exit_code
        && not (has_dependency_stopped_successfully dep)
    then unresolved none (dependency_failed d.container_name)
    else if not (resolves target dep condition)
    then unresolved (some d) (dependency_not_resolved d.container_name)
    else resolved

abbrev pub check_found :
    Time
    → Container
    → (Container → Container → Condition → Bool)
    → DependsOn
    → Option Container
    → Verdict
check_found now target resolves d none = unresolved none (dependency_missing d.container_name)
check_found now target resolves d (some dep) = check_dependency now target resolves d dep

-- The statements of a function that returns at the first error.
infixr 5 ◌then_check◌
abbrev pub ◌then_check◌ : Verdict → Verdict → Verdict
resolved then_check v = v
(unresolved d e) then_check v = unresolved d e

unfoldable pub check_dependencies :
    Time
    → Container
    → (Container → Container → Condition → Bool)
    → List (String × Container)
    → List DependsOn
    → Verdict
check_dependencies now target resolves names [] = resolved
check_dependencies now target resolves names (d ∷ ds) =
    check_found now target resolves d (lookup d.container_name names)
    then_check check_dependencies now target resolves names ds

-- `verifyContainerOrderingStatusResolvable`
unfoldable pub verify_container_ordering :
    Time
    → Container
    → List (String × Container)
    → (Container → Container → Condition → Bool)
    → Verdict
verify_container_ordering now target names resolves =
    if has_steady_goal target
    then check_dependencies now target resolves names target.depends_on
    else resolved
