-- ===== src/DependencyGraph/Validity.antt =====
-- agent/engine/dependencygraph/graph.go: `ValidDependencies`.
use amazon_ecs_agent.Common.{
  ℕ, zero, suc, Bool, true, false, ◌&&◌, if◌then◌else◌, Option, none, some, List, [], ◌∷◌, ◌++◌,
  length,
}
use amazon_ecs_agent.Container.{Container, Time}
use amazon_ecs_agent.DependencyGraph.Conditions.{
  Verdict, resolved, unresolved, name_map, verify_container_ordering, ordering_can_resolve,
}
use amazon_ecs_agent.DependencyGraph.Resolution.{
  verify_status_resolvable, on_steady_state_can_resolve,
}

abbrev pub is_resolved : Verdict → Bool
is_resolved resolved = true
is_resolved (unresolved d e) = false

unfoldable pub dependencies_can_be_resolved : Time → Container → List Container → Bool
dependencies_can_be_resolved now target by =
    is_resolved (verify_container_ordering now target (name_map by) ordering_can_resolve)
    && verify_status_resolvable target (name_map by) target.steady_state_dependencies
        on_steady_state_can_resolve

-- The inner loop: the first container that can be resolved, and the others in their order.
unfoldable pub take_resolvable :
    Time → List Container → List Container → Option (Container × List Container)
take_resolvable now resolved_by [] = none
take_resolvable now resolved_by (c ∷ cs) =
    let rest = take_resolvable now resolved_by cs in
    if dependencies_can_be_resolved now c resolved_by
    then some (c, cs)
    else elim rest [ none ↦ none | some (d, ds) ↦ some (d, c ∷ ds) ]

-- The outer loop, by the number of rounds left; each round takes one container off the list.
-- The result is the order in which all were resolved, or `none` if none can be: the code only
-- keeps whether there is one.
unfoldable pub resolve_loop : Time → ℕ → List Container → List Container → Option (List Container)
resolve_loop now rounds resolved_by [] = some resolved_by
resolve_loop now zero resolved_by (c ∷ cs) = none
resolve_loop now (suc rounds) resolved_by (c ∷ cs) =
    elim (take_resolvable now resolved_by (c ∷ cs)) [
      | none ↦ none
      | some (d, ds) ↦ resolve_loop now rounds (resolved_by ++ d ∷ []) ds
    ]

abbrev pub is_some {ℓ} : {A : Type ℓ} → Option A → Bool
is_some none = false
is_some (some a) = true

unfoldable pub valid_dependencies : Time → List Container → Bool
valid_dependencies now containers = is_some (resolve_loop now (length containers) [] containers)
