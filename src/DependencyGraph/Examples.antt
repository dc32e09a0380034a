-- ===== src/DependencyGraph/Examples.antt =====
-- A task of a web server that starts after its database.
use amazon_ecs_agent.Common.{
  ◌≡◌, ◌≢◌, ◌↔◌, ◌∙◌, refl, sym, ap, inl, inr, arith, List, [], ◌∷◌, ◌++◌, true, false, str_eq,
  str_eq_iff, lookup, insert, string_key, All, some,
}
use mathlib.Core.List.{Perm}
use mathlib.Core.List.Perm
use amazon_ecs_agent.Container.{Container, DependsOn}
use amazon_ecs_agent.Samples.{container, db, web, starts_after}
use amazon_ecs_agent.DependencyGraph
use amazon_ecs_agent.DependencyGraph.{
  valid_dependencies, resolved, unresolved, dependency_not_resolved, name_map, read_condition,
  check_dependencies, verify_container_ordering, ordering_is_resolved, dependencies_are_resolved,
  verify_transition_dependencies, resources_map,
}
use amazon_ecs_agent.DependencyGraph.Names.{Unambiguous}
use amazon_ecs_agent.DependencyGraph.Order.{
  ResolvesInOrder, valid_dependencies_sound, valid_dependencies_complete,
}
use amazon_ecs_agent.DependencyGraph.Backward.{DependsBackward}
use amazon_ecs_agent.DependencyGraph.Resolved.{
  IsMet, verify_container_ordering_iff, check_dependencies_blocked,
}
use amazon_ecs_agent.DependencyGraph.StopOrder.{LetsStop, stop_iff}

abbrev both : List Container
both = web ∷ db ∷ []

abbrev in_order : List Container
in_order = db ∷ web ∷ []

both_valid : valid_dependencies 0 both ≡ true
unfolding valid_dependencies DependencyGraph.resolve_loop DependencyGraph.take_resolvable
    DependencyGraph.dependencies_can_be_resolved DependencyGraph.verify_container_ordering
    DependencyGraph.check_dependencies DependencyGraph.check_dependency
    DependencyGraph.ordering_can_resolve DependencyGraph.read_condition
    DependencyGraph.verify_status_resolvable name_map lookup insert
both_valid = refl

valid_dependencies_sound_example :
    (order : List Container) × Perm both order
    × ResolvesInOrder 0 [] order
    × DependsBackward [] order
valid_dependencies_sound_example = valid_dependencies_sound 0 both both_valid

other_names : db.name ≢ web.name
other_names e = let same : str_eq "db" "web" ≡ true = (str_eq_iff "db" "web").1 e in cc

in_order-Unambiguous : Unambiguous in_order
in_order-Unambiguous x y (inl a) (inl b) e = a ∙ sym b
in_order-Unambiguous x y (inl a) (inr (inl b)) e =
    absurd
      (other_names (ap (λ (c : Container). c.name) (sym a) ∙ e ∙ ap (λ (c : Container). c.name) b))
in_order-Unambiguous x y (inr (inl a)) (inl b) e = absurd (
    other_names (ap (λ (c : Container). c.name) (sym b) ∙ sym e ∙ ap (λ (c : Container). c.name) a))
in_order-Unambiguous x y (inr (inl a)) (inr (inl b)) e = a ∙ sym b
in_order-Unambiguous x y (inr (inr no_more)) b e = absurd no_more
in_order-Unambiguous x y (inl a) (inr (inr no_more)) e = absurd no_more
in_order-Unambiguous x y (inr (inl a)) (inr (inr no_more)) e = absurd no_more

in_order_resolves : ResolvesInOrder 0 [] in_order
unfolding DependencyGraph.dependencies_can_be_resolved DependencyGraph.verify_container_ordering
    DependencyGraph.check_dependencies DependencyGraph.check_dependency
    DependencyGraph.ordering_can_resolve DependencyGraph.read_condition
    DependencyGraph.verify_status_resolvable name_map lookup insert
in_order_resolves = (refl, (refl, tt))

valid_dependencies_complete_example : valid_dependencies 0 both ≡ true
valid_dependencies_complete_example =
    valid_dependencies_complete 0 both in_order in_order-Unambiguous (Perm.swap db web [])
      in_order_resolves

verify_container_ordering_iff_example :
    (verify_container_ordering 0 web (name_map both) ordering_is_resolved ≡ resolved)
    ↔ All (IsMet 0 web (name_map both)) web.depends_on
verify_container_ordering_iff_example = verify_container_ordering_iff 0 web (name_map both) refl

-- The web server is blocked by the database, which is not running.
web_blocked :
    check_dependencies 0 web ordering_is_resolved (name_map both) web.depends_on
    ≡ unresolved (some (starts_after "db")) (dependency_not_resolved "db")
unfolding check_dependencies DependencyGraph.check_dependency ordering_is_resolved
    DependencyGraph.read_condition name_map lookup insert
web_blocked = refl

check_dependencies_blocked_example :
    (before after : List DependsOn) × (dep : Container) × (web.depends_on
      ≡ before ++ starts_after "db" ∷ after)
    × All (IsMet 0 web (name_map both)) before
    × (lookup "db" (name_map both) ≡ some dep)
    × (ordering_is_resolved web dep (read_condition "START") ≡ false)
check_dependencies_blocked_example =
    check_dependencies_blocked 0 web (name_map both) web.depends_on (starts_after "db")
      (dependency_not_resolved "db") web_blocked

-- Both containers run, and the database is to stop.
abbrev stopping : Container
stopping = container "db" [] 3 5

stop_iff_example : (dependencies_are_resolved 0 stopping in_order "" [] [] ≡ resolved) ↔ (
    (verify_transition_dependencies stopping (name_map in_order) (resources_map []) ≡ resolved)
    × All (LetsStop stopping) in_order)
stop_iff_example =
    stop_iff 0 stopping in_order "" [] [] in_order-Unambiguous refl (omega arith) refl
