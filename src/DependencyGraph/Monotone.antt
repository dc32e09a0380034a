-- ===== src/DependencyGraph/Monotone.antt =====
-- A container that can be resolved by some containers can be resolved by more of them.
use amazon_ecs_agent.Common.{
  Bool, true, ◌≡◌, refl, inl, inr, arith, String, List, [], ◌∷◌, lookup, string_key, Option-cases,
  In,
}
use amazon_ecs_agent.Container.{Container, DependsOn, Time}
use amazon_ecs_agent.DependencyGraph.Conditions.{
  Condition, Verdict, resolved, unresolved, check_dependencies, verify_container_ordering,
  ordering_can_resolve, name_map,
}
use amazon_ecs_agent.DependencyGraph.Resolution.{
  all_resolve, verify_status_resolvable, on_steady_state_can_resolve,
}
use amazon_ecs_agent.DependencyGraph.Validity.{dependencies_can_be_resolved, is_resolved}
use amazon_ecs_agent.DependencyGraph.Names.{Unambiguous, Extends, name_map-Extends}

module _ (now : Time) (target : Container) (resolves : Container → Container → Condition → Bool)
    (names more : List (String × Container)) (ext : Extends more names) where
  check_dependencies_mono :
      (ds : List DependsOn)
      → check_dependencies now target resolves names ds ≡ resolved
      → check_dependencies now target resolves more ds ≡ resolved
  unfolding check_dependencies
  check_dependencies_mono [] h = refl
  check_dependencies_mono (d ∷ ds) h = elim (Option-cases (lookup d.container_name names)) [
    | inl e ↦ ground arith
    | inr (c, e) ↦ ground (arith, ext d.container_name c e, check_dependencies_mono ds)
  ]

  all_resolve_mono :
      (test : Container → Bool) (ds : List String)
      → all_resolve test names ds ≡ true
      → all_resolve test more ds ≡ true
  unfolding all_resolve
  all_resolve_mono test [] h = refl
  all_resolve_mono test (d ∷ ds) h = elim (Option-cases (lookup d names)) [
    | inl e ↦ ground arith
    | inr (c, e) ↦ ground (arith, ext d c e, all_resolve_mono test ds)
  ]

  verify_container_ordering_mono :
      verify_container_ordering now target names resolves ≡ resolved
      → verify_container_ordering now target more resolves ≡ resolved
  unfolding verify_container_ordering
  verify_container_ordering_mono h = ground (arith, check_dependencies_mono target.depends_on)

  verify_status_resolvable_mono :
      (test : Container → Container → Bool) (ds : List String)
      → verify_status_resolvable target names ds test ≡ true
      → verify_status_resolvable target more ds test ≡ true
  unfolding verify_status_resolvable
  verify_status_resolvable_mono test ds h = ground (arith, all_resolve_mono (test target) ds)

is_resolved_iff : (v : Verdict) → is_resolved v ≡ true → v ≡ resolved
is_resolved_iff resolved h = refl
is_resolved_iff (unresolved d e) h = ground arith

pub dependencies_can_be_resolved_mono :
    (now : Time) (target : Container) (by more : List Container)
    → Unambiguous more
    → ((c : Container) → In c by → In c more)
    → dependencies_can_be_resolved now target by ≡ true
    → dependencies_can_be_resolved now target more ≡ true
unfolding dependencies_can_be_resolved
dependencies_can_be_resolved_mono now target by more u sub h =
    let ext = name_map-Extends by more u sub in
    ground (
      arith,
      is_resolved_iff (verify_container_ordering now target (name_map by) ordering_can_resolve),
      verify_container_ordering_mono now target ordering_can_resolve (name_map by) (name_map more)
          ext,
      verify_status_resolvable_mono now target ordering_can_resolve (name_map by) (name_map more)
          ext on_steady_state_can_resolve target.steady_state_dependencies,
    )
