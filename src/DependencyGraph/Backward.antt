-- ===== src/DependencyGraph/Backward.antt =====
-- In an order in which each container can be resolved by those before it, `dependsOn` points backward.
use amazon_ecs_agent.Common.{
  true, false, ◌≡◌, refl, ◌⊎◌, inl, inr, arith, Option, none, some, List, [], ◌∷◌, ◌++◌, lookup,
  string_key, Bool-cases, All, In,
}
use amazon_ecs_agent.Container.{Container, DependsOn, Time}
use amazon_ecs_agent.DependencyGraph.Conditions.{
  Verdict, resolved, unresolved, name_map, check_dependencies, check_found,
  verify_container_ordering, ordering_can_resolve, has_steady_goal, ◌then_check◌,
}
use amazon_ecs_agent.DependencyGraph.Validity.{is_resolved, dependencies_can_be_resolved}
use amazon_ecs_agent.DependencyGraph.Names.{lookup-name_map_sound}

-- Some container of the list has the name that the dependency gives.
abbrev pub IsNamedIn : List Container → DependsOn → Type 0
IsNamedIn by d = (dep : Container) × In dep by × (dep.name ≡ d.container_name)

-- Each container of the list whose goal is CREATED or its steady state depends only on containers of `by`
-- and on those before it.
abbrev pub DependsBackward : List Container → List Container → Type 0
DependsBackward by [] = Unit
DependsBackward by (c ∷ cs) =
    ((has_steady_goal c ≡ false) ⊎ All (IsNamedIn by) c.depends_on)
    × DependsBackward (by ++ c ∷ []) cs

first_resolved : (v w : Verdict) → is_resolved (v then_check w) ≡ true → is_resolved v ≡ true
first_resolved resolved w h = refl
first_resolved (unresolved d e) w h = h

others_resolved : (v w : Verdict) → is_resolved (v then_check w) ≡ true → is_resolved w ≡ true
others_resolved resolved w h = h
others_resolved (unresolved d e) w h = absurd (ground arith)

module _ (now : Time) where
  is_found :
      (target : Container) (d : DependsOn) (found : Option Container)
      → is_resolved (check_found now target ordering_can_resolve d found) ≡ true
      → (dep : Container) × (found ≡ some dep)
  is_found target d none h = absurd (ground arith)
  is_found target d (some dep) h = (dep, refl)

  check_dependencies-IsNamedIn :
      (target : Container) (by : List Container) (ds : List DependsOn)
      → is_resolved (check_dependencies now target ordering_can_resolve (name_map by) ds) ≡ true
      → All (IsNamedIn by) ds
  unfolding check_dependencies
  check_dependencies-IsNamedIn target by [] h = tt
  check_dependencies-IsNamedIn target by (d ∷ ds) h =
      let (dep, e) =
        is_found target d (lookup d.container_name (name_map by)) (first_resolved _ _ h) in
      let (here, same) = lookup-name_map_sound d.container_name dep by e in
      ((dep, here, same), check_dependencies-IsNamedIn target by ds (others_resolved _ _ h))

  pub dependencies_can_be_resolved-IsNamedIn :
      (c : Container) (by : List Container)
      → dependencies_can_be_resolved now c by ≡ true
      → (has_steady_goal c ≡ false) ⊎ All (IsNamedIn by) c.depends_on
  unfolding dependencies_can_be_resolved verify_container_ordering
  dependencies_can_be_resolved-IsNamedIn c by h = elim (Bool-cases (has_steady_goal c)) [
    | inr other ↦ inl other
    | inl steady ↦
        let ok : is_resolved
              (check_dependencies now c ordering_can_resolve (name_map by) c.depends_on)
            ≡ true =
          ground (arith, h, steady) in
        inr (check_dependencies-IsNamedIn c by c.depends_on ok)
  ]
