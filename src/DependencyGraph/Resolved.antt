-- ===== src/DependencyGraph/Resolved.antt =====
-- What `DependenciesAreResolved` has established when it returns no error, and what its
-- `blocked` result says.
use amazon_ecs_agent.Common.{
  ◌≤◌, true, false, ◌≡◌, refl, ap, ◌↔◌, ◌⊎◌, inl, inr, arith, String, Option, some, List, [], ◌∷◌,
  ◌++◌, subst, lookup, string_key, Option-cases, All, str_eq, str_eq_iff,
}
use amazon_ecs_agent.Status.ContainerStatus.{container_created, container_stopped}
use amazon_ecs_agent.Container.{Container, DependsOn, Time}
use amazon_ecs_agent.DependencyGraph.Conditions.{
  Condition, Verdict, DependencyError, resolved, unresolved, read_condition, check_dependency,
  check_dependencies, check_found, verify_container_ordering, ordering_is_resolved,
  has_dependency_timed_out, has_steady_goal, ◌then_check◌, has_dependency_stopped_successfully,
  success, success_condition,
}

-- The target is created, or the dependency is stopped or its time to meet the condition is not over.
abbrev pub InTime : Time → Container → Container → Condition → Type 0
InTime now target dep condition =
    (container_created ≤ target.known_status)
    ⊎ (dep.known_status ≡ container_stopped)
    ⊎ (has_dependency_timed_out now dep condition ≡ false)

-- The dependency is there and meets its condition, and its time to do so is not over while the
-- target still waits to be created.
abbrev pub IsMet : Time → Container → List (String × Container) → DependsOn → Type 0
IsMet now target names d =
    (dep : Container) × (lookup d.container_name names ≡ some dep)
    × (ordering_is_resolved target dep (read_condition d.condition) ≡ true)
    × InTime now target dep (read_condition d.condition)

read_success : (s : String) → str_eq s success_condition ≡ true → read_condition s ≡ success
unfolding read_condition
read_success s h = let e = (str_eq_iff s success_condition).0 h in rw e refl

-- A dependency that meets its condition is no failed one.
met_not_failed :
    (target dep : Container) (s : String)
    → ordering_is_resolved target dep (read_condition s) ≡ true
    → str_eq s success_condition ≡ true
    → has_dependency_stopped_successfully dep ≡ true
met_not_failed target dep s h e =
    unfold ordering_is_resolved in
    subst (λ (c : Condition). ordering_is_resolved target dep c ≡ true) (read_success s e) h

both_resolved : (v w : Verdict) → (v then_check w) ≡ resolved → (v ≡ resolved) × (w ≡ resolved)
both_resolved resolved w h = (refl, h)
both_resolved (unresolved d e) w h = absurd (ground arith)

first_error :
    (v w : Verdict) (d : Option DependsOn) (err : DependencyError)
    → (v then_check w) ≡ unresolved d err
    → (v ≡ unresolved d err) ⊎ ((v ≡ resolved) × (w ≡ unresolved d err))
first_error resolved w d err h = inr (refl, h)
first_error (unresolved c e) w d err h = inl h

module _ (now : Time) (target : Container) (d : DependsOn) (dep : Container) where
  check_dependency_blocked :
      (c : DependsOn) (err : DependencyError)
      → check_dependency now target ordering_is_resolved d dep ≡ unresolved (some c) err
      → (d ≡ c) × (ordering_is_resolved target dep (read_condition d.condition) ≡ false)
  unfolding check_dependency
  check_dependency_blocked c err h = ground arith

  check_dependency_sound :
      check_dependency now target ordering_is_resolved d dep ≡ resolved
      → (ordering_is_resolved target dep (read_condition d.condition) ≡ true)
        × InTime now target dep (read_condition d.condition)
  unfolding check_dependency
  check_dependency_sound h = ground arith

  check_dependency_complete :
      ordering_is_resolved target dep (read_condition d.condition) ≡ true
      → InTime now target dep (read_condition d.condition)
      → check_dependency now target ordering_is_resolved d dep ≡ resolved
  unfolding check_dependency
  check_dependency_complete h t = ground (arith, met_not_failed target dep d.condition h)

module _ (now : Time) (target : Container) (names : List (String × Container)) where
  at_found :
      (d : DependsOn) (dep : Container) (ds : List DependsOn) (v : Verdict)
      → lookup d.container_name names ≡ some dep
      → check_dependencies now target ordering_is_resolved names (d ∷ ds) ≡ v
      → (check_dependency now target ordering_is_resolved d dep
          then_check check_dependencies now target ordering_is_resolved names ds)
        ≡ v
  unfolding check_dependencies
  at_found d dep ds v e h =
      subst
        (λ (o : Option Container).
          (check_found now target ordering_is_resolved d o
            then_check check_dependencies now target ordering_is_resolved names ds)
          ≡ v)
        e h

  check_dependencies_sound :
      (ds : List DependsOn)
      → check_dependencies now target ordering_is_resolved names ds ≡ resolved
      → All (IsMet now target names) ds
  unfolding check_dependencies
  check_dependencies_sound [] h = tt
  check_dependencies_sound (d ∷ ds) h = elim (Option-cases (lookup d.container_name names)) [
    | inl e ↦ absurd (ground arith)
    | inr (dep, e) ↦
        let (ok, rest) =
          both_resolved (check_dependency now target ordering_is_resolved d dep)
            (check_dependencies now target ordering_is_resolved names ds)
            (at_found d dep ds resolved e h) in
        let (met, in_time) = check_dependency_sound now target d dep ok in
        ((dep, e, met, in_time), check_dependencies_sound ds rest)
  ]

  check_dependencies_complete :
      (ds : List DependsOn)
      → All (IsMet now target names) ds
      → check_dependencies now target ordering_is_resolved names ds ≡ resolved
  unfolding check_dependencies
  check_dependencies_complete [] h = refl
  check_dependencies_complete (d ∷ ds) ((dep, e, met, in_time), rest) =
      rw (e, check_dependency_complete now target d dep met in_time)
        (check_dependencies_complete ds rest)

  -- For a target that is to be created or to reach its steady state, the check of its `dependsOn`
  -- passes exactly when each entry names a container of the map, that container meets the entry's
  -- condition and, if the target is not yet created, has not run out of its start timeout unless
  -- it is stopped.
  pub verify_container_ordering_iff :
      has_steady_goal target ≡ true
      → (verify_container_ordering now target names ordering_is_resolved ≡ resolved)
        ↔ All (IsMet now target names) target.depends_on
  unfolding verify_container_ordering
  verify_container_ordering_iff h = (
    λ e. check_dependencies_sound target.depends_on (rw h at e),
    λ all. rw h (check_dependencies_complete target.depends_on all),
  )

  -- The dependency that is reported to block is one of the target's, names a container of the map,
  -- and that container does not meet its condition; all the entries before it are met.
  pub check_dependencies_blocked :
      (ds : List DependsOn) (d : DependsOn) (err : DependencyError)
      → check_dependencies now target ordering_is_resolved names ds ≡ unresolved (some d) err
      → (before after : List DependsOn) × (dep : Container) × (ds ≡ before ++ d ∷ after)
        × All (IsMet now target names) before
        × (lookup d.container_name names ≡ some dep)
        × (ordering_is_resolved target dep (read_condition d.condition) ≡ false)
  unfolding check_dependencies
  check_dependencies_blocked [] d err h = absurd (ground arith)
  check_dependencies_blocked (c ∷ ds) d err h =
      elim (Option-cases (lookup c.container_name names)) [
        | inl e ↦ absurd (ground arith)
        | inr (dep, e) ↦
            let step =
              first_error (check_dependency now target ordering_is_resolved c dep)
                (check_dependencies now target ordering_is_resolved names ds) (some d) err
                (at_found c dep ds (unresolved (some d) err) e h) in
            elim step [
              | inl blocks ↦
                  let (same, unmet) = check_dependency_blocked now target c dep d err blocks in
                  (
                    [],
                    ds,
                    dep,
                    ap (λ (x : DependsOn). x ∷ ds) same,
                    tt,
                    subst (λ (x : DependsOn). lookup x.container_name names ≡ some dep) same e,
                    subst
                        (λ (x : DependsOn).
                          ordering_is_resolved target dep (read_condition x.condition) ≡ false)
                        same unmet,
                  )
              | inr (ok, later) ↦
                  let (met, in_time) = check_dependency_sound now target c dep ok in
                  let (before, after, found, split, all, e', unmet) =
                    check_dependencies_blocked ds d err later in
                  (
                    c ∷ before,
                    after,
                    found,
                    ap (◌∷◌ c) split,
                    ((dep, e, met, in_time), all),
                    e',
                    unmet,
                  )
            ]
      ]
