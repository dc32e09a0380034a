-- ===== src/DependencyGraph/StopOrder.antt =====
-- Containers stop in the reverse of their start order.
use amazon_ecs_agent.Common.{
  All, All-of, In_All, true, false, ◌≡◌, refl, sym, ap, ◌≢◌, ◌↔◌, ◌⊎◌, inl, inr, arith, String,
  some, List, [], ◌∷◌, ◌++◌, lookup, insert, any, string_key, Bool-cases, In, str_eq, subst,
}
use amazon_ecs_agent.Status.ContainerStatus.{container_stopped}
use amazon_ecs_agent.Container.{
  Container, DependsOn, Time, known_terminal, depends_on_container, get_steady_state_status,
}
use amazon_ecs_agent.Credentials.{Manager}
use amazon_ecs_agent.Resource.{TaskResource}
use amazon_ecs_agent.DependencyGraph.Conditions.{
  Verdict, resolved, unresolved, name_map, add_names, ◌then_check◌, verify_container_ordering,
}
use amazon_ecs_agent.DependencyGraph.Resolution.{
  dependencies_are_resolved, verify_shutdown_order, missing_shutdown_dependencies, blocking_names,
  verify_transition_dependencies, resources_map, shutdown_verdict, execution_credentials_resolved,
  verify_status_resolvable,
}
use amazon_ecs_agent.DependencyGraph.Names.{Unambiguous, lookup-name_map_complete}

insert-In :
    (k : String) (v : Container) (m : List (String × Container)) (e : String × Container)
    → In e (insert k v m)
    → (e.1 ≡ v) ⊎ In e m
unfolding insert
insert-In k v [] e (inl h) = inl (ap (λ (p : String × Container). p.1) h)
insert-In k v [] e (inr h) = absurd h
insert-In k v ((j, w) ∷ m) e h = elim (Bool-cases (str_eq j k)) [
  | inl same ↦ elim (rw (same) at h) [
    | inl here ↦ inl (ap (λ (p : String × Container). p.1) here)
    | inr there ↦ inr (inr there)
  ]
  | inr differs ↦ elim (rw (differs) at h) [
    | inl here ↦ inr (inl here)
    | inr there ↦ elim (insert-In k v m e there) [ inl a ↦ inl a | inr b ↦ inr (inr b) ]
  ]
]

add_names-In :
    (m : List (String × Container)) (cs : List Container) (e : String × Container)
    → In e (add_names m cs)
    → In e.1 cs ⊎ In e m
unfolding add_names
add_names-In m [] e h = inr h
add_names-In m (c ∷ cs) e h = elim (add_names-In (insert c.name c m) cs e h) [
  | inl later ↦ inl (inr later)
  | inr now_or_before ↦ elim (insert-In c.name c m e now_or_before) [
    | inl this ↦ inl (inl this)
    | inr before ↦ inr before
  ]
]

lookup-In :
    (k : String) (c : Container) (m : List (String × Container))
    → lookup k m ≡ some c
    → (j : String) × In (j, c) m
unfolding lookup
lookup-In k c [] h = absurd (ground arith)
lookup-In k c ((j, w) ∷ m) h = elim (Bool-cases (str_eq j k)) [
  | inl same ↦ (j, inl (ground arith))
  | inr differs ↦ let (i, found) = lookup-In k c m (ground arith) in (i, inr found)
]

module _ (target : Container) where
  -- The container has stopped, or does not depend on the target.
  abbrev pub LetsStop : Container → Type 0
  LetsStop c = (depends_on_container target.name c ≡ false) ⊎ (known_terminal c ≡ true)

  blocking_names_none :
      (c : Container) (ds : List DependsOn)
      → (blocking_names target c ds ≡ [])
        ↔ ((any (λ d. str_eq d.container_name target.name) ds ≡ false) ⊎ (known_terminal c ≡ true))
  unfolding blocking_names any
  blocking_names_none c [] = (λ _. inl refl, λ _. refl)
  blocking_names_none c (d ∷ ds) = ground (arith, blocking_names_none c ds)

  append_none : (xs ys : List String) → xs ++ ys ≡ [] → (xs ≡ []) × (ys ≡ [])
  append_none [] ys h = (refl, h)
  append_none (x ∷ xs) ys h = absurd (ground arith)

  missing_none_sound :
      (m : List (String × Container))
      → missing_shutdown_dependencies target m ≡ []
      → (e : String × Container) → In e m
      → LetsStop e.1
  unfolding missing_shutdown_dependencies depends_on_container
  missing_none_sound [] h e i = absurd i
  missing_none_sound ((n, c) ∷ m) h e i =
      let (first, rest) =
        append_none (blocking_names target c c.depends_on) (missing_shutdown_dependencies target m)
          h in
      elim i [
        | inl here ↦
            subst (λ (p : String × Container). LetsStop p.1) (sym here)
              ((blocking_names_none c c.depends_on).0 first)
        | inr there ↦ missing_none_sound m rest e there
      ]

  missing_none_complete :
      (m : List (String × Container))
      → ((e : String × Container) → In e m → LetsStop e.1)
      → missing_shutdown_dependencies target m ≡ []
  unfolding missing_shutdown_dependencies depends_on_container
  missing_none_complete [] h = refl
  missing_none_complete ((n, c) ∷ m) h =
      rw ((blocking_names_none c c.depends_on).1 (h (n, c) (inl refl)))
        (missing_none_complete m (λ e i. h e (inr i)))

  shutdown_verdict_resolved : (ns : List String) → shutdown_verdict ns ≡ resolved → ns ≡ []
  shutdown_verdict_resolved [] h = refl
  shutdown_verdict_resolved (n ∷ ns) h = absurd (ground arith)

  verify_shutdown_order_iff :
      (by : List Container)
      → Unambiguous by
      → (verify_shutdown_order target (name_map by) ≡ resolved)
        ↔ ((c : Container) → In c by → LetsStop c)
  unfolding verify_shutdown_order name_map
  verify_shutdown_order_iff by u = (
    λ h c i.
        let (j, entry) = lookup-In c.name c (name_map by) (lookup-name_map_complete c by i u) in
        missing_none_sound (name_map by)
          (shutdown_verdict_resolved (missing_shutdown_dependencies target (name_map by)) h) (j, c)
          entry,
    λ h. rw (
        missing_none_complete (name_map by) (λ e i. elim (add_names-In [] by e i) [
          | inl m ↦ h e.1 m
          | inr no_more ↦ absurd no_more
        ])),
  )

then_check_iff : (v w : Verdict) → ((v then_check w) ≡ resolved) ↔ ((v ≡ resolved) × (w ≡ resolved))
then_check_iff resolved w = (λ h. (refl, h), λ h. h.1)
then_check_iff (unresolved d e) w = ground arith

-- What is left of the checks for a target that is to stop.
stop_lem :
    (now : Time) (target : Container) (by : List Container) (id : String) (manager : Manager)
    (resources : List TaskResource)
    → target.desired_status ≡ container_stopped
    → get_steady_state_status target ≢ container_stopped
    → known_terminal target ≡ false
    → dependencies_are_resolved now target by id manager resources ≡ (
        verify_transition_dependencies target (name_map by) (resources_map resources)
        then_check verify_shutdown_order target (name_map by))
unfolding dependencies_are_resolved verify_container_ordering verify_status_resolvable
    execution_credentials_resolved
stop_lem now target by id manager resources d s k = ground arith

-- A container that is to stop and has not stopped may do so exactly when its transition
-- dependencies are met and every container that depends on it has stopped. Neither its own
-- `dependsOn` and steady-state dependencies nor its credentials hold it back. The names of the
-- containers differ, and STOPPED is not the target's steady state.
pub stop_iff :
    (now : Time) (target : Container) (by : List Container) (id : String) (manager : Manager)
    (resources : List TaskResource)
    → Unambiguous by
    → target.desired_status ≡ container_stopped
    → get_steady_state_status target ≢ container_stopped
    → known_terminal target ≡ false
    → (dependencies_are_resolved now target by id manager resources ≡ resolved) ↔ (
        (verify_transition_dependencies target (name_map by) (resources_map resources) ≡ resolved)
        × All (LetsStop target) by)
stop_iff now target by id manager resources u d s k =
    let shutdown = verify_shutdown_order_iff target by u in
    let both =
      then_check_iff (verify_transition_dependencies target (name_map by) (resources_map resources))
        (verify_shutdown_order target (name_map by)) in
    rw (stop_lem now target by id manager resources d s k) (
      λ h. let (t, o) = both.0 h in (t, All-of (LetsStop target) by (shutdown.0 o)),
      λ h. both.1 (h.0, shutdown.1 (In_All (LetsStop target) by h.1)),
    )
