-- ===== src/ManagedTask/Move.antt =====
-- What a task waits for once all that can be started is started, and what becomes of it where there is
-- nothing to wait for.
use amazon_ecs_agent.Common.{
  sym, ◌∙◌, ltb, ◌&&◌, length, string_key, insert, ◌++◌, Option, refl, ◌⊎◌, ap, String, inl, inr,
  Bool-cases, ℕ, suc, ◌≡◌, arith, Bool, true, false, ◌||◌, any, List, [], ◌∷◌, none, some,
}
use amazon_ecs_agent.Container.{Container, Time, DependsOn}
use amazon_ecs_agent.Credentials.{Manager}
use amazon_ecs_agent.Task.{Task}
use amazon_ecs_agent.DependencyGraph.{
  Verdict, unresolved, credentials_not_resolved, resolved, dependencies_are_resolved,
}
use amazon_ecs_agent.ManagedTask.Progress.{
  Obstacle, is_credentials, waits_for_credentials, StartedResources, start_resource,
  start_resources, next_move, next_transition, ContainerTransition, wait_for_transition,
  wait_for_dependencies, wait_for_credentials, give_up, NextMove, Started, container_next_state,
  start_containers, start_one,
}
use amazon_ecs_agent.Resource.{TaskResource}
use mathlib.Core.List.{append_assoc, append-nil}

-- A resource or a container that is not yet what it is to be.
abbrev pub is_resource_behind : TaskResource → Bool
is_resource_behind r = ltb r.known_status r.desired_status

abbrev pub is_behind : Container → Bool
is_behind c = ltb c.known_status c.desired_status

abbrev pub verdict : Time → Manager → Task → Container → Verdict
verdict now manager task c =
    dependencies_are_resolved now c task.containers task.execution_credentials_id manager
      task.resources

abbrev pub is_resolved : Verdict → Bool
is_resolved resolved = true
is_resolved (unresolved blocked_on e) = false

abbrev pub names_container : Verdict → Bool
names_container (unresolved (some d) e) = true
names_container _ = false

abbrev pub lacks_credentials : Verdict → Bool
lacks_credentials (unresolved blocked_on credentials_not_resolved) = true
lacks_credentials _ = false

-- Whether something can move, whether another container holds one back, and whether credentials are
-- missing for one.
abbrev pub some_moves : Time → Manager → Task → Bool
some_moves now manager task =
    any is_resource_behind task.resources
    || any (λ c. is_behind c && is_resolved (verdict now manager task c)) task.containers

abbrev pub some_blocked : Time → Manager → Task → Bool
some_blocked now manager task =
    any (λ c. is_behind c && names_container (verdict now manager task c)) task.containers

abbrev pub some_lacks_credentials : Time → Manager → Task → Bool
some_lacks_credentials now manager task =
    any (λ c. is_behind c && lacks_credentials (verdict now manager task c)) task.containers

-- The first of the three that is there is waited for.
abbrev pub Chooses : Bool → Bool → Bool → NextMove → Type 0
Chooses moves blocked credentials move =
    ((moves ≡ true) × (move ≡ wait_for_transition))
    ⊎ ((moves ≡ false) × (blocked ≡ true) × (move ≡ wait_for_dependencies))
    ⊎ ((moves ≡ false) × (blocked ≡ false) × (credentials ≡ true) × (move ≡ wait_for_credentials))
    ⊎ ((moves ≡ false) × (blocked ≡ false) × (credentials ≡ false) × (move ≡ give_up))

pub next_move-Chooses :
    (rs : StartedResources) (cs : Started)
    → Chooses
        (rs.any_can_transition || cs.any_can_transition)
        (ltb 0 (length cs.blocked))
        (waits_for_credentials cs.reasons)
        (next_move rs cs)
unfolding next_move
next_move-Chooses rs cs = elim (Bool-cases (rs.any_can_transition || cs.any_can_transition)) [
  | inl moves ↦ inl (moves, rw moves refl)
  | inr stays ↦ elim (Bool-cases (ltb 0 (length cs.blocked))) [
    | inl blocked ↦ inr (inl (stays, blocked, rw (stays, blocked) refl))
    | inr free ↦ elim (Bool-cases (waits_for_credentials cs.reasons)) [
      | inl waits ↦ inr (inr (inl (stays, free, waits, rw (stays, free, waits) refl)))
      | inr idle ↦ inr (inr (inr (stays, free, idle, rw (stays, free, idle) refl)))
    ]
  ]
]

any-start_resource :
    (r : TaskResource) (s : StartedResources)
    → (start_resource r s).any_can_transition ≡ (s.any_can_transition || is_resource_behind r)
unfolding start_resource
any-start_resource r s = ground arith

pub any-start_resources :
    (rs : List TaskResource) (s : StartedResources)
    → (start_resources rs s).any_can_transition
      ≡ (s.any_can_transition || any is_resource_behind rs)
unfolding start_resources any
any-start_resources [] s = ground arith
any-start_resources (r ∷ rs) s =
    ground (arith, any-start_resources rs (start_resource r s), any-start_resource r s)

same_resource :
    (r : TaskResource) (s : StartedResources)
    → is_resource_behind r ≡ false
    → (start_resource r s).resources ≡ s.resources ++ r ∷ []
unfolding start_resource
same_resource r s h = ground (arith, h)

pub same_resources :
    (rs : List TaskResource) (s : StartedResources)
    → any is_resource_behind rs ≡ false
    → (start_resources rs s).resources ≡ s.resources ++ rs
unfolding start_resources any
same_resources [] s h = sym (append-nil s.resources)
same_resources (r ∷ rs) s h =
    let first : is_resource_behind r ≡ false = ground (arith, h) in
    let others : any is_resource_behind rs ≡ false = ground (arith, h) in
    same_resources rs (start_resource r s) others
    ∙ ap (λ (xs : List TaskResource). xs ++ rs) (same_resource r s first)
    ∙ append_assoc s.resources (r ∷ []) rs

-- What the three fields of a container's transition say.
abbrev is_free : Option Obstacle → Bool
is_free none = true
is_free (some why) = false

abbrev is_missing_credentials : Option Obstacle → Bool
is_missing_credentials none = false
is_missing_credentials (some why) = is_credentials why

abbrev is_named : Option DependsOn → Bool
is_named none = false
is_named (some d) = true

transition_lem :
    (now : Time) (manager : Manager) (task : Task) (c : Container)
    → let t = container_next_state now manager task c in
      (is_free t.reason ≡ (is_behind c && is_resolved (verdict now manager task c)))
      × (is_named t.blocked_on ≡ (is_behind c && names_container (verdict now manager task c)))
      × (is_missing_credentials t.reason
          ≡ (is_behind c && lacks_credentials (verdict now manager task c)))
      × ((is_free t.reason && is_named t.blocked_on) ≡ false)
unfolding container_next_state next_transition
transition_lem now manager task c = ground arith

any-start_one :
    (position : ℕ) (c : Container) (t : ContainerTransition) (s : Started)
    → (start_one position c t s).any_can_transition ≡ (s.any_can_transition || is_free t.reason)
unfolding start_one
any-start_one position c t s = ground arith

any-insert :
    (name : String) (d : DependsOn) (blocked : List (String × DependsOn))
    → ltb 0 (length (insert name d blocked)) ≡ true
unfolding insert
any-insert name d [] = ground arith
any-insert name d ((k, e) ∷ blocked) = ground arith

blocked-start_one :
    (position : ℕ) (c : Container) (t : ContainerTransition) (s : Started)
    (blocked_on : Option DependsOn)
    → t.blocked_on ≡ blocked_on
    → (is_free t.reason && is_named blocked_on) ≡ false
    → ltb 0 (length (start_one position c t s).blocked)
      ≡ (ltb 0 (length s.blocked) || is_named blocked_on)
unfolding start_one
blocked-start_one position c t s none e h = ground (arith, e, h)
blocked-start_one position c t s (some d) e h = ground (arith, e, h, any-insert c.name d s.blocked)

waits-append :
    (rs : List Obstacle) (why : Obstacle)
    → waits_for_credentials (rs ++ why ∷ []) ≡ (waits_for_credentials rs || is_credentials why)
unfolding waits_for_credentials
waits-append [] why = ground arith
waits-append (r ∷ rs) why = ground (arith, waits-append rs why)

waits-start_one :
    (position : ℕ) (c : Container) (t : ContainerTransition) (s : Started)
    (reason : Option Obstacle)
    → t.reason ≡ reason
    → waits_for_credentials (start_one position c t s).reasons
      ≡ (waits_for_credentials s.reasons || is_missing_credentials reason)
unfolding start_one
waits-start_one position c t s none h = ground (arith, h)
waits-start_one position c t s (some why) h = ground (arith, h, waits-append s.reasons why)

module _ (now : Time) (manager : Manager) (task : Task) where
  pub any-start_containers :
      (position : ℕ) (cs : List Container) (s : Started)
      → (start_containers now manager task position cs s).any_can_transition ≡ (
          s.any_can_transition
          || any (λ c. is_behind c && is_resolved (verdict now manager task c)) cs)
  unfolding start_containers any
  any-start_containers position [] s = ground arith
  any-start_containers position (c ∷ cs) s =
      let t = container_next_state now manager task c in
      ground (
        arith,
        any-start_containers (suc position) cs (start_one position c t s),
        any-start_one position c t s,
        transition_lem now manager task c,
      )

  pub blocked-start_containers :
      (position : ℕ) (cs : List Container) (s : Started)
      → ltb 0 (length (start_containers now manager task position cs s).blocked) ≡ (
          ltb 0 (length s.blocked)
          || any (λ c. is_behind c && names_container (verdict now manager task c)) cs)
  unfolding start_containers any
  blocked-start_containers position [] s = ground arith
  blocked-start_containers position (c ∷ cs) s =
      let t = container_next_state now manager task c in
      let (_, named, _, apart) = transition_lem now manager task c in
      ground (
        arith,
        blocked-start_containers (suc position) cs (start_one position c t s),
        blocked-start_one position c t s t.blocked_on refl apart,
        named,
      )

  pub waits-start_containers :
      (position : ℕ) (cs : List Container) (s : Started)
      → waits_for_credentials (start_containers now manager task position cs s).reasons ≡ (
          waits_for_credentials s.reasons
          || any (λ c. is_behind c && lacks_credentials (verdict now manager task c)) cs)
  unfolding start_containers any
  waits-start_containers position [] s = ground arith
  waits-start_containers position (c ∷ cs) s =
      let t = container_next_state now manager task c in
      ground (
        arith,
        waits-start_containers (suc position) cs (start_one position c t s),
        waits-start_one position c t s t.reason refl,
        transition_lem now manager task c,
      )
