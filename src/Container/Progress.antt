-- ===== src/Container/Progress.antt =====
-- How a container's known status and its applied status move.
use amazon_ecs_agent.Common.{
  ℕ, zero, suc, ◌+◌, ◌≤◌, ◌≡◌, ◌≢◌, arith, true, false, ◌==◌, leb, if◌then◌else◌, [], ◌∷◌, ◌++◌,
  String, lookup-insert, nat_key,
}
use amazon_ecs_agent.Status.ContainerStatus.{
  ContainerStatus, container_status_none, container_stopped,
}
use amazon_ecs_agent.Container.Types.{Container, TransitionDependencySet}
use amazon_ecs_agent.Container.State.{
  get_steady_state_status, get_next_known_state_progression, set_known_status, set_applied_status,
}
use amazon_ecs_agent.Container.Dependencies.{dependencies_at, build_container_dependency}

-- The container reaches, n times, the state that it is to progress to next.
unfoldable pub progress : ℕ → Container → Container
progress zero c = c
progress (suc n) c = progress n (set_known_status (get_next_known_state_progression c) c)

progress_once :
    (c : Container)
    → let d = set_known_status (get_next_known_state_progression c) c in
      (d.known_status ≡ get_next_known_state_progression c)
      × (get_steady_state_status d ≡ get_steady_state_status c)
unfolding set_known_status
progress_once c = ground arith

progress_within :
    (away n : ℕ) (c : Container)
    → c.known_status + away ≡ get_steady_state_status c
    → n ≤ away
    → (progress n c).known_status ≡ c.known_status + n
unfolding progress get_next_known_state_progression
progress_within away zero c h le = omega arith
progress_within zero (suc n) c h le = absurd (omega arith)
progress_within (suc away) (suc n) c h le =
    let d = set_known_status (get_next_known_state_progression c) c in
    let once = progress_once c in
    let next : d.known_status ≡ c.known_status + 1 = ground arith in
    omega (arith, progress_within away n d (omega arith) (omega arith))

-- A container that is not past its steady state is in it after as many steps as its known status
-- is away from it, through each status in between, and STOPPED one step later.
pub progress_reaches_stopped :
    (away n : ℕ) (c : Container)
    → c.known_status + away ≡ get_steady_state_status c
    → n ≤ away
    → ((progress n c).known_status ≡ c.known_status + n)
      × ((progress (suc away) c).known_status ≡ container_stopped)
unfolding progress get_next_known_state_progression
progress_reaches_stopped zero zero c h le = (omega arith, ground (arith, progress_once c))
progress_reaches_stopped zero (suc n) c h le = absurd (omega arith)
progress_reaches_stopped (suc away) n c h le =
    let d = set_known_status (get_next_known_state_progression c) c in
    let once = progress_once c in
    let next : d.known_status ≡ c.known_status + 1 = ground arith in
    (
      progress_within (suc away) n c h le,
      (progress_reaches_stopped away zero d (omega arith) (omega arith)).1,
    )

-- While a transition to a status is under way no other is accepted, until the container is known to
-- have reached that status or one further on.
pub set_applied_status_exclusive :
    (c : Container) (status known other : ContainerStatus)
    → status ≢ container_status_none
    → (set_applied_status status c).1 ≡ true
    → let d = set_known_status known (set_applied_status status c).0 in
      ((set_applied_status other (set_applied_status status c).0).1 ≡ false)
      × ((set_applied_status other d).1 ≡ leb status known)
unfolding set_applied_status set_known_status
set_applied_status_exclusive c status known other n h = ground arith

abbrev pub with_dependency :
    String → ContainerStatus → ContainerStatus → Container → TransitionDependencySet
with_dependency name satisfied dependent c =
    let deps = dependencies_at dependent c in
    record deps {
      container_dependencies =
          deps.container_dependencies
          ++ record {
            container_name = name;
            satisfied_status = satisfied;
            dependent_status = container_status_none;
          }
            ∷ [];
    }

-- A dependency that is added is the last of its status, and those of the other statuses stay.
pub dependencies_at-build :
    (name : String) (satisfied dependent status : ContainerStatus) (c : Container)
    → dependencies_at status (build_container_dependency name satisfied dependent c) ≡ (
        if dependent == status
        then with_dependency name satisfied dependent c
        else dependencies_at status c)
unfolding dependencies_at build_container_dependency
dependencies_at-build name satisfied dependent status c = ground (
  arith,
  lookup-insert dependent status (with_dependency name satisfied dependent c)
      c.transition_dependencies_map,
)
