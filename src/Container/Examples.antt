-- ===== src/Container/Examples.antt =====
-- Containers at concrete statuses.
use amazon_ecs_agent.Common.{◌≡◌, refl, arith, false, leb}
use amazon_ecs_agent.Status.ContainerStatus.{container_stopped}
use amazon_ecs_agent.Samples.{db}
use amazon_ecs_agent.Container.State.{set_known_status, set_applied_status}
use amazon_ecs_agent.Container.Progress
use amazon_ecs_agent.Container.Progress.{
  progress_reaches_stopped, set_applied_status_exclusive, with_dependency, dependencies_at-build,
}

progress_reaches_stopped_example :
    ((Progress.progress 2 db).known_status ≡ 2)
    × ((Progress.progress 4 db).known_status ≡ container_stopped)
progress_reaches_stopped_example = progress_reaches_stopped 3 2 db (omega arith) (omega arith)

set_applied_status_exclusive_example :
    let d = set_known_status 1 (set_applied_status 3 db).0 in
    ((set_applied_status 2 (set_applied_status 3 db).0).1 ≡ false)
    × ((set_applied_status 2 d).1 ≡ leb 3 1)
set_applied_status_exclusive_example =
    set_applied_status_exclusive db 3 1 2 (omega arith) (unfold set_applied_status in refl)
