-- ===== src/Resource.antt =====
-- agent/taskresource/interface.go, as agent/taskresource/cgroup/cgroup.go and
-- agent/taskresource/volume/dockervolume.go implement it: a task's resources, such as its cgroup,
-- its Docker volumes and its secrets. NONE, CREATED and REMOVED are 0, 1 and 2 in all of them.
use amazon_ecs_agent.Common.{◌+◌, Bool, true, false, ◌==◌, ◌/=◌, leb, if◌then◌else◌, String}
use amazon_ecs_agent.Container.{ResourceStatus}

abbrev pub resource_status_none : ResourceStatus
resource_status_none = 0

abbrev pub resource_created : ResourceStatus
resource_created = 1

abbrev pub resource_removed : ResourceStatus
resource_removed = 2

-- `clears_applied` tells apart the resources whose `SetKnownStatus` calls
-- `updateAppliedStatusUnsafe`, and Docker volumes, whose does not.
pub record TaskResource : Type 0 where
  pub name : String
  pub desired_status : ResourceStatus
  pub known_status : ResourceStatus
  pub applied_status : ResourceStatus
  pub terminal_reason : String
  pub clears_applied : Bool

unfoldable pub set_desired_status : ResourceStatus → TaskResource → TaskResource
set_desired_status status r = record r { desired_status = status }

abbrev pub desired_terminal : TaskResource → Bool
desired_terminal r = r.desired_status == resource_removed

abbrev pub terminal_status : TaskResource → ResourceStatus
terminal_status r = resource_removed

abbrev pub steady_state : TaskResource → ResourceStatus
steady_state r = resource_created

abbrev pub next_known_state : TaskResource → ResourceStatus
next_known_state r = r.known_status + 1

unfoldable pub update_applied_status : ResourceStatus → TaskResource → TaskResource
update_applied_status known_status r =
    if r.applied_status == resource_status_none
    then r
    else if leb r.applied_status known_status
    then record r { applied_status = resource_status_none }
    else r

unfoldable pub set_known_status : ResourceStatus → TaskResource → TaskResource
unfolding update_applied_status
set_known_status status r =
    let s = record r { known_status = status } in
    if r.clears_applied then update_applied_status status s else s

unfoldable pub set_applied_status : ResourceStatus → TaskResource → TaskResource × Bool
set_applied_status status r =
    if r.applied_status /= resource_status_none
    then (r, false)
    else (record r { applied_status = status }, true)
