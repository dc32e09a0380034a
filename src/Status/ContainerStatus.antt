-- ===== src/Status/ContainerStatus.antt =====
-- agent/api/container/status/containerstatus.go: `ContainerStatus` and `ContainerHealthStatus`.
-- The Go types are `int32`; the model's values are the non-negative ones, as numbers, so that the
-- code's `<`, `>=` and `+ 1` are those of ℕ. The constants below and `ContainerStatusNone + 1` to
-- `ContainerZombie` are the only values that the agent computes.
use amazon_ecs_agent.Common.{
  ℕ, Bool, Option, none, some, List, [], ◌∷◌, ◌||◌, ◌==◌, if◌then◌else◌, lookup, bytes_key, codes,
  bytes_eq, to_lower, Literal, out_of_range, unquoted, quoted, string_literal, quoted_bytes,
}

abbrev pub ContainerStatus : Type 0
ContainerStatus = ℕ

abbrev pub container_status_none : ContainerStatus
container_status_none = 0

abbrev pub container_pulled : ContainerStatus
container_pulled = 1

abbrev pub container_created : ContainerStatus
container_created = 2

abbrev pub container_running : ContainerStatus
container_running = 3

abbrev pub container_resources_provisioned : ContainerStatus
container_resources_provisioned = 4

abbrev pub container_stopped : ContainerStatus
container_stopped = 5

abbrev pub container_zombie : ContainerStatus
container_zombie = 6

-- The keys are the strings' bytes.
abbrev pub container_status_map : List (List ℕ × ContainerStatus)
container_status_map =
    (codes "NONE", container_status_none)
    ∷ (codes "PULLED", container_pulled)
    ∷ (codes "CREATED", container_created)
    ∷ (codes "RUNNING", container_running)
    ∷ (codes "RESOURCES_PROVISIONED", container_resources_provisioned)
    ∷ (codes "STOPPED", container_stopped)
    ∷ []

-- The loop of `String`: the values of the map differ, so its order does not matter.
unfoldable pub find_name : ℕ → List (List ℕ × ℕ) → Option (List ℕ)
find_name status [] = none
find_name status ((k, v) ∷ m) = if v == status then some k else find_name status m

abbrev pub name_or : List ℕ → Option (List ℕ) → List ℕ
name_or default none = default
name_or default (some k) = k

unfoldable pub to_string : ContainerStatus → List ℕ
unfolding find_name
to_string cs = name_or (codes "NONE") (find_name cs container_status_map)

unfoldable pub should_report_to_backend : ContainerStatus → ContainerStatus → Bool
should_report_to_backend cs steady_state_status =
    cs == steady_state_status || cs == container_stopped

unfoldable pub backend_status : ContainerStatus → ContainerStatus → ContainerStatus
backend_status cs steady_state_status =
    if cs == steady_state_status
    then container_running
    else if cs == container_stopped
    then container_stopped
    else container_status_none

abbrev pub terminal : ContainerStatus → Bool
terminal cs = cs == container_stopped

abbrev pub is_running : ContainerStatus → Bool
is_running cs = cs == container_running || cs == container_resources_provisioned

-- What `UnmarshalJSON` leaves in its receiver, with an error or not, or that it panics.
pub data Decoded : Type 0 where
  decoded : ℕ → Decoded
  failed : ℕ → Decoded
  panicked : Decoded

abbrev found_or_failed : Option ℕ → Decoded
found_or_failed none = failed 0
found_or_failed (some s) = decoded s

unfoldable pub unmarshal_name : List (List ℕ × ℕ) → ℕ → Literal → Decoded
unmarshal_name names stopped out_of_range = panicked
unmarshal_name names stopped unquoted = failed 0
unmarshal_name names stopped (quoted str_status) =
    if bytes_eq str_status (codes "UNKNOWN")
    then decoded 0
    else if bytes_eq str_status (codes "DEAD")
    then decoded stopped
    else found_or_failed (lookup str_status names)

unfoldable pub unmarshal_json : List ℕ → Decoded
unmarshal_json b =
    if bytes_eq (to_lower b) (codes "null")
    then decoded container_status_none
    else unmarshal_name container_status_map container_stopped (string_literal b)

unfoldable pub marshal_json : ContainerStatus → List ℕ
unfolding to_string
marshal_json cs = quoted_bytes (to_string cs)

abbrev pub ContainerHealthStatus : Type 0
ContainerHealthStatus = ℕ

abbrev pub container_health_unknown : ContainerHealthStatus
container_health_unknown = 0

abbrev pub container_healthy : ContainerHealthStatus
container_healthy = 1

abbrev pub container_unhealthy : ContainerHealthStatus
container_unhealthy = 2

unfoldable pub health_to_string : ContainerHealthStatus → List ℕ
health_to_string health_status =
    if health_status == container_healthy
    then codes "HEALTHY"
    else if health_status == container_unhealthy
    then codes "UNHEALTHY"
    else codes "UNKNOWN"

unfoldable pub unmarshal_health : Literal → Decoded
unmarshal_health out_of_range = panicked
unmarshal_health unquoted = failed container_health_unknown
unmarshal_health (quoted str_status) =
    if bytes_eq str_status (codes "UNKNOWN")
    then decoded container_health_unknown
    else if bytes_eq str_status (codes "HEALTHY")
    then decoded container_healthy
    else if bytes_eq str_status (codes "UNHEALTHY")
    then decoded container_unhealthy
    else failed container_health_unknown

unfoldable pub unmarshal_health_json : List ℕ → Decoded
unmarshal_health_json b =
    if bytes_eq (to_lower b) (codes "null")
    then decoded container_health_unknown
    else unmarshal_health (string_literal b)

unfoldable pub marshal_health_json : ContainerHealthStatus → List ℕ
unfolding health_to_string
marshal_health_json health_status = quoted_bytes (health_to_string health_status)
