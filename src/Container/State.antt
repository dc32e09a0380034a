-- ===== src/Container/State.antt =====
-- agent/api/container/container.go: the operations on a container's statuses, health and times.
-- A method that writes returns the new container; its lock makes it one step. A getter of one
-- field is that field.
use amazon_ecs_agent.Common.{
  ℕ, ◌+◌, ◌*◌, ◌%◌, ◌^◌, Bool, true, false, ◌&&◌, ◌||◌, ◌==◌, ◌/=◌, leb, if◌then◌else◌, str_eq,
  String, Option, none, some, List, [], ◌∷◌, any, insert, string_key,
}
use amazon_ecs_agent.Status.ContainerStatus.{
  ContainerStatus, container_status_none, container_running, container_stopped, container_unhealthy,
  terminal, is_running,
}
use amazon_ecs_agent.Container.Types.{
  Container, HealthStatus, Time, Secret, RegistryAuthenticationData, container_normal,
}

abbrev pub default_container_steady_state_status : ContainerStatus
default_container_steady_state_status = container_running

abbrev pub steady_or_default : Option ContainerStatus → ContainerStatus
steady_or_default none = default_container_steady_state_status
steady_or_default (some s) = s

abbrev pub get_steady_state_status : Container → ContainerStatus
get_steady_state_status c = steady_or_default c.steady_state_status

abbrev pub known_terminal : Container → Bool
known_terminal c = terminal c.known_status

abbrev pub desired_terminal : Container → Bool
desired_terminal c = terminal c.desired_status

-- `updateAppliedStatusUnsafe`
unfoldable pub update_applied_status : ContainerStatus → Container → Container
update_applied_status known_status c =
    if c.applied_status == container_status_none
    then c
    else if leb c.applied_status known_status
    then record c { applied_status = container_status_none }
    else c

unfoldable pub set_known_status : ContainerStatus → Container → Container
unfolding update_applied_status
set_known_status status c = update_applied_status status (record c { known_status = status })

unfoldable pub set_desired_status : ContainerStatus → Container → Container
set_desired_status status c = record c { desired_status = status }

unfoldable pub set_sent_status : ContainerStatus → Container → Container
set_sent_status status c = record c { sent_status = status }

-- The Boolean is false where a transition is already under way.
unfoldable pub set_applied_status : ContainerStatus → Container → Container × Bool
set_applied_status status c =
    if c.applied_status /= container_status_none
    then (c, false)
    else (record c { applied_status = status }, true)

abbrev pub is_known_steady_state : Container → Bool
is_known_steady_state c = c.known_status == get_steady_state_status c

unfoldable pub get_next_known_state_progression : Container → ContainerStatus
get_next_known_state_progression c =
    if is_known_steady_state c then container_stopped else c.known_status + 1

abbrev pub container_is_running : Container → Bool
container_is_running c = is_running c.known_status

unfoldable pub is_internal : Container → Bool
is_internal c = elim c.type [ container_normal ↦ false | _ ↦ true ]

-- A zero time is not recorded.
unfoldable pub set_created_at : Time → Container → Container
set_created_at t c = if t == 0 then c else record c { created_at = t }

unfoldable pub set_started_at : Time → Container → Container
set_started_at t c = if t == 0 then c else record c { started_at = t }

unfoldable pub set_finished_at : Time → Container → Container
set_finished_at t c = if t == 0 then c else record c { finished_at = t }

abbrev pub docker_health_check_type : String
docker_health_check_type = "docker"

unfoldable pub health_status_should_be_reported : Container → Bool
health_status_should_be_reported c = str_eq c.health_check_type docker_health_check_type

-- The exit code is only written for an unhealthy status. `now` is `time.Now()`.
unfoldable pub set_health_status : Time → HealthStatus → Container → Container
set_health_status now health c = if c.health.status == health.status then c else record c {
  health = record {
    status = health.status;
    since = some now;
    exit_code =
        if health.status == container_unhealthy then health.exit_code else c.health.exit_code;
    output = health.output;
  };
}

-- `time.Duration(seconds) * time.Second`: an int64 of nanoseconds, as its 64 bits.
abbrev pub duration_of_seconds : ℕ → ℕ
duration_of_seconds seconds = (seconds * 1_000_000_000) % 2 ^ 64

-- `d <= 0` of a duration given by its 64 bits.
abbrev pub duration_not_positive : ℕ → Bool
duration_not_positive d = d == 0 || leb (2 ^ 63) d

abbrev pub get_start_timeout : Container → ℕ
get_start_timeout c = duration_of_seconds c.start_timeout

abbrev pub auth_type_ecr : String
auth_type_ecr = "ecr"

abbrev pub auth_type_asm : String
auth_type_asm = "asm"

abbrev pub is_set : Option Bool → Bool
is_set none = false
is_set (some b) = b

abbrev pub auth_with_execution_role : Option RegistryAuthenticationData → Bool
auth_with_execution_role none = false
auth_with_execution_role (some auth) =
    str_eq auth.type auth_type_ecr && is_set auth.ecr_use_execution_role

abbrev pub should_pull_with_execution_role : Container → Bool
should_pull_with_execution_role c = auth_with_execution_role c.registry_authentication

abbrev pub auth_with_asm : Option RegistryAuthenticationData → Bool
auth_with_asm none = false
auth_with_asm (some auth) = str_eq auth.type auth_type_asm && auth.asm_auth_data

unfoldable pub should_pull_with_asm_auth : Container → Bool
should_pull_with_asm_auth c = auth_with_asm c.registry_authentication

unfoldable pub has_secret : (Secret → Bool) → Container → Bool
unfolding any
has_secret f c = any f c.secrets

abbrev pub secret_provider_ssm : String
secret_provider_ssm = "ssm"

abbrev pub secret_provider_asm : String
secret_provider_asm = "asm"

unfoldable pub should_create_with_ssm_secret : Container → Bool
unfolding any
should_create_with_ssm_secret c = any (λ s. str_eq s.provider secret_provider_ssm) c.secrets

unfoldable pub should_create_with_asm_secret : Container → Bool
unfolding any
should_create_with_asm_secret c = any (λ s. str_eq s.provider secret_provider_asm) c.secrets

-- The loop of `MergeEnvironmentVariables`; the keys of `env_vars` differ, as a map's do.
unfoldable pub merge_into : List (String × String) → List (String × String) → List (String × String)
unfolding insert
merge_into env [] = env
merge_into env ((k, v) ∷ env_vars) = merge_into (insert k v env) env_vars

abbrev pub env_or_empty : Option (List (String × String)) → List (String × String)
env_or_empty none = []
env_or_empty (some env) = env

unfoldable pub merge_environment_variables : List (String × String) → Container → Container
unfolding merge_into
merge_environment_variables env_vars c = record c {
  environment = some (merge_into (env_or_empty c.environment) env_vars);
}
