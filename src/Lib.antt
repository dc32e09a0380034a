-- ===== src/Lib.antt =====
-- Verification library of the Amazon ECS agent (Go).
--
-- The agent runs on a host and keeps the tasks that the backend assigns to it. A task is a list of
-- containers that depend on each other. One goroutine per task reads three kinds of messages: new
-- desired statuses from the backend, changes of containers from Docker, and changes of the task's
-- resources. After each batch it starts the transitions that the dependencies allow, and it sends
-- events to the backend.
--
-- The parts, and the files of the repository they model:
--
-- - Status: agent/api/container/status/containerstatus.go and agent/api/task/status. Statuses are
--   natural numbers in the order of the Go constants: the code's values are not negative, and adds
--   one only to small ones. `Mapping` has the two maps between statuses, `Json` what holds of the
--   JSON forms. A decoder gives `decoded`, `failed` with the value it leaves, or `panicked`.
-- - Container: agent/api/container. A record with the fields the engine reads or changes: labels,
--   volumes, ports, network settings, ids and digests are left out. `State` has the statuses,
--   `Dependencies` the map from statuses to dependencies.
-- - Resource: the status machine of agent/taskresource. All resources share it, apart from Docker
--   volumes, whose `SetKnownStatus` leaves the applied status: `clears_applied` tells which.
-- - Credentials: agent/credentials/manager.go, a map from ids to credentials.
-- - DependencyGraph: agent/engine/dependencygraph/graph.go. `Conditions` has the loop over
--   `dependsOn`, `Resolution` has `DependenciesAreResolved`, `Validity` has `ValidDependencies`. Its
--   outer loop runs on as many rounds as there are containers, which is enough: a round that takes
--   no container ends it, and any other takes one. Go visits the map of containers in any order
--   when it collects what holds up a shutdown; the model visits it in the order of insertion, and
--   the result about it does not depend on the order.
-- - Task: agent/api/task/task.go. `Types` has the record, `Update` how known and desired statuses
--   follow from the containers, `Setup` the dependencies that volumes and links add to a new
--   task and `PauseSetup` its pause containers; `strings.Split`, and how `json.Unmarshal` reads the user
--   of a Docker configuration, are arguments there.
-- - StateChange: the constructors of events of agent/api/statechange.go; `Sent` what one event's sending
--   records in a whole task or container.
-- - ManagedTask: agent/engine/task_manager.go. `Events` has the handlers, `Messages` the
--   loop's reading of its channels, `Progress` what `progressTask` starts and when it gives up. What the code sends, saves or starts in a goroutine
--   is recorded in `outbox`, in order. A pointer to a container is its position in the task's list.
-- - WaitGroup: agent/utils/sync/sequential_waitgroup.go, with which a start waits for earlier stops.
-- - LruCache: agent/async/lru_cache.go. The eviction list holds keys from front to back.
-- - Version: how agent/utils/compare_versions.go compares two versions that are parsed.
-- - Retry: agent/utils/retry/retry.go. The loops run on fuel; as many rounds as the limit of calls
--   are enough where there is a limit.
-- - EngineState: agent/engine/dockerstate/docker_task_engine_state.go, the maps between tasks,
--   containers, their Docker ids and addresses. A pointer is a key with an address. `Changes` has the
--   calls that change the state, and runs of them.
-- - EventHandler: agent/eventhandler. `Events` and `Sending` are task_handler_types.go and the list of
--   one task's events, `Handler` the maps of task_handler.go; `Steps` has a run as a list of steps, each
--   of which holds one lock. A list stays at its address after the map has dropped it. The loop that
--   sends a list's events runs on fuel; enough of it is stated.
-- - TaskEngine: agent/engine/docker_task_engine.go. `Add` has the tasks that are added and deleted,
--   `Pull` the pull of an image, with the states of ImageManager, `Synchronize` a container after a
--   restart of the agent. What Docker and the stores of credentials answer is an argument.
-- - ImageManager: agent/engine/docker_image_manager.go and agent/engine/image. `State` has an image's
--   state, `References` what containers do to it, `Cleanup` and `NonEcs` a cycle of the clean-up. What
--   Docker answers is an argument, and so is Go's `sort.Slice`, which is relied on to make up no
--   elements. The code holds pointers to image states; here an address tells them apart.
--
-- Each call reads the clock once, as the argument `now`; times are natural numbers and 0 is the
-- zero time. Locks make each method one step. Logging is left out.
--
-- Not modelled: calls of Docker, of cloud services and of the operating system, the network
-- sessions, telemetry, the HTTP endpoints and the saved state, since they are input and output; and
-- on which channels the goroutine of a task waits, and for how long.
mod Common
pub mod Status
pub mod Credentials
pub mod Container
pub mod Resource
pub mod DependencyGraph
pub mod Task
pub mod StateChange
pub mod ManagedTask
pub mod WaitGroup
pub mod LruCache
pub mod Version
pub mod Retry
pub mod EngineState
pub mod EventHandler
pub mod ImageManager
pub mod TaskEngine
mod Samples
