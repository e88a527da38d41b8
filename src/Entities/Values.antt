-- ===== src/Entities/Values.antt =====
-- sensor.py and binary_sensor.py: what the entities show, as functions of what the coordinators hold.
use ha_docker_compose.Prelude.{
  Bool, Dict, List, Option, Text, [], codes, decimal, elem, false, if◌then◌else◌, length, lookup,
  nat_eq, none, not, pair_eq, rpartition, some, take, text_eq, true, ℕ, ◌&&◌, ◌*◌, ◌++◌, ◌==◌, ◌∷◌,
}
use ha_docker_compose.ComposeFile.{truthy}
use ha_docker_compose.Engine.{ContainerInfo}
use ha_docker_compose.Discovery.{service_names}
use ha_docker_compose.Coordinator.{
  StackState, running, partial, stopped, orphaned, Statuses, container_for_service, running_text,
}
use ha_docker_compose.UpdateCoordinator.{ServiceUpdateStatus, StackUpdateSummary, update_available}
use ha_docker_compose.PullJobs.{TagWalkStatus}
use ha_docker_compose.GithubRelease.{GitHubRelease}
use ha_docker_compose.GithubCoordinator.{ServiceMetadata}
use ha_docker_compose.ContainerTotals.{round_div}
use ha_docker_compose.Entities.Actions.{Logs}

-- `STACK_STATE_…`
unfoldable pub state_text : StackState → Text
state_text running = codes "running"
state_text partial = codes "partial"
state_text stopped = codes "stopped"
state_text orphaned = codes "orphaned"

abbrev pub updating_text : Text
updating_text = codes "updating"

-- What a value that may be missing is mapped to.
abbrev pub when_some {ℓ κ} : {A : Type ℓ} {B : Type κ} → (A → Option B) → Option A → Option B
when_some f none = none
when_some f (some a) = f a

-- What the data of a coordinator has for a service of a stack.
unfoldable pub for_service : {A : Type 0} → Dict Text (Dict Text A) → Text → Text → Option A
for_service data' stack_name service_name =
    when_some (lookup service_name) (lookup stack_name data')

-- `StackStateSensor` and `StackRunningSwitch`
unfoldable pub stack_state_value : List Text → Statuses → Text → Option Text
unfolding state_text
stack_state_value pulling_stacks statuses stack_name =
    if elem stack_name pulling_stacks
    then some updating_text
    else when_some (λ s. some (state_text s.state)) (lookup stack_name statuses)

abbrev pub is_stopped : StackState → Bool
is_stopped stopped = true
is_stopped _ = false

unfoldable pub stack_switch_is_on : Statuses → Text → Option Bool
stack_switch_is_on statuses stack_name =
    when_some (λ s. some (not (is_stopped s.state))) (lookup stack_name statuses)

-- `StackComposeConfigSensor`
unfoldable pub compose_config_value : Statuses → Text → Option Text
compose_config_value statuses stack_name =
    when_some (λ s. some (decimal (length (service_names s.info)) ++ codes " services"))
      (lookup stack_name statuses)

-- `_container` of the entities of a service
unfoldable pub container_of : Statuses → Text → Text → Option ContainerInfo
container_of statuses stack_name service_name =
    when_some (λ s. container_for_service s service_name) (lookup stack_name statuses)

-- `ServiceRunningSwitch`: without a container it is off.
unfoldable pub service_switch_is_on : Statuses → Text → Text → Bool
unfolding container_of
service_switch_is_on statuses stack_name service_name =
    elim (container_of statuses stack_name service_name) [
      | none ↦ false
      | some c ↦ c.state == running_text
    ]

unfoldable pub service_state_value : Statuses → Text → Text → Text
unfolding container_of
service_state_value statuses stack_name service_name =
    elim (container_of statuses stack_name service_name) [
      | none ↦ codes "not_created"
      | some c ↦ c.state
    ]

abbrev pub bytes_per_mb : ℕ
bytes_per_mb = 1048576

-- `ServiceMemorySensor`, in tenths of a megabyte
unfoldable pub service_memory_value : Statuses → Text → Text → Option ℕ
unfolding container_of round_div
service_memory_value statuses stack_name service_name =
    when_some (λ usage. some (round_div (10 * usage) bytes_per_mb))
      (when_some (λ c. c.memory_usage_bytes) (container_of statuses stack_name service_name))

unfoldable pub service_uptime_value : Statuses → Text → Text → Option Text
unfolding container_of
service_uptime_value statuses stack_name service_name =
    when_some (λ c. c.started_at) (container_of statuses stack_name service_name)

unfoldable pub log_command_value : Statuses → Text → Text → Option Text
unfolding container_of
log_command_value statuses stack_name service_name =
    when_some (λ c. some (codes "docker logs -f " ++ (c.name ++ codes " --tail 200")))
      (container_of statuses stack_name service_name)

-- `ServiceLastFetchedLogsSensor`, with its attribute `log_text`
unfoldable pub last_fetched_value : Logs → Text → Text → Option Text
last_fetched_value logs stack_name service_name =
    when_some (λ r. some r.fetched_at) (lookup (stack_name, service_name) logs)

unfoldable pub log_text_value : Logs → Text → Text → Option Text
log_text_value logs stack_name service_name =
    when_some (λ r. some r.log_text) (lookup (stack_name, service_name) logs)

abbrev pub Updates : Type 0
Updates = Dict Text StackUpdateSummary

-- `_update_status`
unfoldable pub update_status : Updates → Text → Text → Option ServiceUpdateStatus
update_status updates stack_name service_name =
    when_some (λ s. lookup service_name s.services) (lookup stack_name updates)

-- `digest.split(":")[-1][:12]`
unfoldable pub short_digest : Text → Text
short_digest digest =
    take 12 (elim (rpartition b':' digest) [ none ↦ digest | some (algorithm, hash) ↦ hash ])

-- `ServiceRunningDigestSensor`
unfoldable pub running_digest_value : Updates → Text → Text → Option Text
unfolding update_status short_digest
running_digest_value updates stack_name service_name =
    when_some (λ d. some (short_digest d))
      (when_some (λ s. truthy s.local_digest) (update_status updates stack_name service_name))

-- `ServiceLastPulledSensor`, with Home Assistant's `parse_datetime`
unfoldable pub last_pulled_value : (Text → Option Text) → Updates → Text → Text → Option Text
unfolding update_status
last_pulled_value parse_datetime updates stack_name service_name =
    when_some parse_datetime
      (when_some (λ s. truthy s.last_pulled) (update_status updates stack_name service_name))

-- `ServiceUpdateAvailableSensor`; the flag is whether the last update of the coordinator succeeded.
unfoldable pub update_is_available : Bool → Updates → Text → Text → Bool
unfolding update_status
update_is_available last_update_success updates stack_name service_name =
    if last_update_success
    then elim (update_status updates stack_name service_name) [
      | none ↦ false
      | some s ↦ s.registry_supported && not s.denied
    ]
    else false

unfoldable pub update_is_on : Updates → Text → Text → Option Bool
unfolding update_status update_available
update_is_on updates stack_name service_name =
    when_some update_available (update_status updates stack_name service_name)

-- `StackUpdateAvailableSensor`
unfoldable pub stack_update_is_on : Updates → Text → Option Bool
stack_update_is_on updates stack_name =
    when_some (λ s. s.update_available) (lookup stack_name updates)

-- `ServiceLatestRegistryTagSensor` and `ServicePullTargetVersionSensor`
unfoldable pub latest_registry_tag_value :
    Dict Text (Dict Text TagWalkStatus) → Text → Text → Option Text
unfolding for_service
latest_registry_tag_value walked stack_name service_name =
    when_some (λ s. s.latest_registry_tag) (for_service walked stack_name service_name)

unfoldable pub pull_target_version_value :
    Dict Text (Dict Text TagWalkStatus) → Text → Text → Option Text
unfolding for_service
pull_target_version_value walked stack_name service_name =
    when_some (λ s. s.pull_target_version) (for_service walked stack_name service_name)

-- `ServiceLatestGithubReleaseSensor` and `ServiceDetectedVersionSensor`
unfoldable pub latest_release :
    Dict Text (Dict Text ServiceMetadata) → Text → Text → Option GitHubRelease
unfolding for_service
latest_release metadata stack_name service_name =
    when_some (λ m. m.release) (for_service metadata stack_name service_name)

unfoldable pub latest_release_value :
    Dict Text (Dict Text ServiceMetadata) → Text → Text → Option Text
unfolding latest_release
latest_release_value metadata stack_name service_name =
    when_some (λ r. some r.tag_name) (latest_release metadata stack_name service_name)

unfoldable pub detected_version_value :
    Dict Text (Dict Text ServiceMetadata) → Text → Text → Option Text
unfolding for_service
detected_version_value metadata stack_name service_name =
    when_some (λ m. m.detected_version) (for_service metadata stack_name service_name)

-- `_all_containers` of the totals of a site
unfoldable pub all_containers : Statuses → List ContainerInfo
all_containers [] = []
all_containers ((stack_name, status) ∷ statuses) = status.containers ++ all_containers statuses
