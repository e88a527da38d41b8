-- ===== src/Entities/Attributes.antt =====
-- `extra_state_attributes` of the entities, by which a dashboard finds them, and what stands behind the
-- CPU sensors. The floats are a parameter.
use ha_docker_compose.Prelude.{
  Bool, Dict, List, Option, Text, [], codes, false, insert, lookup, nat_eq, none, pair_eq, some,
  text_eq, true, value, ℕ, ◌++◌, ◌∷◌,
}
use ha_docker_compose.Coordinator.{StackStatus, Statuses}
use ha_docker_compose.PullJobs.{Step, Reason, PullError}
use ha_docker_compose.Engine.{ContainerInfo}
use ha_docker_compose.UpdateCoordinator.{ServiceUpdateStatus}
use ha_docker_compose.GithubRelease.{GitHubRelease}
use ha_docker_compose.GithubCoordinator.{ServiceMetadata}
use ha_docker_compose.ContainerTotals.{
  Floats, percent_of, resolve_host_cpu_cores, total_cpu_percent_of_host, total_cores_used,
}
use ha_docker_compose.Entities.{
  Kind, stack_state, stack_pull_button, stack_check_button, stack_switch, stack_update_available,
  stack_compose_config, service_state, service_cpu, service_memory, service_uptime,
  service_log_command, service_last_fetched_logs, service_fetch_logs_button, service_restart_button,
  service_running_switch, service_update_available, service_running_digest, service_last_pulled,
  service_latest_registry_tag, service_pull_target_version, service_latest_github_release,
  service_detected_version, site_total_cpu, site_total_memory,
}
use ha_docker_compose.Entities.Actions.{Logs}
use ha_docker_compose.Entities.Values.{
  when_some, container_of, log_text_value, Updates, update_status, latest_release, all_containers,
}

-- The texts of the `KIND_…` constants.
unfoldable pub kind_text : Kind → Text
kind_text stack_state = codes "stack_state"
kind_text stack_pull_button = codes "stack_pull_button"
kind_text stack_check_button = codes "stack_check_button"
kind_text stack_switch = codes "stack_switch"
kind_text stack_update_available = codes "stack_update_available"
kind_text stack_compose_config = codes "stack_compose_config"
kind_text service_state = codes "service_state"
kind_text service_cpu = codes "service_cpu"
kind_text service_memory = codes "service_memory"
kind_text service_uptime = codes "service_uptime"
kind_text service_log_command = codes "service_log_command"
kind_text service_last_fetched_logs = codes "service_last_fetched_logs"
kind_text service_fetch_logs_button = codes "service_fetch_logs_button"
kind_text service_restart_button = codes "service_restart_button"
kind_text service_running_switch = codes "service_running_switch"
kind_text service_update_available = codes "service_update_available"
kind_text service_running_digest = codes "service_running_digest"
kind_text service_last_pulled = codes "service_last_pulled"
kind_text service_latest_registry_tag = codes "service_latest_registry_tag"
kind_text service_pull_target_version = codes "service_pull_target_version"
kind_text service_latest_github_release = codes "service_latest_github_release"
kind_text service_detected_version = codes "service_detected_version"
kind_text site_total_cpu = codes "site_total_cpu"
kind_text site_total_memory = codes "site_total_memory"

pub data Attribute (F : Type 0) : Type 0 where
  text_value : Text → Attribute F
  maybe_value : Option Text → Attribute F
  flag_value : Bool → Attribute F
  number_value : ℕ → Attribute F
  float_value : F → Attribute F
  reason_value : Reason → Attribute F
  step_value : Step → Attribute F

abbrev pub Attributes : Type 0 → Type 0
Attributes F = Dict Text (Attribute F)

-- What the coordinators hold.
pub record Held : Type 0 where
  pub site : Text
  pub cpu_cores : Option ℕ
  pub statuses : Statuses
  pub last_pull_errors : Dict Text PullError
  pub last_fetched_logs : Logs
  pub updates : Updates
  pub metadata : Dict Text (Dict Text ServiceMetadata)

-- What is added if a value is there.
abbrev pub if_some {ℓ κ} : {A : Type ℓ} {B : Type κ} → Option A → (A → List B) → List B
if_some none f = []
if_some (some a) f = f a

-- `attrs.update(…)`
unfoldable pub updated : {V : Type 0} → Dict Text V → Dict Text V → Dict Text V
updated attrs [] = attrs
updated attrs ((key, value) ∷ extras) = updated (insert key value attrs) extras

module _ (F : Type 0) where
  unfoldable pub stack_attributes : Text → Text → Text → Attributes F
  stack_attributes site stack_name kind =
      (codes "site", text_value site)
      ∷ (codes "stack", text_value stack_name)
      ∷ (codes "kind", text_value kind)
      ∷ []

  unfoldable pub service_attributes : Text → Text → Text → Attributes F
  service_attributes stack_name service_name kind =
      (codes "stack", text_value stack_name)
      ∷ (codes "service", text_value service_name)
      ∷ (codes "kind", text_value kind)
      ∷ []

  abbrev pub env_extras : StackStatus → Attributes F
  env_extras status = (codes "has_env_file", flag_value status.info.has_env_file) ∷ []

  abbrev pub error_extras : PullError → Attributes F
  error_extras e =
      (codes "last_pull_error", reason_value e.reason)
      ∷ (codes "last_pull_error_step", step_value e.step)
      ∷ (codes "last_pull_error_at", text_value e.failed_at)
      ∷ []

  abbrev pub config_extras : StackStatus → Attributes F
  config_extras status = (codes "compose_config", text_value status.info.raw_compose_text) ∷ []

  unfoldable pub stack_extras : Held → Text → Kind → Attributes F
  stack_extras h stack_name stack_state =
      if_some (lookup stack_name h.statuses) env_extras
      ++ if_some (lookup stack_name h.last_pull_errors) error_extras
  stack_extras h stack_name stack_compose_config =
      if_some (lookup stack_name h.statuses) config_extras
  stack_extras h stack_name kind = []

  -- What the classes of a service's entities add to the attributes that all have.
  abbrev pub state_extras : ContainerInfo → Attributes F
  state_extras c =
      (codes "health", maybe_value c.health) ∷ (codes "container_name", text_value c.name) ∷ []

  abbrev pub memory_extras : ℕ → Attributes F
  memory_extras limit = (codes "limit_bytes", number_value limit) ∷ []

  abbrev pub log_extras : Text → Attributes F
  log_extras log = (codes "log_text", text_value log) ∷ []

  abbrev pub digest_extras : ServiceUpdateStatus → Attributes F
  digest_extras s =
      (codes "full_digest", maybe_value s.local_digest) ∷ (codes "image", text_value s.image) ∷ []

  abbrev pub pulled_extras : ServiceUpdateStatus → Attributes F
  pulled_extras s =
      (codes "tag", maybe_value s.tag)
      ∷ (codes "previous_digest", maybe_value s.previous_digest)
      ∷ []

  abbrev pub update_extras : ServiceUpdateStatus → Attributes F
  update_extras s =
      (codes "image", text_value s.image)
      ∷ (codes "local_digest", maybe_value s.local_digest)
      ∷ (codes "remote_digest", maybe_value s.remote_digest)
      ∷ (codes "registry_supported", flag_value s.registry_supported)
      ∷ (codes "auth_denied", flag_value s.denied)
      ∷ []

  abbrev pub release_extras : GitHubRelease → Attributes F
  release_extras r =
      (codes "published_at", maybe_value r.published_at)
      ∷ (codes "release_url", maybe_value r.html_url)
      ∷ (codes "release_notes", maybe_value r.body)
      ∷ []

  unfoldable pub service_extras : Held → Text → Text → Kind → Attributes F
  service_extras h stack_name service_name service_state =
      if_some (container_of h.statuses stack_name service_name) state_extras
  service_extras h stack_name service_name service_memory =
      if_some
        (when_some (λ c. c.memory_limit_bytes) (container_of h.statuses stack_name service_name))
        memory_extras
  service_extras h stack_name service_name service_last_fetched_logs =
      if_some (log_text_value h.last_fetched_logs stack_name service_name) log_extras
  service_extras h stack_name service_name service_running_digest =
      if_some (update_status h.updates stack_name service_name) digest_extras
  service_extras h stack_name service_name service_last_pulled =
      if_some (update_status h.updates stack_name service_name) pulled_extras
  service_extras h stack_name service_name service_update_available =
      if_some (update_status h.updates stack_name service_name) update_extras
  service_extras h stack_name service_name service_latest_github_release =
      if_some (latest_release h.metadata stack_name service_name) release_extras
  service_extras h stack_name service_name kind = []

  -- `extra_state_attributes` of an entity of a stack, for one of its services or for the stack.
  unfoldable pub extra_state_attributes : Held → Kind → Text → Option Text → Attributes F
  unfolding updated stack_attributes service_attributes stack_extras service_extras kind_text
  extra_state_attributes h kind stack_name none =
      updated (stack_attributes h.site stack_name (kind_text kind)) (stack_extras h stack_name kind)
  extra_state_attributes h kind stack_name (some service_name) =
      updated (service_attributes stack_name service_name (kind_text kind))
        (service_extras h stack_name service_name kind)

  module _ (floats : Floats F) where
    -- `ServiceCpuSensor`
    unfoldable pub service_cpu_value : Statuses → Text → Text → Option F
    service_cpu_value statuses stack_name service_name =
        when_some (λ p. some (floats.round_to 1 (percent_of F floats p)))
          (when_some (λ c. c.cpu_percent) (container_of statuses stack_name service_name))

    abbrev is_unknown : Option ℕ → Option F → Bool
    is_unknown none none = true
    is_unknown cores value = false

    -- `TotalContainerCpuSensor._resolve`: the cores and the value, and whether the warning stands.
    unfoldable pub resolve : Held → (Option ℕ × Option F) × Bool
    unfolding resolve_host_cpu_cores total_cpu_percent_of_host all_containers
    resolve h =
        let containers = all_containers h.statuses in
        let cores = resolve_host_cpu_cores containers h.cpu_cores in
        let value = total_cpu_percent_of_host F floats containers cores in
        ((cores, value), is_unknown cores value)

    unfoldable pub total_cpu_attributes : Held → Attributes F
    unfolding resolve updated total_cores_used
    total_cpu_attributes h =
        let ((cores, value), warned) = resolve h in
        updated
          ((codes "site", text_value h.site)
            ∷ (codes "kind", text_value (codes "site_total_cpu"))
            ∷ [])
          (if_some cores (λ n. (codes "cpu_cores", number_value n) ∷ [])
            ++ (
              codes "cores_used",
              float_value (total_cores_used F floats (all_containers h.statuses)),
            )
              ∷ [])
