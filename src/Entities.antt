-- ===== src/Entities.antt =====
-- custom_components/ha_docker_compose/switch.py, button.py, sensor.py, binary_sensor.py and entity.py:
-- which entities an entry has, and what they are known by.
mod Tests
pub mod Actions
pub mod Values
pub mod Attributes
pub mod Contract
pub mod Protection
pub mod Identity
pub mod Pressed
pub mod Fetched
pub mod Shown
use ha_docker_compose.Prelude.{
  List, Option, Text, [], codes, if◌then◌else◌, map, none, some, ◌++◌, ◌∷◌,
}
use ha_docker_compose.ComposeFile.{ServiceDef, absent}
use ha_docker_compose.Labels.{is_service_protected, is_stack_protected}
use ha_docker_compose.Discovery.{StackInfo, service_names}
use ha_docker_compose.DeviceIds.{Identifier, stack_device_identifier, service_device_identifier}

-- The `KIND_…` constants, one for each class of entities.
pub data Kind : Type 0 where
  stack_state stack_pull_button stack_check_button stack_switch stack_update_available : Kind
  stack_compose_config service_state service_cpu service_memory service_uptime : Kind
  service_log_command service_last_fetched_logs service_fetch_logs_button : Kind
  service_restart_button service_running_switch service_update_available : Kind
  service_running_digest service_last_pulled service_latest_registry_tag : Kind
  service_pull_target_version service_latest_github_release service_detected_version : Kind
  site_total_cpu site_total_memory : Kind

-- An entity, by its class and the stack and the service that it is for.
pub record Entity : Type 0 where
  pub kind : Kind
  pub stack : Option Text
  pub service : Option Text

abbrev pub of_stack : Kind → StackInfo → Entity
of_stack kind stack = record { kind = kind; stack = some stack.name; service = none }

abbrev pub of_service : StackInfo → Text → Kind → Entity
of_service stack service kind = record {
  kind = kind;
  stack = some stack.name;
  service = some service;
}

abbrev pub of_site : Kind → Entity
of_site kind = record { kind = kind; stack = none; service = none }

-- The loop of each `async_setup_entry`: what a stack adds, and what each of its services adds.
unfoldable pub add_each {ℓ} : {A : Type ℓ} → (A → List Entity) → List A → List Entity
add_each f [] = []
add_each f (x ∷ xs) = f x ++ add_each f xs

abbrev pub Service : Type 0
Service = Text × ServiceDef

-- switch.py
unfoldable pub service_switches : StackInfo → Service → List Entity
service_switches stack (service, service_def) =
    if is_service_protected service_def
    then []
    else of_service stack service service_running_switch ∷ []

unfoldable pub stack_switches : StackInfo → List Entity
unfolding service_switches add_each
stack_switches stack =
    (if is_stack_protected stack.compose_config then [] else of_stack stack_switch stack ∷ [])
    ++ add_each (service_switches stack) stack.compose_config.services

unfoldable pub switches : List StackInfo → List Entity
unfolding stack_switches
switches = add_each stack_switches

-- button.py
unfoldable pub service_buttons : StackInfo → Service → List Entity
service_buttons stack (service, service_def) =
    of_service stack service service_fetch_logs_button
    ∷ (if is_service_protected service_def
        then []
        else of_service stack service service_restart_button ∷ [])

unfoldable pub stack_buttons : StackInfo → List Entity
unfolding service_buttons add_each
stack_buttons stack =
    (if is_stack_protected stack.compose_config then [] else of_stack stack_pull_button stack ∷ [])
    ++ of_stack stack_check_button stack
      ∷ add_each (service_buttons stack) stack.compose_config.services

unfoldable pub buttons : List StackInfo → List Entity
unfolding stack_buttons
buttons = add_each stack_buttons

-- sensor.py
abbrev pub service_sensor_kinds : List Kind
service_sensor_kinds =
    service_state ∷ service_cpu ∷ service_memory ∷ service_uptime ∷ service_log_command
    ∷ service_last_fetched_logs ∷ service_running_digest ∷ service_last_pulled
    ∷ service_latest_registry_tag ∷ service_pull_target_version ∷ service_latest_github_release
    ∷ service_detected_version ∷ []

unfoldable pub service_sensors : StackInfo → Service → List Entity
service_sensors stack (service, service_def) = map (of_service stack service) service_sensor_kinds

unfoldable pub stack_sensors : StackInfo → List Entity
unfolding service_sensors add_each
stack_sensors stack =
    of_stack stack_state stack
    ∷ of_stack stack_compose_config stack
    ∷ add_each (service_sensors stack) stack.compose_config.services

unfoldable pub sensors : List StackInfo → List Entity
unfolding stack_sensors
sensors stacks =
    add_each stack_sensors stacks ++ of_site site_total_cpu ∷ of_site site_total_memory ∷ []

-- binary_sensor.py
unfoldable pub service_binary_sensors : StackInfo → Service → List Entity
service_binary_sensors stack (service, service_def) =
    of_service stack service service_update_available ∷ []

unfoldable pub stack_binary_sensors : StackInfo → List Entity
unfolding service_binary_sensors add_each
stack_binary_sensors stack =
    of_stack stack_update_available stack
    ∷ add_each (service_binary_sensors stack) stack.compose_config.services

unfoldable pub binary_sensors : List StackInfo → List Entity
unfolding stack_binary_sensors
binary_sensors = add_each stack_binary_sensors

-- The entities of an entry, on all platforms.
unfoldable pub entities : List StackInfo → List Entity
unfolding switches buttons sensors binary_sensors
entities stacks = switches stacks ++ (buttons stacks ++ (sensors stacks ++ binary_sensors stacks))

-- The last part of `_attr_unique_id`.
unfoldable pub suffix : Kind → Text
suffix stack_state = codes "state"
suffix stack_pull_button = codes "pull_update"
suffix stack_check_button = codes "check_updates"
suffix stack_switch = codes "running"
suffix stack_update_available = codes "update_available"
suffix stack_compose_config = codes "compose_config"
suffix service_state = codes "state"
suffix service_cpu = codes "cpu"
suffix service_memory = codes "memory"
suffix service_uptime = codes "uptime"
suffix service_log_command = codes "log_command"
suffix service_last_fetched_logs = codes "last_fetched_logs"
suffix service_fetch_logs_button = codes "fetch_logs"
suffix service_restart_button = codes "restart"
suffix service_running_switch = codes "running"
suffix service_update_available = codes "update_available"
suffix service_running_digest = codes "running_digest"
suffix service_last_pulled = codes "last_pulled"
suffix service_latest_registry_tag = codes "latest_registry_tag"
suffix service_pull_target_version = codes "pull_target_version"
suffix service_latest_github_release = codes "latest_github_release"
suffix service_detected_version = codes "detected_version"
suffix site_total_cpu = codes "total_container_cpu"
suffix site_total_memory = codes "total_container_memory"

-- `f"{entry_id}_{stack_name}_{service_name}_…"`, with the parts that there are
unfoldable pub unique_id : Text → Entity → Text
unfolding suffix
unique_id entry_id e = entry_id ++ b'_' ∷ (part e.stack ++ (part e.service ++ suffix e.kind))
  where
    part : Option Text → Text
    part none = []
    part (some name) = name ++ b'_' ∷ []

-- `DeviceInfo`, by the fields that are set.
pub record DeviceInfo : Type 0 where
  pub identifier : Identifier
  pub name : Text
  pub via_device : Option Identifier

unfoldable pub stack_device_info : Text → Text → Text → DeviceInfo
unfolding stack_device_identifier
stack_device_info entry_id stack_name site = record {
  identifier = stack_device_identifier entry_id stack_name;
  name = stack_name ++ (codes " (" ++ (site ++ codes ")"));
  via_device = none;
}

unfoldable pub service_device_info : Text → Text → Text → Text → DeviceInfo
unfolding stack_device_identifier service_device_identifier
service_device_info entry_id stack_name service_name site = record {
  identifier = service_device_identifier entry_id stack_name service_name;
  name = stack_name ++ (codes " (" ++ (site ++ (codes ") / " ++ service_name)));
  via_device = some (stack_device_identifier entry_id stack_name);
}
