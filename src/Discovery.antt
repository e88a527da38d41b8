-- ===== src/Discovery.antt =====
-- custom_components/ha_docker_compose/discovery.py: the record of a discovered stack.
mod Tests
pub mod Scan
pub mod Found
use ha_docker_compose.Prelude.{
  Bool, List, Option, Text, [], if◌then◌else◌, keys, nat_eq, none, pair_eq, some, text_eq, ◌==◌,
  ◌∷◌,
}
use ha_docker_compose.ComposeFile.{ComposeConfig}

pub record StackInfo : Type 0 where
  pub name : Text
  -- `none` for a project with no folder on disk
  pub path : Option Text
  pub compose_filename : Text
  pub has_env_file : Bool
  pub compose_config : ComposeConfig
  pub raw_compose_text : Text

abbrev pub service_names : StackInfo → List Text
service_names stack = keys stack.compose_config.services

-- `next((s for s in stacks if s.name == name), None)`
unfoldable pub find_stack : Text → List StackInfo → Option StackInfo
find_stack name [] = none
find_stack name (s ∷ stacks) = if s.name == name then some s else find_stack name stacks
