-- ===== src/Compose.antt =====
-- custom_components/ha_docker_compose/compose.py: `docker compose` commands, run in the sidecar, and the
-- compose file that is read where they fail. The texts of exceptions are left out.
mod Tests
pub mod Config
pub mod Detached
use ha_docker_compose.Prelude.{Bool, List, Option, Text, [], codes, none, some, suc, zero, ◌∷◌}
use ha_docker_compose.ComposeFile.{ComposeConfig, truthy}
use ha_docker_compose.Engine.{
  Docker, Failure, other_error, Raised, sidecar_not_available, compose_command, uncaught, Result,
  returned, raised,
}
use ha_docker_compose.Engine.Exec.{
  Action, Handle, ExecResult, ExecPollResult, exec_in_container, exec_start_detached, poll_exec,
  read_exec_log,
}

-- What `yaml.safe_load` makes of a text: a mapping, a value that counts as false (an empty document),
-- another value, or a YAMLError.
pub data Yaml : Type 0 where
  mapping : ComposeConfig → Yaml
  falsy other_value malformed : Yaml

-- What stands at a path: nothing, a folder, a file that an OSError keeps from being read, one that is no
-- UTF-8, or a text.
pub data Node : Type 0 where
  absent directory unreadable undecodable : Node
  contents : Text → Node

-- `COMPOSE_FILENAMES`
abbrev pub compose_filenames : List Text
compose_filenames =
    codes "docker-compose.yml"
    ∷ codes "docker-compose.yaml"
    ∷ codes "compose.yml"
    ∷ codes "compose.yaml"
    ∷ []

-- A loaded document: `none` is a value that is no mapping.
abbrev pub Document : Type 0
Document = Option ComposeConfig

abbrev pub empty_config : ComposeConfig
empty_config = record { name = none; services = [] }

-- `yaml.safe_load(…) or {}`
unfoldable pub or_empty : Yaml → Result Document
or_empty (mapping config) = returned (some config)
or_empty falsy = returned (some empty_config)
or_empty other_value = returned none
or_empty malformed = raised (uncaught other_error)

-- A command with the service that it is for, if there is one.
abbrev pub for_service : Text → Option Text → List Text
for_service verb service = elim (truthy service) [ none ↦ verb ∷ [] | some name ↦ verb ∷ name ∷ [] ]

-- What `_run` makes of an attached command that was run, or could not be.
unfoldable pub run_result : List Text → Result ExecResult → Result Text
run_result args (raised sidecar_not_available) = raised (compose_command args none [])
run_result args (raised e) = raised e
run_result args (returned result) = elim result.exit_code [
  | some zero ↦ returned result.stdout
  | some (suc code) ↦ raised (compose_command args (some (suc code)) result.stderr)
  | none ↦ raised (compose_command args none result.stderr)
]

unfoldable pub detached_result : List Text → Result Handle → Result Handle
detached_result args (raised sidecar_not_available) = raised (compose_command args none [])
detached_result args r = r

-- The library that reads YAML, and the files of each folder.
module _ (safe_load : Text → Yaml) (node : Text → Text → Node) where
  unfoldable pub read_first : Text → List Text → Result Document
  unfolding or_empty
  read_first stack_dir [] = returned (some empty_config)
  read_first stack_dir (filename ∷ filenames) =
      let rest = read_first stack_dir filenames in
      elim (node stack_dir filename) [
        | absent ↦ rest
        | contents text ↦ or_empty (safe_load text)
        | directory ↦ raised (uncaught other_error)
        | unreadable ↦ raised (uncaught other_error)
        | undecodable ↦ raised (uncaught other_error)
      ]

  unfoldable pub read_raw_compose_file : Text → Result Document
  unfolding read_first
  read_raw_compose_file stack_dir = read_first stack_dir compose_filenames

  -- What `get_compose_config` makes of the output, or of its absence.
  unfoldable pub config_result : Text → Result Text → Result Document
  unfolding or_empty read_raw_compose_file
  config_result stack_dir (returned raw) = or_empty (safe_load raw)
  config_result stack_dir (raised (compose_command args code stderr)) =
      read_raw_compose_file stack_dir
  config_result stack_dir (raised e) = raised e

  module _ (World : Type 0) (docker : Docker World) (connected : Bool) (decode : Text → Text)
      (fresh_hex : World → Text × World) (sidecar_container : Text) where
    unfoldable pub run : Text → List Text → Action World Text
    unfolding run_result exec_in_container
    run stack_dir args w =
        let (result, w') =
          exec_in_container World docker connected decode fresh_hex sidecar_container
            (codes "docker" ∷ codes "compose" ∷ args) (some stack_dir) w in
        (run_result args result, w')

    unfoldable pub get_compose_config : Text → Action World Document
    unfolding run config_result
    get_compose_config stack_dir w =
        let (raw, w') = run stack_dir (codes "config" ∷ []) w in (config_result stack_dir raw, w')

    unfoldable pub up : Text → Action World Text
    unfolding run
    up stack_dir = run stack_dir (codes "up" ∷ codes "-d" ∷ [])

    unfoldable pub down : Text → Action World Text
    unfolding run
    down stack_dir = run stack_dir (codes "down" ∷ [])

    unfoldable pub pull : Text → Option Text → Action World Text
    unfolding run
    pull stack_dir service = run stack_dir (for_service (codes "pull") service)

    unfoldable pub restart : Text → Option Text → Action World Text
    unfolding run
    restart stack_dir service = run stack_dir (for_service (codes "restart") service)

    unfoldable pub stop : Text → Option Text → Action World Text
    unfolding run
    stop stack_dir service = run stack_dir (for_service (codes "stop") service)

    unfoldable pub start : Text → Option Text → Action World Text
    unfolding run
    start stack_dir service = run stack_dir (for_service (codes "start") service)

    unfoldable pub start_detached : Text → List Text → Action World Handle
    unfolding detached_result exec_start_detached
    start_detached stack_dir args w =
        let (handle, w') =
          exec_start_detached World docker connected decode fresh_hex sidecar_container
            (codes "docker" ∷ codes "compose" ∷ args) (some stack_dir) w in
        (detached_result args handle, w')

    unfoldable pub poll : Text → Action World ExecPollResult
    unfolding poll_exec
    poll exec_id = poll_exec World docker connected decode fresh_hex exec_id

    unfoldable pub read_log : Text → World → Text × World
    unfolding read_exec_log
    read_log log_path =
        read_exec_log World docker connected decode fresh_hex sidecar_container log_path
