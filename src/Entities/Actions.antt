-- ===== src/Entities/Actions.antt =====
-- switch.py and button.py: what turning a switch or pressing a button does.
use ha_docker_compose.Prelude.{
  Dict, List, Option, Text, [], add, codes, if◌then◌else◌, insert, lookup, nat_eq, none, pair_eq,
  remove, some, text_eq, true, ℕ, ◌++◌, ◌==◌, ◌∷◌,
}
use ha_docker_compose.Engine.{
  Docker, ContainerInfo, Raised, logs_unavailable, compose_command, Result, returned, raised,
}
use ha_docker_compose.Engine.Exec.{Action, Handle, get_container_logs}
use ha_docker_compose.Compose.{Yaml, Node, up, down, start, stop, restart, start_detached}
use ha_docker_compose.Coordinator.{StackStatus, Statuses, container_for_service}
use ha_docker_compose.UpdateCoordinator.{Key}
use ha_docker_compose.PullJobs.{Runner, Task}
use ha_docker_compose.PullJobs

-- How an action ends: it completes (a switch and a restart ask for a refresh then), it raises a HomeAssistantError, or
-- another exception leaves it.
pub data Ended : Type 0 where
  completed home_assistant_error : Ended
  escaped : Raised → Ended

-- `except ComposeCommandError`
unfoldable pub ended {ℓ} : {A : Type ℓ} → Result A → Ended
ended (returned a) = completed
ended (raised (compose_command args code stderr)) = home_assistant_error
ended (raised e) = escaped e

-- The folder of a stack, if it has a status and a folder.
unfoldable pub folder_of : Option StackStatus → Option Text
folder_of none = none
folder_of (some status) = status.info.path

-- `status.container_for_service(…) if status else None`
unfoldable pub known_container : Option StackStatus → Text → Option ContainerInfo
known_container none service_name = none
known_container (some status) service_name = container_for_service status service_name

-- `LogFetchResult` of coordinator.py
pub record LogFetchResult : Type 0 where
  pub fetched_at : Text
  pub log_text : Text

abbrev pub Logs : Type 0
Logs = Dict Key LogFetchResult

-- `line.rstrip("\n")`
unfoldable pub without_newlines : Text → Text
without_newlines [] = []
without_newlines (c ∷ s) = elim (without_newlines s) [
  | [] ↦ if c == 10 then [] else c ∷ []
  | d ∷ rest ↦ c ∷ d ∷ rest
]

-- `"\n".join(…)`
unfoldable pub join_lines : List Text → Text
unfolding without_newlines
join_lines [] = []
join_lines (line ∷ []) = without_newlines line
join_lines (line ∷ other ∷ lines) = without_newlines line ++ 10 ∷ join_lines (other ∷ lines)

abbrev pub text_of : List Text → Text
text_of [] = codes "(no log output)"
text_of (line ∷ lines) = join_lines (line ∷ lines)

-- `LOG_FETCH_TAIL_LINES`
abbrev pub log_fetch_tail_lines : ℕ
log_fetch_tail_lines = 100

-- What is made of the answer to a request for logs, at the time `now`.
unfoldable pub take_logs : Key → Text → Result (List Text) → Logs → Ended × Logs
unfolding join_lines
take_logs key now (returned lines) logs =
    (completed, insert key (record { fetched_at = now; log_text = text_of lines }) logs)
take_logs key now (raised logs_unavailable) logs = (home_assistant_error, logs)
take_logs key now (raised e) logs = (escaped e, logs)

-- `PullJobRunner.start` with the answer of `start_detached`. Another exception than a
-- ComposeCommandError leaves it with the mark set and the old error dropped.
unfoldable pub press_start : Text → Text → Result Handle → Runner → Ended × Runner × Option Task
press_start stack_name dir (returned handle) r =
    let (r', task) = PullJobs.start stack_name dir (some handle) r in (completed, r', task)
press_start stack_name dir (raised (compose_command args code stderr)) r =
    let (r', task) = PullJobs.start stack_name dir none r in (home_assistant_error, r', task)
press_start stack_name dir (raised e) r =
    let marked : Runner = record r {
      pulling_stacks = add stack_name r.pulling_stacks;
      last_pull_errors = remove stack_name r.last_pull_errors;
    } in
    (escaped e, marked, none)

module _ (safe_load : Text → Yaml) (node : Text → Text → Node) (World : Type 0)
    (docker : Docker World) (decode : Text → Text) (fresh_hex : World → Text × World)
    (sidecar_container : Text) (statuses : Statuses) (stack_name : Text) where
  -- A command in the folder of the stack, if there is one.
  unfoldable pub in_folder : (Text → Action World Text) → World → Ended × World
  unfolding ended folder_of
  in_folder command w = elim (folder_of (lookup stack_name statuses)) [
    | none ↦ (home_assistant_error, w)
    | some dir ↦ let (result, w') = command dir w in (ended result, w')
  ]

  -- `StackRunningSwitch`
  unfoldable pub stack_turn_on : World → Ended × World
  unfolding in_folder
  stack_turn_on = in_folder (up safe_load node World docker true decode fresh_hex sidecar_container)

  unfoldable pub stack_turn_off : World → Ended × World
  unfolding in_folder
  stack_turn_off =
      in_folder (down safe_load node World docker true decode fresh_hex sidecar_container)

  -- `ServiceRunningSwitch` and `ServiceRestartButton`
  module _ (service_name : Text) where
    unfoldable pub service_turn_on : World → Ended × World
    unfolding in_folder
    service_turn_on = in_folder λ dir.
        start safe_load node World docker true decode fresh_hex sidecar_container dir
          (some service_name)

    unfoldable pub service_turn_off : World → Ended × World
    unfolding in_folder
    service_turn_off = in_folder λ dir.
        stop safe_load node World docker true decode fresh_hex sidecar_container dir
          (some service_name)

    unfoldable pub press_restart : World → Ended × World
    unfolding in_folder
    press_restart = in_folder λ dir.
        restart safe_load node World docker true decode fresh_hex sidecar_container dir
          (some service_name)

    -- `ServiceFetchLogsButton`
    unfoldable pub press_fetch_logs : Text → Logs → World → Ended × Logs × World
    unfolding take_logs known_container
    press_fetch_logs now logs w = elim (known_container (lookup stack_name statuses) service_name) [
      | none ↦ (home_assistant_error, logs, w)
      | some container ↦
          let (lines, w') =
            get_container_logs World docker true decode fresh_hex container.name
              log_fetch_tail_lines w in
          let (end, logs') = take_logs (stack_name, service_name) now lines logs in (end, logs', w')
    ]

  -- `StackPullUpdateButton`
  unfoldable pub press_pull : Runner → World → (Ended × Runner × Option Task) × World
  unfolding press_start folder_of
  press_pull r w = elim (folder_of (lookup stack_name statuses)) [
    | none ↦ ((home_assistant_error, r, none), w)
    | some dir ↦
        let (answer, w') =
          start_detached safe_load node World docker true decode fresh_hex sidecar_container dir
            (codes "pull" ∷ []) w in
        (press_start stack_name dir answer r, w')
  ]
