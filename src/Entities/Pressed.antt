-- ===== src/Entities/Pressed.antt =====
-- What the actions of switch.py and button.py leave behind.
use ha_docker_compose.Prelude.{
  List, Option, Text, [], arith, codes, elem, elem-add, eq_refl, lookup, nat_eq, none, pair_eq,
  refl, some, text_eq, true, ◌∷◌, ◌≡◌,
}
use ha_docker_compose.Engine.{Docker, failed, timed_out, uncaught, raised}
use ha_docker_compose.Engine.Exec.{exec_start_detached, detached_failure}
use ha_docker_compose.Compose.{Yaml, Node, detached_result, start_detached}
use ha_docker_compose.Coordinator.{Statuses}
use ha_docker_compose.PullJobs.{Runner, Task}
use ha_docker_compose.Entities.Actions.{
  Ended, home_assistant_error, escaped, folder_of, press_start, in_folder, stack_turn_on,
  stack_turn_off, service_turn_on, service_turn_off, press_restart, press_pull,
}

-- A press that a timeout leaves: the stack is marked as being pulled, this press has started no driver, and
-- there is no record that would be resumed.
abbrev pub IsMarked : Text → Ended × Runner × Option Task → Type 0
IsMarked n (end, r', task) =
    (end ≡ escaped (uncaught timed_out))
    × (elem n r'.pulling_stacks ≡ true)
    × (task ≡ none)
    × (lookup n r'.jobs ≡ none)

press_start-Marked :
    (n dir : Text) (r : Runner)
    → lookup n r.jobs ≡ none
    → IsMarked n (press_start n dir (raised (uncaught timed_out)) r)
unfolding press_start
press_start-Marked n dir r idle =
    (refl, ground (arith, elem-add n n r.pulling_stacks, eq_refl n), refl, idle)

module _ (safe_load : Text → Yaml) (node : Text → Text → Node) (World : Type 0)
    (docker : Docker World) (decode : Text → Text) (fresh_hex : World → Text × World)
    (sidecar_container : Text) (statuses : Statuses) (stack_name : Text) where
  start_detached-timed_out :
      (dir : Text) (args : List Text) (w : World)
      → ((cmd : List Text) (v : World)
          → (docker.create_exec sidecar_container cmd (some dir) v).0 ≡ failed timed_out)
      → (start_detached safe_load node World docker true decode fresh_hex sidecar_container dir args
          w).0
        ≡ raised (uncaught timed_out)
  unfolding start_detached exec_start_detached detached_result detached_failure
  start_detached-timed_out dir args w cut = rw (cut, detached_result)

  -- For a stack that has no folder on disk, known or not, no action runs a command or asks Docker for
  -- anything: each raises a HomeAssistantError, and the runner of the pull jobs stays as it is.
  pub actions-refused :
      (service_name : Text) (r : Runner) (w : World)
      → folder_of (lookup stack_name statuses) ≡ none
      → let refused : Ended × World = (home_assistant_error, w) in
        (stack_turn_on safe_load node World docker decode fresh_hex sidecar_container statuses
            stack_name w
          ≡ refused)
        × (stack_turn_off safe_load node World docker decode fresh_hex sidecar_container statuses
              stack_name w
            ≡ refused)
        × (service_turn_on safe_load node World docker decode fresh_hex sidecar_container statuses
              stack_name service_name w
            ≡ refused)
        × (service_turn_off safe_load node World docker decode fresh_hex sidecar_container statuses
              stack_name service_name w
            ≡ refused)
        × (press_restart safe_load node World docker decode fresh_hex sidecar_container statuses
              stack_name service_name w
            ≡ refused)
        × (press_pull safe_load node World docker decode fresh_hex sidecar_container statuses
              stack_name r w
            ≡ ((home_assistant_error, r, none), w))
  unfolding stack_turn_on stack_turn_off service_turn_on service_turn_off press_restart press_pull
  actions-refused service_name r w h = (
    rw (h, in_folder),
    rw (h, in_folder),
    rw (h, in_folder),
    rw (h, in_folder),
    rw (h, in_folder),
    rw (h, press_pull),
  )

  -- A press for a pull of a stack that no record is kept of, cut off by a timeout while the exec is
  -- created, is left by the exception, and the stack stays marked as being pulled: the press starts no
  -- driver that would take the mark away, and no record is there that would be resumed.
  pub press_pull-Marked :
      (dir : Text) (r : Runner) (w : World)
      → lookup stack_name r.jobs ≡ none
      → folder_of (lookup stack_name statuses) ≡ some dir
      → ((cmd : List Text) (v : World)
          → (docker.create_exec sidecar_container cmd (some dir) v).0 ≡ failed timed_out)
      → IsMarked stack_name
          (press_pull safe_load node World docker decode fresh_hex sidecar_container statuses
            stack_name r w).0
  unfolding press_pull
  press_pull-Marked dir r w idle h cut =
      let refused = start_detached-timed_out dir (codes "pull" ∷ []) w cut in
      rw (press_pull, h, refused) (press_start-Marked stack_name dir r idle)
