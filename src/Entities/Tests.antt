-- ===== src/Entities/Tests.antt =====
-- Witnesses on the entities, on the stack and the runner of the pull jobs' witnesses.
use ha_docker_compose.Prelude.{
  All, Option, Text, [], codes, elem, false, insert, lookup, nat_eq, none, pair_eq, refl, some,
  text_beq, text_eq, true, ℕ, ◌++◌, ◌+◌, ◌↔◌, ◌∷◌, ◌≡◌,
}
use ha_docker_compose.ComposeFile.{absent}
use ha_docker_compose.Engine.{Result, returned, Docker, ContainerInfo, failed, timed_out, done}
use ha_docker_compose.Engine.TestDocker.{sample_docker, no_image, hex}
use ha_docker_compose.Compose.{Yaml, falsy, Node}
use ha_docker_compose.Compose
use ha_docker_compose.Discovery.{StackInfo}
use ha_docker_compose.Coordinator.{first_of, Statuses, running}
use ha_docker_compose.PullJobs.{Runner}
use ha_docker_compose.PullJobs.Drive.{is_some}
use ha_docker_compose.PullJobs.Tracking.{System, here, IsTracked}
use ha_docker_compose.Entities.{
  entities, unique_id, stack_state, service_state, stack_switch, service_running_switch,
  stack_update_available, service_update_available,
}
use ha_docker_compose.Entities.Actions.{folder_of, press_pull, press_fetch_logs, known_container}
use ha_docker_compose.Entities.Values.{container_of, updating_text, stack_state_value}
use ha_docker_compose.Entities.Attributes.{Held, extra_state_attributes}
use ha_docker_compose.Entities.Contract.{AgreeOn, extra_state_attributes_inj}
use ha_docker_compose.Entities.Protection.{IsOpen, entities-Open}
use ha_docker_compose.Entities.Identity.{of_names, unique_id-collision}
use ha_docker_compose.Entities.Shown.{Reach-updating}
use ha_docker_compose.Entities.Fetched.{
  ended, line, HasSnapshot, concat, press_fetch_logs-HasSnapshot,
}
use ha_docker_compose.Entities.Pressed.{IsMarked, press_pull-Marked}

abbrev web_stack : StackInfo
web_stack = record {
  name = codes "web";
  path = some (codes "/srv/web");
  compose_filename = codes "compose.yaml";
  has_env_file = false;
  compose_config = record {
    name = none;
    services = (codes "app", record { image = none; labels = absent }) ∷ [];
  };
  raw_compose_text = [];
}

abbrev app : ContainerInfo
app = record {
  id = codes "1";
  name = codes "web-app-1";
  project = some (codes "web");
  service = some (codes "app");
  state = codes "running";
  health = none;
  image = codes "nginx";
  image_id = [];
  started_at = none;
  cpu_percent = none;
  memory_usage_bytes = none;
  memory_limit_bytes = none;
  labels = [];
  online_cpus = none;
}

abbrev statuses : Statuses
statuses = (codes "web", record { info = web_stack; state = running; containers = app ∷ [] }) ∷ []

entities-Open_example : All (IsOpen (web_stack ∷ [])) (entities (web_stack ∷ []))
entities-Open_example = entities-Open (web_stack ∷ [])

unique_id-collision_example :
    (unique_id (codes "1") (of_names stack_state (codes "a" ++ b'_' ∷ codes "b") none)
      ≡ unique_id (codes "1") (of_names service_state (codes "a") (some (codes "b"))))
    × (unique_id (codes "1") (of_names stack_switch (codes "a" ++ b'_' ∷ codes "b") none)
        ≡ unique_id (codes "1") (of_names service_running_switch (codes "a") (some (codes "b"))))
    × (unique_id (codes "1") (of_names stack_update_available (codes "a" ++ b'_' ∷ codes "b") none)
        ≡ unique_id (codes "1") (of_names service_update_available (codes "a") (some (codes "b"))))
unique_id-collision_example = unique_id-collision (codes "1") (codes "a") (codes "b")

abbrev idle : Runner
idle = record {
  jobs = [];
  history = [];
  stacks = web_stack ∷ [];
  tag_walk = [];
  pulling_stacks = [];
  last_pull_errors = [];
  refreshes = 0;
}

abbrev idle_system : System
idle_system = record { runner = idle; tasks = [] }

idle-IsTracked : IsTracked idle_system
unfolding lookup elem
idle-IsTracked = record { persisted = λ n. refl; shown = λ n. refl; keyed = tt }

abbrev no_digest : Text → Result (Option Text)
no_digest image_ref = returned none

Reach-updating_example :
    (stack_state_value idle.pulling_stacks statuses (codes "web") ≡ some updating_text)
    ↔ (is_some (lookup (codes "web") idle_system.tasks) ≡ true)
Reach-updating_example =
    Reach-updating no_digest (codes "now") statuses (codes "web") idle-IsTracked here

abbrev load : Text → Yaml
load t = falsy

abbrev no_files : Text → Text → Node
no_files dir name = Compose.absent

abbrev docker : Docker ℕ
docker = sample_docker no_image (done (false, some 0))

abbrev slow_docker : Docker ℕ
slow_docker = record docker { create_exec = λ name cmd dir w. (failed timed_out, w) }

press_pull-Marked_example :
    IsMarked
      (codes "web")
      (press_pull load no_files ℕ slow_docker
        (λ s. s)
        hex
        (codes "side")
        statuses
        (codes "web")
        idle
        0).0
unfolding folder_of lookup text_beq
press_pull-Marked_example =
    press_pull-Marked load no_files ℕ slow_docker (λ s. s) hex (codes "side") statuses (codes "web")
      (codes "/srv/web") idle 0 refl refl (λ cmd v. refl)

abbrev talking_docker : Docker ℕ
talking_docker = record docker {
  log = λ name tail w. (done (line (codes "up") ∷ line (codes "ready") ∷ []), w + 1);
}

press_fetch_logs-HasSnapshot_example :
    HasSnapshot
      (codes "web", codes "app")
      (codes "now")
      (concat (line (codes "up") ∷ line (codes "ready") ∷ []))
      []
      (ended (
        press_fetch_logs load no_files ℕ talking_docker
          (λ s. s)
          hex
          (codes "side")
          statuses
          (codes "web")
          (codes "app")
          (codes "now")
          []
          0))
unfolding known_container first_of container_of lookup text_beq elem
press_fetch_logs-HasSnapshot_example =
    press_fetch_logs-HasSnapshot load no_files ℕ talking_docker (λ s. s) hex (codes "side") statuses
      (codes "web") (codes "app") (codes "now") [] 0 1 app (codes "up") (codes "ready" ∷ []) refl
      (refl, (refl, tt)) refl

-- What the coordinators hold at first, and once the stack is known.
abbrev held_first : Held
held_first = record {
  site = codes "nas";
  cpu_cores = none;
  statuses = [];
  last_pull_errors = [];
  last_fetched_logs = [];
  updates = [];
  metadata = [];
}

abbrev held_later : Held
held_later = record held_first { statuses = statuses }

-- The attributes of a service's state at first, and later with its health.
state_AgreeOn :
    AgreeOn ℕ
      (extra_state_attributes ℕ held_first service_state (codes "web") (some (codes "app")))
      (extra_state_attributes ℕ held_later service_state (codes "web") (some (codes "app")))
unfolding extra_state_attributes lookup insert text_beq container_of first_of
state_AgreeOn = (refl, refl, refl)

extra_state_attributes_inj_example :
    (service_state ≡ service_state)
    × (codes "web" ≡ codes "web")
    × (some (codes "app") ≡ some (codes "app"))
extra_state_attributes_inj_example =
    extra_state_attributes_inj ℕ held_first held_later service_state service_state (codes "web")
      (codes "web") (some (codes "app")) (some (codes "app")) state_AgreeOn
