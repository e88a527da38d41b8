-- ===== src/Coordinator/Tests.antt =====
-- Witnesses on coordinator.py: one discovered stack and one orphaned project.
use ha_docker_compose.Prelude.{
  List, Text, [], all, any, codes, elem, false, insert, keep, lookup, nat_eq, none, pair_eq, refl,
  remove, some, text_beq, text_eq, true, ◌↔◌, ◌∷◌, ◌≡◌,
}
use ha_docker_compose.ComposeFile.{absent}
use ha_docker_compose.Engine.{ContainerInfo}
use ha_docker_compose.Discovery.{StackInfo, service_names, find_stack}
use ha_docker_compose.Coordinator.{
  Statuses, running, stopped, running_text, derive_stack_state, async_update_data,
}
use ha_docker_compose.Coordinator.Polls.{expected_status, async_update_data-expected}
use ha_docker_compose.Coordinator.States.{runs, derive_stack_state-running}

abbrev web_stack : StackInfo
web_stack = record {
  name = codes "web";
  path = some (codes "/srv/web");
  compose_filename = codes "compose.yaml";
  has_env_file = false;
  compose_config = record {
    name = none;
    services = (codes "app", record { image = some (codes "nginx"); labels = absent }) ∷ [];
  };
  raw_compose_text = [];
}

abbrev container : Text → Text → Text → ContainerInfo
container project service state = record {
  id = codes "4f2a";
  name = service;
  project = some project;
  service = some service;
  state = state;
  health = none;
  image = codes "nginx";
  image_id = codes "sha256:1";
  started_at = none;
  cpu_percent = none;
  memory_usage_bytes = none;
  memory_limit_bytes = none;
  labels = [];
  online_cpus = none;
}

abbrev app_container : ContainerInfo
app_container = container (codes "web") (codes "app") running_text

abbrev old_container : ContainerInfo
old_container = container (codes "old") (codes "db") (codes "exited")

abbrev listed : List ContainerInfo
listed = app_container ∷ old_container ∷ []

async_update_data-expected_example :
    (data' : Statuses) × (async_update_data (web_stack ∷ []) (some listed) ≡ some data')
    × ((n : Text) → lookup n data' ≡ expected_status (web_stack ∷ []) listed n)
unfolding find_stack
async_update_data-expected_example = async_update_data-expected (web_stack ∷ []) listed (refl, tt)

derive_stack_state-running_example :
    (derive_stack_state web_stack listed ≡ running)
    ↔ (all (λ service. any (runs service) listed) (service_names web_stack) ≡ true)
derive_stack_state-running_example = derive_stack_state-running web_stack listed (cc)

-- Two folders whose compose files give one name: the second stack overwrites the status of the first, and
-- finds the containers gone.
twins_test :
    async_update_data (web_stack ∷ web_stack ∷ []) (some (app_container ∷ []))
    ≡ some ((codes "web", record { info = web_stack; state = stopped; containers = [] }) ∷ [])
unfolding async_update_data insert remove lookup text_beq derive_stack_state keep all any elem
twins_test = refl
