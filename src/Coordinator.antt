-- ===== src/Coordinator.antt =====
-- custom_components/ha_docker_compose/coordinator.py: the state of each stack, from the containers that
-- Docker lists. The live fields of the coordinator are those of a runner in PullJobs.
mod Tests
pub mod States
pub mod Polls
use ha_docker_compose.Prelude.{
  Bool, Dict, List, Option, Text, [], add, all, codes, elem, false, if◌then◌else◌, insert, keep,
  lookup, nat_eq, none, not, pair_eq, remove, some, text_eq, true, ◌&&◌, ◌++◌, ◌==◌, ◌∷◌,
}
use ha_docker_compose.ComposeFile.{truthy}
use ha_docker_compose.Engine.{ContainerInfo}
use ha_docker_compose.Discovery.{StackInfo, service_names}

pub data StackState : Type 0 where
  running partial stopped orphaned : StackState

pub record StackStatus : Type 0 where
  pub info : StackInfo
  pub state : StackState
  pub containers : List ContainerInfo

-- `StackStatus.container_for_service`
unfoldable pub first_of : Text → List ContainerInfo → Option ContainerInfo
first_of service [] = none
first_of service (c ∷ containers) =
    let rest = first_of service containers in
    elim c.service [ none ↦ rest | some s ↦ if s == service then some c else rest ]

abbrev pub container_for_service : StackStatus → Text → Option ContainerInfo
container_for_service status service = first_of service status.containers

abbrev pub running_text : Text
running_text = codes "running"

-- `{c.service for c in containers if c.service}`
unfoldable pub services_of : List ContainerInfo → List Text
services_of [] = []
services_of (c ∷ containers) =
    let rest = services_of containers in
    elim (truthy c.service) [ none ↦ rest | some service ↦ add service rest ]

abbrev pub is_running : ContainerInfo → Bool
is_running c = c.state == running_text

-- `set(stack.service_names) or {…}`
abbrev pub expected_services : StackInfo → List ContainerInfo → List Text
expected_services stack containers = elim (service_names stack) [
  | [] ↦ services_of containers
  | name ∷ names ↦ name ∷ names
]

abbrev pub is_empty {ℓ} : {A : Type ℓ} → List A → Bool
is_empty [] = true
is_empty (x ∷ xs) = false

unfoldable pub derive_stack_state : StackInfo → List ContainerInfo → StackState
derive_stack_state stack [] = stopped
derive_stack_state stack (c ∷ cs) =
    let containers = c ∷ cs in
    let expected = expected_services stack containers in
    let running_services = services_of (keep is_running containers) in
    if not (is_empty expected) && all (λ service. elem service running_services) expected
    then running
    else if not (is_empty running_services)
    then partial
    else stopped

abbrev pub or_none : Option (List ContainerInfo) → List ContainerInfo
or_none none = []
or_none (some containers) = containers

abbrev pub Projects : Type 0
Projects = Dict Text (List ContainerInfo)

-- one round of the loop that fills `by_project`
unfoldable pub add_container : ContainerInfo → Projects → Projects
add_container c by_project = elim (truthy c.project) [
  | none ↦ by_project
  | some project ↦ insert project (or_none (lookup project by_project) ++ c ∷ []) by_project
]

unfoldable pub group_containers : List ContainerInfo → Projects → Projects
unfolding add_container
group_containers [] by_project = by_project
group_containers (c ∷ cs) by_project = group_containers cs (add_container c by_project)

abbrev pub Statuses : Type 0
Statuses = Dict Text StackStatus

abbrev pub status_of : StackInfo → List ContainerInfo → StackStatus
unfolding derive_stack_state
status_of stack containers = record {
  info = stack;
  state = derive_stack_state stack containers;
  containers = containers;
}

-- the loop over the discovered stacks: the projects that are left, and the result
unfoldable pub place_stacks : List StackInfo → Projects → Statuses → Projects × Statuses
place_stacks [] by_project result = (by_project, result)
place_stacks (stack ∷ stacks) by_project result =
    place_stacks stacks (remove stack.name by_project)
      (insert stack.name (status_of stack (or_none (lookup stack.name by_project))) result)

abbrev pub orphan : Text → List ContainerInfo → StackStatus
orphan project containers = record {
  info = record {
    name = project;
    path = none;
    compose_filename = [];
    has_env_file = false;
    compose_config = record { name = none; services = [] };
    raw_compose_text = [];
  };
  state = orphaned;
  containers = containers;
}

unfoldable pub place_orphans : Projects → Statuses → Statuses
place_orphans [] result = result
place_orphans ((project, containers) ∷ by_project) result =
    place_orphans by_project (insert project (orphan project containers) result)

-- `_async_update_data`; the containers are `none` where the engine raises, and so is the data where
-- UpdateFailed is raised.
unfoldable pub async_update_data : List StackInfo → Option (List ContainerInfo) → Option Statuses
unfolding group_containers place_stacks place_orphans
async_update_data stacks none = none
async_update_data stacks (some containers) =
    let (orphans, result) = place_stacks stacks (group_containers containers []) [] in
    some (place_orphans orphans result)
