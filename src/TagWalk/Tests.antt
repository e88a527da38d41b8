-- ===== src/TagWalk/Tests.antt =====
-- Witnesses on tag_walk_coordinator.py.
use ha_docker_compose.Prelude.{
  List, Text, [], codes, elem, false, if◌then◌else◌, insert, keep, leb, length, lookup, nat_eq,
  none, pair_eq, refl, some, take, text_beq, text_eq, ℕ, ◌==◌, ◌∷◌, ◌≡◌, ◌≤◌,
}
use ha_docker_compose.ImageRef.{repo_name}
use ha_docker_compose.ComposeFile.{absent}
use ha_docker_compose.RegistryClient.{Result, ok, err, transient}
use ha_docker_compose.TagFilter.{Compiler, Versions, rank_final_versions}
use ha_docker_compose.Coordinator.{StackStatus, running}
use ha_docker_compose.PullJobs.{TagWalkStatus}
use ha_docker_compose.UpdateCoordinator.{Key}
use ha_docker_compose.TagWalk.{
  Walked, Warned, no_status, pull_target_max_digest_lookups, find_pull_target_version, check_one,
  merge_walked, targets_of, walk_services, walk_stack, walk_stacks, async_refresh_stacks,
  async_update_data, running_stacks, collect_walked,
}
use ha_docker_compose.TagWalk.Search.{Outcome, find_pull_target_version-Outcome}
use ha_docker_compose.TagWalk.Sweep.{async_update_data-async_refresh_stacks}
use ha_docker_compose.TagWalk.Merge.{async_refresh_stacks-others}

-- The length of a tag as its version.
abbrev length_versions : Versions
length_versions = record {
  Version = ℕ;
  version = λ t. some (length t);
  is_devrelease = λ n. false;
  is_prerelease = λ n. false;
  le = leb;
}

abbrev only_two : Text → Result Text
only_two ref = if ref == codes "app:22" then ok (codes "sha256:02") else err transient

abbrev walked_tags : List Text
walked_tags = codes "1" ∷ codes "22" ∷ codes "333" ∷ []

find_pull_target_version-Outcome_example :
    (ranked : List Text) × (ranked
      ≡ take pull_target_max_digest_lookups (rank_final_versions length_versions walked_tags))
    × (length ranked ≤ 15)
    × Outcome only_two (repo_name (codes "app:latest")) (codes "sha256:02") ranked (
        find_pull_target_version only_two length_versions
          (codes "app:latest")
          walked_tags
          (codes "sha256:02"))
find_pull_target_version-Outcome_example =
    find_pull_target_version-Outcome only_two length_versions (codes "app:latest") walked_tags
      (codes "sha256:02")

abbrev db_status : TagWalkStatus
db_status = record { latest_registry_tag = some (codes "16.1"); pull_target_version = none }

abbrev old_data : Walked
old_data = (codes "db", (codes "main", db_status) ∷ []) ∷ []

abbrev new_data : Walked
new_data =
    (codes "db", (codes "main", db_status) ∷ []) ∷ (codes "web", (codes "app", no_status) ∷ []) ∷ []

abbrev web_status : StackStatus
web_status = record {
  info = record {
    name = codes "web";
    path = none;
    compose_filename = [];
    has_env_file = false;
    compose_config = record {
      name = none;
      services = (codes "app", record { image = some (codes "app:latest"); labels = absent }) ∷ [];
    };
    raw_compose_text = [];
  };
  state = running;
  containers = [];
}

abbrev no_patterns : Compiler
no_patterns pattern = none

abbrev no_listing : Key → Result (List Text)
no_listing key = err transient

abbrev none_warned : Warned
none_warned = record { unsupported_keys = []; denied_keys = [] }

async_refresh_stacks-others_example : lookup (codes "db") new_data ≡ lookup (codes "db") old_data
unfolding async_refresh_stacks walk_stacks walk_stack walk_services check_one targets_of keep elem
    text_beq lookup insert merge_walked
async_refresh_stacks-others_example =
    async_refresh_stacks-others only_two length_versions no_patterns no_listing old_data []
      (codes "web" ∷ []) ((codes "web", web_status) ∷ []) none_warned new_data (codes "db")
      (refl, tt) refl refl

abbrev swept : Walked
swept = (codes "web", (codes "app", no_status) ∷ []) ∷ []

async_update_data-async_refresh_stacks_example :
    lookup (codes "web") new_data ≡ lookup (codes "web") swept
unfolding async_refresh_stacks async_update_data walk_stacks walk_stack walk_services check_one
    targets_of running_stacks collect_walked keep elem text_beq lookup insert merge_walked
async_update_data-async_refresh_stacks_example =
    async_update_data-async_refresh_stacks only_two length_versions no_patterns no_listing old_data
      [] (codes "web" ∷ []) ((codes "web", web_status) ∷ []) none_warned none_warned swept new_data
      (codes "web") web_status (refl, tt) refl refl refl refl
