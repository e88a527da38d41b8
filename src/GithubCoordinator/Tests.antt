-- ===== src/GithubCoordinator/Tests.antt =====
-- Witnesses on github_coordinator.py, on the sample Docker of the engine.
use ha_docker_compose.Prelude.{
  All, List, Option, Text, [], codes, elem, false, insert, keys, lookup, map, nat_eq, none, pair_eq,
  refl, rpartition, some, text_beq, text_eq, true, ℕ, ◌+◌, ◌∷◌, ◌≡◌,
}
use ha_docker_compose.ComposeFile.{absent}
use ha_docker_compose.Labels.{resolve_label}
use ha_docker_compose.VersionDetect.{is_version_tag, normalize_version}
use ha_docker_compose.ImageRef.{tag}
use ha_docker_compose.Engine.{Docker, done}
use ha_docker_compose.Engine.TestDocker.{sample_docker, no_image}
use ha_docker_compose.Coordinator.{stopped, Statuses, first_of}
use ha_docker_compose.GithubRelease.{Response, client_error}
use ha_docker_compose.GithubCoordinator.{Services, async_update_data}
use ha_docker_compose.GithubCoordinator.Cycle.{IsShown, async_update_data-Shown}

abbrev docker : Docker ℕ
docker = sample_docker no_image (done (false, none))

abbrev fetch : Text → ℕ → Response × ℕ
fetch url w = (client_error, w + 1)

abbrev statuses : Statuses
statuses =
    (
      codes "web",
      record {
        info = record {
          name = codes "web";
          path = some (codes "/srv/web");
          compose_filename = codes "compose.yaml";
          has_env_file = false;
          compose_config = record {
            name = none;
            services =
                (codes "app", record { image = some (codes "nginx:1.25.3"); labels = absent }) ∷ [];
          };
          raw_compose_text = [];
        };
        state = stopped;
        containers = [];
      },
    )
    ∷ []

async_update_data-Shown_example :
    All (IsShown (keys statuses)) (async_update_data ℕ docker true fetch [] statuses 0).0
async_update_data-Shown_example = async_update_data-Shown ℕ docker true fetch [] statuses 0

abbrev versions : Text × Services → List (Option Text)
versions p = map (λ q. q.1.detected_version) p.1

cycle_test :
    map versions (async_update_data ℕ docker true fetch [] statuses 0).0
    ≡ (some (codes "1.25.3") ∷ []) ∷ []
unfolding async_update_data resolve_label lookup first_of is_version_tag tag elem rpartition
    text_beq insert normalize_version
cycle_test = refl
