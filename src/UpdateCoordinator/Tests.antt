-- ===== src/UpdateCoordinator/Tests.antt =====
-- Witnesses on update_coordinator.py: a service whose image is behind the registry's.
use ha_docker_compose.Prelude.{
  All, Option, Text, [], any, codes, false, none, refl, some, text_beq, true, ◌↔◌, ◌∷◌, ◌≡◌, ◌≢◌,
}
use ha_docker_compose.ComposeFile.{ServiceDef, absent}
use ha_docker_compose.RegistryClient.{Result, ok}
use ha_docker_compose.UpdateCoordinator.{
  ServiceUpdateStatus, update_available, Services, aggregate_update_available, Key, Checker, Pass,
  check_service,
}
use ha_docker_compose.UpdateCoordinator.Summary.{is_on, aggregate_update_available_iff}
use ha_docker_compose.UpdateCoordinator.Checks.{IsNoted, check_service-IsNoted}

abbrev behind : ServiceUpdateStatus
behind = record {
  image = codes "nginx";
  local_digest = some (codes "sha256:01");
  remote_digest = some (codes "sha256:02");
  registry_supported = true;
  denied = false;
  tag = none;
  last_pulled = none;
  previous_digest = none;
}

abbrev checked_services : Services
checked_services = (codes "app", behind) ∷ []

behind_test : aggregate_update_available checked_services ≡ some true
unfolding aggregate_update_available update_available any text_beq
behind_test = refl

aggregate_update_available_iff_example :
    ((aggregate_update_available checked_services ≡ some true)
      ↔ (any is_on checked_services ≡ true))
    × ((aggregate_update_available checked_services ≡ some false)
        ↔ ((checked_services ≢ []) × All (λ s. update_available s.1 ≡ some false) checked_services))
aggregate_update_available_iff_example = aggregate_update_available_iff checked_services

abbrev fresh_checker : Checker
fresh_checker = record { warned_unsupported = []; warned_auth_denied = []; known_on_services = [] }

abbrev app_key : Key
app_key = (codes "web", codes "app")

abbrev app_def : ServiceDef
app_def = record { image = some (codes "nginx"); labels = absent }

abbrev first_pass : Pass
first_pass = record { services = []; checker = fresh_checker; transitioned_stacks = [] }

abbrev local_answer : Key → Option Text
local_answer key = some (codes "sha256:01")

abbrev remote_answer : Key → Result Text
remote_answer key = ok (codes "sha256:02")

check_service-IsNoted_example :
    IsNoted
      (codes "web", codes "app")
      []
      []
      (check_service [] local_answer remote_answer
        (codes "web")
        none
        (codes "app")
        app_def
        first_pass)
check_service-IsNoted_example =
    check_service-IsNoted [] local_answer remote_answer (codes "web") none (codes "app") app_def
      (codes "nginx") first_pass refl
