-- ===== src/DeviceIds/Tests.antt =====
-- Witnesses on device_ids.py: a stack `a_b`, and a service `b` of a stack `a` that is gone.
use ha_docker_compose.Prelude.{[], any, codes, false, none, refl, some, text_beq, ◌∷◌, ◌≡◌}
use ha_docker_compose.Discovery.{StackInfo}
use ha_docker_compose.DeviceIds.{service_device_identifier, prune_stale_devices}
use ha_docker_compose.DeviceIds.Pruning.{prune_stale_devices-collision}

abbrev joined_stack : StackInfo
joined_stack = record {
  name = codes "a_b";
  path = some (codes "/srv/a_b");
  compose_filename = codes "compose.yaml";
  has_env_file = false;
  compose_config = record { name = none; services = [] };
  raw_compose_text = [];
}

prune_stale_devices-collision_example :
    prune_stale_devices
      (codes "e")
      (joined_stack ∷ [])
      ((service_device_identifier (codes "e") (codes "a") (codes "b") ∷ []) ∷ [])
    ≡ (service_device_identifier (codes "e") (codes "a") (codes "b") ∷ []) ∷ []
unfolding any text_beq
prune_stale_devices-collision_example =
    prune_stale_devices-collision (codes "e") (codes "a") (codes "b") (joined_stack ∷ []) refl
