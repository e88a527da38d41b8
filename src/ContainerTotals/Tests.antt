-- ===== src/ContainerTotals/Tests.antt =====
-- Witnesses on container_totals.py, on the sample Docker of the engine; floats are natural numbers here.
use ha_docker_compose.Prelude.{
  List, [], codes, false, map, nat_eq, none, pair_eq, refl, some, text_beq, text_eq, true, ℕ, ◌*◌,
  ◌+◌, ◌==◌, ◌∷◌, ◌≡◌, ◌≤◌,
}
use ha_docker_compose.Engine.{
  Docker, ContainerInfo, done, list_containers, Result, returned, raised,
}
use ha_docker_compose.Engine.TestDocker.{sample_docker, no_image}
use ha_docker_compose.ContainerTotals.{Floats, total_running_memory_gb}
use ha_docker_compose.ContainerTotals.Memory.{sum, bytes_of, total_running_memory_gb-Bounds}

abbrev total : List ℕ → ℕ
total [] = 0
total (x ∷ xs) = x + total xs

abbrev naturals : Floats ℕ
naturals = record {
  of_nat = λ n. n;
  divide = λ a b. a;
  times = λ a b. a * b;
  sum = total;
  is_zero = λ x. x == 0;
  round_to = λ n x. x;
}

abbrev docker : Docker ℕ
docker = sample_docker no_image (done (false, none))

abbrev containers_of : Result (List ContainerInfo) → List ContainerInfo
containers_of (returned cs) = cs
containers_of (raised e) = []

abbrev listed : List ContainerInfo
unfolding list_containers
listed = containers_of (list_containers ℕ docker (λ s. none) true 0).0

abbrev running_container : ContainerInfo
running_container = record {
  id = codes "4f2a";
  name = codes "app";
  project = none;
  service = none;
  state = codes "running";
  health = none;
  image = [];
  image_id = [];
  started_at = none;
  cpu_percent = none;
  memory_usage_bytes = some 1610612736;
  memory_limit_bytes = none;
  labels = [];
  online_cpus = none;
}

total_running_memory_gb-Bounds_example :
    let total = total_running_memory_gb (running_container ∷ []) in
    let exact = 100 * sum (map bytes_of (running_container ∷ [])) in
    (2 * (total * 1073741824) ≤ 2 * exact + 1073741824)
    × (2 * exact ≤ 2 * (total * 1073741824) + 1073741824)
    × (total ≤ total_running_memory_gb (running_container ∷ running_container ∷ []))
total_running_memory_gb-Bounds_example =
    total_running_memory_gb-Bounds (running_container ∷ []) running_container

-- One and a half gigabytes.
memory_test : total_running_memory_gb (running_container ∷ []) ≡ 150
unfolding total_running_memory_gb text_beq
memory_test = refl
