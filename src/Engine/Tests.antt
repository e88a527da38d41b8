-- ===== src/Engine/Tests.antt =====
-- Witnesses on engine.py, on the sample Docker.
use ha_docker_compose.Prelude.{
  [], codes, drop_while, elem, false, map, nat_eq, none, pair_eq, partition, refl, rpartition, some,
  text_eq, true, ℕ, ◌<◌, ◌∷◌, ◌≡◌,
}
use ha_docker_compose.ImageRef.{split_tag}
use ha_docker_compose.Engine.{
  present, Docker, CpuReading, CpuStats, done, returned, calculate_cpu_percent, list_containers,
  get_host_cpu_count,
}
use ha_docker_compose.Engine.Exec.{exec_in_container, read_exec_log}
use ha_docker_compose.Engine.Usage.{Counters, calculate_cpu_percent-Bounds}
use ha_docker_compose.Engine.Images.{Image, get_image_repo_digest}
use ha_docker_compose.Engine.Images.Digests.{get_image_repo_digest-pinned}
use ha_docker_compose.Engine.TestDocker.{stats, sample_docker, hex}

abbrev reading : CpuReading
reading = record { cpu_delta = 200; system_delta = 1000; online_cpus = 4 }

calculate_cpu_percent-Bounds_example :
    (cpu : CpuStats) × (precpu : CpuStats) × (stats.cpu_stats ≡ present cpu)
    × (stats.precpu_stats ≡ some precpu)
    × Counters cpu precpu reading
    × (0 < reading.online_cpus)
    × (some 4 ≡ some reading.online_cpus)
unfolding calculate_cpu_percent
calculate_cpu_percent-Bounds_example = calculate_cpu_percent-Bounds stats reading (some 4) refl

abbrev nginx : Image
nginx = (some (codes "nginx@sha256:1" ∷ []), none)

abbrev nginx_docker : Docker ℕ
nginx_docker = sample_docker nginx (done (false, some 0))

get_image_repo_digest-pinned_example :
    get_image_repo_digest ℕ nginx_docker true (codes "nginx:1.25@sha256:1") 0 ≡ (returned none, 1)
unfolding elem split_tag rpartition partition
get_image_repo_digest-pinned_example =
    get_image_repo_digest-pinned ℕ nginx_docker (codes "nginx") (codes "1.25") (codes "sha256:1") 0
      1 nginx refl refl refl refl (refl, tt) refl

exec_test :
    (exec_in_container ℕ nginx_docker true (λ s. s) hex (codes "side") [] none 0).0
    ≡ returned (record { exit_code = some 0; stdout = codes "out"; stderr = codes "err" })
unfolding exec_in_container
exec_test = refl

log_test : read_exec_log ℕ nginx_docker true (λ s. s) hex (codes "side") [] 0 ≡ (codes "out", 6)
unfolding read_exec_log
log_test = refl

list_test :
    map
      (λ c. c.name)
      (elim (list_containers ℕ nginx_docker (λ s. none) true 0).0 [ returned cs ↦ cs | _ ↦ [] ])
    ≡ codes "a" ∷ codes "b" ∷ []
unfolding list_containers drop_while
list_test = refl

count_test : get_host_cpu_count ℕ nginx_docker (λ s. none) true 0 ≡ (returned (some 4), 1)
unfolding get_host_cpu_count
count_test = refl
