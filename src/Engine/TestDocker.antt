-- ===== src/Engine/TestDocker.antt =====
-- A Docker for the tests: its world counts the calls. The image that it has is given, and what an
-- inspected exec tells.
use ha_docker_compose.Prelude.{Bool, Option, Text, [], codes, none, some, true, ℕ, ◌+◌, ◌∷◌}
use ha_docker_compose.Engine.{Docker, Outcome, done, Details, missing, present, Stats}
use ha_docker_compose.Engine.Images.{Image}

abbrev pub details : Text → Details
details id = record {
  id = some id;
  name = some (b'/' ∷ id);
  config = missing;
  image = none;
  state = some (record {
    running = true;
    status = some (codes "running");
    health = none;
    started_at = none;
  });
}

abbrev pub stats : Stats
stats = record {
  cpu_stats = present (record {
    cpu_usage = present (record { total_usage = some 300; percpu_usage = none });
    system_cpu_usage = some 2000;
    online_cpus = some 4;
  });
  precpu_stats = some (record {
    cpu_usage = present (record { total_usage = some 100; percpu_usage = none });
    system_cpu_usage = some 1000;
    online_cpus = some 4;
  });
  memory_stats = none;
}

abbrev pub sample_docker : Image → Outcome (Bool × Option ℕ) → Docker ℕ
sample_docker image inspected = record {
  info = λ w. (done (some 4), w + 1);
  list = λ w. (done (codes "a" ∷ codes "b" ∷ []), w + 1);
  show = λ id w. (done (details id), w + 1);
  stats = λ id w. (done stats, w + 1);
  log = λ id tail w. (done [], w + 1);
  inspect_image = λ ref w. (done image, w + 1);
  create_exec = λ name cmd dir w. (done (codes "e1"), w + 1);
  start_exec = λ id w. (done ((1, codes "out") ∷ (2, codes "err") ∷ []), w + 1);
  start_exec_detached = λ id w. (none, w + 1);
  inspect_exec = λ id w. (inspected, w + 1);
}

abbrev pub no_image : Image
no_image = (none, none)

abbrev pub hex : ℕ → Text × ℕ
hex w = (codes "0a", w + 1)
