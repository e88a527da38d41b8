-- ===== src/Compose/Tests.antt =====
-- Witnesses on compose.py, on the sample Docker of the engine.
use ha_docker_compose.Prelude.{Text, [], arith, codes, false, none, refl, some, true, ℕ, ◌∷◌, ◌≡◌}
use ha_docker_compose.Engine.{Docker, done}
use ha_docker_compose.Engine.Exec.{exec_in_container}
use ha_docker_compose.Engine.Shell.Reading.{shell_tokens, meant}
use ha_docker_compose.Engine.TestDocker.{sample_docker, no_image, hex}
use ha_docker_compose.Compose.{
  Yaml, falsy, malformed, Node, absent, get_compose_config, start_detached,
}
use ha_docker_compose.Compose.Detached.{start_detached-Meant}
use ha_docker_compose.Compose.Config.{HasAnswered, get_compose_config-HasAnswered}

abbrev failing_docker : Docker ℕ
failing_docker = sample_docker no_image (done (false, some 14))

abbrev load : Text → Yaml
load t = falsy

abbrev no_files : Text → Text → Node
no_files dir name = absent

start_detached-Meant_example :
    (line : Text) × (w1 : ℕ) × (failing_docker.create_exec
        (codes "side")
        (codes "sh" ∷ codes "-c" ∷ line ∷ [])
        (some (codes "/srv/it's"))
        1
      ≡ (done (codes "e1"), w1))
    × (failing_docker.start_exec_detached (codes "e1") w1 ≡ (none, 3))
    × (shell_tokens line
        ≡ some (
            meant
              (codes "docker" ∷ codes "compose" ∷ codes "pull" ∷ [])
              (codes "/tmp/ha_docker_compose_exec_0a.log")))
unfolding start_detached
start_detached-Meant_example =
    start_detached-Meant load no_files ℕ failing_docker (λ s. s) hex (codes "side")
      (codes "/srv/it's") (codes "pull" ∷ [])
      (record { exec_id = codes "e1"; log_path = codes "/tmp/ha_docker_compose_exec_0a.log" }) 0 3
      refl

-- Some texts are no YAML.
abbrev strict_load : Text → Yaml
strict_load [] = falsy
strict_load (c ∷ s) = malformed

get_compose_config-HasAnswered_example :
    HasAnswered
      (get_compose_config strict_load no_files ℕ failing_docker true
        (λ s. s)
        hex
        (codes "side")
        (codes "/srv/web")
        0).0
unfolding exec_in_container
get_compose_config-HasAnswered_example =
    get_compose_config-HasAnswered strict_load no_files ℕ failing_docker (λ s. s) hex (codes "side")
      (codes "/srv/web") 0
      (record { create = λ name cmd dir w. tt; start = λ id w. tt; inspect = λ id w. tt })
      (λ name. tt) (λ code bad. absurd (ground (arith, code)))
