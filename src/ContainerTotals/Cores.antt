-- ===== src/ContainerTotals/Cores.antt =====
-- The CPU total of container_totals.py on the containers that engine.py lists, with the fallback for the
-- number of cores.
use ha_docker_compose.Prelude.{List, Option, Text, none, some, suc, ℕ, ◌≡◌}
use ha_docker_compose.Engine.{Docker, ContainerInfo, CpuReading}
use ha_docker_compose.ContainerTotals.{Floats, total_cpu_percent_of_host}

-- What has a percentage has a positive number of cores as well.
abbrev pub HasCores : Option CpuReading → Option ℕ → Type 0
HasCores percent online = (p : CpuReading) → percent ≡ some p → (n : ℕ) × (online ≡ some (suc n))

abbrev pub TellsCores : ContainerInfo → Type 0
TellsCores c = HasCores c.cpu_percent c.online_cpus

module _ (World : Type 0) (docker : Docker World) (fromisoformat : Text → Option Text) where
  abbrev AllTell : Option ContainerInfo → Type 0
  AllTell none = Unit
  AllTell (some c) = TellsCores c

module _ (F : Type 0) (floats : Floats F) where
  abbrev IsKnown : List ContainerInfo → Option ℕ → Type 0
  IsKnown cs cores = (x : F) × (total_cpu_percent_of_host F floats cs cores ≡ some x)
