-- ===== src/ContainerTotals.antt =====
-- custom_components/ha_docker_compose/container_totals.py: the sums over the containers of an entry. The
-- floats of the percentages are a parameter. A number of gigabytes is its number of hundredths: bytes over
-- a power of two are exact as a float below 2 ** 53, and `round` takes the nearest, an even one of two.
mod Tests
pub mod Cores
pub mod Memory
use ha_docker_compose.Prelude.{
  Bool, List, Option, [], if◌then◌else◌, ltb, none, some, suc, zero, ℕ, ◌%◌, ◌*◌, ◌+◌, ◌/◌, ◌∷◌,
}
use ha_docker_compose.Engine.{ContainerInfo, CpuReading, truthy_number}
use ha_docker_compose.Coordinator.{is_running}

-- What is done with Python's floats: `==` with 0, `sum` and `round` are Python's own.
pub record Floats (F : Type 0) : Type 0 where
  pub of_nat : ℕ → F
  pub divide : F → F → F
  pub times : F → F → F
  pub sum : List F → F
  pub is_zero : F → Bool
  pub round_to : ℕ → F → F

abbrev pub bytes_per_gb : ℕ
bytes_per_gb = 1073741824

-- `round(a / b)`, the nearest, an even one of two
unfoldable pub round_div : ℕ → ℕ → ℕ
round_div a zero = 0
round_div a (suc b) =
    let q = a / suc b in
    let twice = 2 * (a % suc b) in
    if ltb twice (suc b) then q else if ltb (suc b) twice then q + 1 else q + q % 2

-- The memory of the running containers that tell it, in bytes.
unfoldable pub running_memory : List ContainerInfo → ℕ
running_memory [] = 0
running_memory (c ∷ containers) =
    let rest = running_memory containers in
    if is_running c
    then (elim c.memory_usage_bytes [ none ↦ rest | some usage ↦ usage + rest ])
    else rest

-- `total_running_memory_gb`, in hundredths
unfoldable pub total_running_memory_gb : List ContainerInfo → ℕ
unfolding round_div running_memory
total_running_memory_gb containers = round_div (100 * running_memory containers) bytes_per_gb

-- The first `online_cpus` that is not nought.
unfoldable pub first_online : List ContainerInfo → Option ℕ
first_online [] = none
first_online (c ∷ containers) =
    let rest = first_online containers in
    elim (truthy_number c.online_cpus) [ some n ↦ some n | none ↦ rest ]

unfoldable pub resolve_host_cpu_cores : List ContainerInfo → Option ℕ → Option ℕ
unfolding first_online
resolve_host_cpu_cores containers configured_cores = elim (truthy_number configured_cores) [
  | some cores ↦ some cores
  | none ↦ first_online containers
]

module _ (F : Type 0) (floats : Floats F) where
  -- `(cpu_delta / system_delta) * online_cpus * 100.0`
  unfoldable pub percent_of : CpuReading → F
  percent_of p =
      floats.times
        (floats.times (floats.divide (floats.of_nat p.cpu_delta) (floats.of_nat p.system_delta))
          (floats.of_nat p.online_cpus))
        (floats.of_nat 100)

  unfoldable pub running_percents : List ContainerInfo → List F
  unfolding percent_of
  running_percents [] = []
  running_percents (c ∷ containers) =
      let rest = running_percents containers in
      if is_running c
      then (elim c.cpu_percent [ none ↦ rest | some p ↦ percent_of p ∷ rest ])
      else rest

  unfoldable pub sum_running_cpu_percent : List ContainerInfo → F
  unfolding running_percents
  sum_running_cpu_percent containers = floats.sum (running_percents containers)

  unfoldable pub total_cpu_percent_of_host : List ContainerInfo → Option ℕ → Option F
  unfolding sum_running_cpu_percent
  total_cpu_percent_of_host containers host_cpu_cores =
      let raw_sum = sum_running_cpu_percent containers in
      elim (truthy_number host_cpu_cores) [
        | none ↦ if floats.is_zero raw_sum then some (floats.of_nat 0) else none
        | some cores ↦ some (floats.round_to 1 (floats.divide raw_sum (floats.of_nat cores)))
      ]

  unfoldable pub total_cores_used : List ContainerInfo → F
  unfolding sum_running_cpu_percent
  total_cores_used containers =
      floats.round_to 2 (floats.divide (sum_running_cpu_percent containers) (floats.of_nat 100))
