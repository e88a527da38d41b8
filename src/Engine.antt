-- ===== src/Engine.antt =====
-- custom_components/ha_docker_compose/engine.py: the client of the Docker Engine. What aiodocker answers
-- is a parameter, as a record of actions on a world; the parts of its JSON that are read are records.
-- A field that is missing and one that is null are both `none`, but where the source tells them apart.
mod Tests
pub mod Shell
pub mod Exec
pub mod Images
pub mod Usage
pub mod TestDocker
use ha_docker_compose.Prelude.{
  Bool, Dict, List, Option, Text, [], codes, drop_while, false, if◌then◌else◌, inl, inr, leb,
  length, lookup, ltb, nat_eq, none, pair_eq, refl, some, starts_with, suc, text_eq, true, ℕ, ◌&&◌,
  ◌-◌, ◌==◌, ◌∷◌, ◌≡◌, ◌⊎◌,
}
use ha_docker_compose.ComposeFile.{truthy}

-- How a call of aiodocker fails: a `DockerError` with its status, an `asyncio.TimeoutError`, or any other
-- exception.
pub data Failure : Type 0 where
  docker_error : ℕ → Failure
  timed_out other_error : Failure

pub data Outcome {ℓ} (A : Type ℓ) : Type ℓ where
  done : A → Outcome A
  failed : Failure → Outcome A

-- What a method raises. `compose_command` is the `ComposeCommandError` of compose.py, with its
-- arguments, its return code (`none` for the -1) and its text; `uncaught` is a failure of aiodocker that
-- no `except` of the method catches.
pub data Raised : Type 0 where
  not_connected sidecar_not_available exec_not_found logs_unavailable : Raised
  compose_command : List Text → Option ℕ → Text → Raised
  uncaught : Failure → Raised

pub data Result {ℓ} (A : Type ℓ) : Type ℓ where
  returned : A → Result A
  raised : Raised → Result A

-- A field of which one that is missing and one that is null are told apart: `x["f"]` is a KeyError for the
-- first, `x["f"].get(…)` an AttributeError for the second, and `x.get("f", {})` is `None` then.
pub data Field (A : Type 0) : Type 0 where
  missing null : Field A
  present : A → Field A

pub record CpuUsage : Type 0 where
  pub total_usage : Option ℕ
  pub percpu_usage : Option (List ℕ)

pub record CpuStats : Type 0 where
  pub cpu_usage : Field CpuUsage
  pub system_cpu_usage : Option ℕ
  pub online_cpus : Option ℕ

pub record MemoryStats : Type 0 where
  pub usage : Option ℕ
  pub limit : Option ℕ

-- One sample of `container.stats(stream=False)`.
pub record Stats : Type 0 where
  pub cpu_stats : Field CpuStats
  pub precpu_stats : Option CpuStats
  pub memory_stats : Option MemoryStats

pub record ContainerConfig : Type 0 where
  pub labels : Option (Dict Text Text)
  pub image : Option Text

pub record ContainerState : Type 0 where
  pub running : Bool
  pub status : Option Text
  pub health : Option Text
  pub started_at : Option Text

-- What `container.show()` gives.
pub record Details : Type 0 where
  pub id : Option Text
  pub name : Option Text
  pub config : Field ContainerConfig
  pub image : Option Text
  pub state : Option ContainerState

-- A percentage, by the operands of its formula `(cpu_delta / system_delta) * online_cpus * 100.0`.
pub record CpuReading : Type 0 where
  pub cpu_delta : ℕ
  pub system_delta : ℕ
  pub online_cpus : ℕ

pub record ContainerInfo : Type 0 where
  pub id : Text
  pub name : Text
  pub project : Option Text
  pub service : Option Text
  pub state : Text
  pub health : Option Text
  pub image : Text
  pub image_id : Text
  pub started_at : Option Text
  pub cpu_percent : Option CpuReading
  pub memory_usage_bytes : Option ℕ
  pub memory_limit_bytes : Option ℕ
  pub labels : Dict Text Text
  pub online_cpus : Option ℕ

-- `COMPOSE_PROJECT_LABEL` and `COMPOSE_SERVICE_LABEL`
abbrev pub compose_project_label : Text
compose_project_label = codes "com.docker.compose.project"

abbrev pub compose_service_label : Text
compose_service_label = codes "com.docker.compose.service"

-- `x or None` on a number: nought counts as missing.
abbrev pub truthy_number : Option ℕ → Option ℕ
truthy_number (some (suc n)) = some (suc n)
truthy_number _ = none

abbrev pub or_text : Option Text → Text → Text
or_text none s = s
or_text (some t) s = t

-- The default `[1]` has one entry.
abbrev pub percpu_count : Option (List ℕ) → ℕ
percpu_count (some (x ∷ xs)) = length (x ∷ xs)
percpu_count _ = 1

-- `cpu.get("online_cpus") or len(cpu["cpu_usage"].get("percpu_usage") or [1])`, where `missing` is the
-- KeyError and `null` the AttributeError
unfoldable pub online_cpus_of : CpuStats → Field ℕ
online_cpus_of cpu = elim (truthy_number cpu.online_cpus) [
  | some n ↦ present n
  | none ↦ elim cpu.cpu_usage [
    | missing ↦ missing
    | null ↦ null
    | present usage ↦ present (percpu_count usage.percpu_usage)
  ]
]

-- Where there is none, it is a KeyError or a TypeError, and caught.
abbrev pub total_usage_of : CpuStats → Option ℕ
total_usage_of cpu = elim cpu.cpu_usage [
  | missing ↦ none
  | null ↦ none
  | present usage ↦ usage.total_usage
]

-- The two differences of the formula, `none` where the percentage is not computed: the second is to
-- be positive, the first not negative.
unfoldable pub reading_of : ℕ → ℕ → ℕ → ℕ → ℕ → Option CpuReading
reading_of online total pre_total system pre_system =
    if ltb pre_system system && leb pre_total total
    then some (record {
      cpu_delta = total - pre_total;
      system_delta = system - pre_system;
      online_cpus = online;
    })
    else none

-- The rest of the formula: a missing number is a KeyError or a TypeError, which is caught.
unfoldable pub cpu_reading : ℕ → CpuStats → CpuStats → Option CpuReading
unfolding reading_of
cpu_reading online cpu precpu = elim (total_usage_of cpu) [
  | none ↦ none
  | some total ↦ elim (total_usage_of precpu) [
    | none ↦ none
    | some pre_total ↦ elim cpu.system_cpu_usage [
      | none ↦ none
      | some system ↦ elim precpu.system_cpu_usage [
        | none ↦ none
        | some pre_system ↦ reading_of online total pre_total system pre_system
      ]
    ]
  ]
]

-- `_calculate_cpu_percent`, where `none` is the AttributeError that it does not catch
unfoldable pub calculate_cpu_percent : Stats → Option (Option CpuReading × Option ℕ)
unfolding online_cpus_of cpu_reading
calculate_cpu_percent stats = elim stats.cpu_stats [
  | missing ↦ some (none, none)
  | null ↦ none
  | present cpu ↦ elim (online_cpus_of cpu) [
    | missing ↦ some (none, none)
    | null ↦ none
    | present online ↦ elim stats.precpu_stats [
      | none ↦ some (none, some online)
      | some precpu ↦ some (cpu_reading online cpu precpu, some online)
    ]
  ]
]

-- What the stats add to a container: nothing if it does not run, or the call raises.
pub record Sample : Type 0 where
  pub cpu_percent : Option CpuReading
  pub online_cpus : Option ℕ
  pub memory_usage : Option ℕ
  pub memory_limit : Option ℕ

abbrev pub no_sample : Sample
no_sample = record {
  cpu_percent = none;
  online_cpus = none;
  memory_usage = none;
  memory_limit = none;
}

unfoldable pub sample_of : Outcome Stats → Sample
unfolding calculate_cpu_percent
sample_of (done stats) = elim (calculate_cpu_percent stats) [
  | none ↦ no_sample
  | some (percent, online) ↦
      let mem : MemoryStats = elim stats.memory_stats [
        | none ↦ record { usage = none; limit = none }
        | some m ↦ m
      ] in
      record {
        cpu_percent = percent;
        online_cpus = online;
        memory_usage = mem.usage;
        memory_limit = mem.limit;
      }
]
sample_of (failed e) = no_sample

abbrev pub labels_of : Field ContainerConfig → Dict Text Text
labels_of (present config) = elim config.labels [ none ↦ [] | some labels ↦ labels ]
labels_of _ = []

abbrev pub state_of : Option ContainerState → ContainerState
state_of (some s) = s
state_of none = record { running = false; status = none; health = none; started_at = none }

-- `details.get("Config", {}).get("Image", "")`, where `none` is the AttributeError of a null config
unfoldable pub image_of : Field ContainerConfig → Option Text
image_of missing = some []
image_of null = none
image_of (present config) = some (or_text config.image [])

abbrev pub never : Text
never = codes "0001-01-01"

-- What aiodocker does for the client: each call gives an outcome, and the world after it. The
-- number of cores is `none` where it is missing, no integer, or negative. A message of an attached
-- exec is its stream and its bytes; an inspected exec is its running flag and its exit code.
pub record Docker (World : Type 0) : Type 0 where
  pub info : World → Outcome (Option ℕ) × World
  pub list : World → Outcome (List Text) × World
  pub show : Text → World → Outcome Details × World
  pub stats : Text → World → Outcome Stats × World
  pub log : Text → ℕ → World → Outcome (List Text) × World
  pub inspect_image : Text → World → Outcome (Option (List Text) × Option (Dict Text Text)) × World
  pub create_exec : Text → List Text → Option Text → World → Outcome Text × World
  pub start_exec : Text → World → Outcome (List (ℕ × Text)) × World
  pub start_exec_detached : Text → World → Option Failure × World
  pub inspect_exec : Text → World → Outcome (Bool × Option ℕ) × World

-- `datetime.fromisoformat` is a parameter, with the time that it reads as a text.
module _ (World : Type 0) (docker : Docker World) (fromisoformat : Text → Option Text) where
  unfoldable pub started_at_of : Option Text → Option Text
  started_at_of raw = elim (truthy raw) [
    | none ↦ none
    | some text ↦ if starts_with never text then none else fromisoformat text
  ]

  -- the record that `_inspect_one` ends with
  unfoldable pub container_info : Details → Sample → Option ContainerInfo
  unfolding started_at_of image_of
  container_info details sample = elim details.id [
    | none ↦ none
    | some id ↦ elim (image_of details.config) [
      | none ↦ none
      | some image ↦
          let labels = labels_of details.config in
          let state = state_of details.state in
          some (record {
            id = id;
            name = drop_while (λ c. c == b'/') (or_text details.name []);
            project = lookup compose_project_label labels;
            service = lookup compose_service_label labels;
            state = or_text state.status (codes "unknown");
            health = state.health;
            image = image;
            image_id = or_text details.image [];
            started_at = started_at_of state.started_at;
            cpu_percent = sample.cpu_percent;
            memory_usage_bytes = sample.memory_usage;
            memory_limit_bytes = sample.memory_limit;
            labels = labels;
            online_cpus = sample.online_cpus;
          })
    ]
  ]

  -- The stats of a container that runs; of another one there are none.
  unfoldable pub stats_of : Bool → Text → World → Outcome Stats × World
  stats_of true container w = docker.stats container w
  stats_of false container w = (failed other_error, w)

  -- `_inspect_one`: `none` where it raises
  unfoldable pub inspect_one : Text → World → Option ContainerInfo × World
  unfolding container_info sample_of stats_of
  inspect_one container w =
      let (shown, w1) = docker.show container w in
      elim shown [
        | done details ↦
            let (sampled, w2) = stats_of (state_of details.state).running container w1 in
            (container_info details (sample_of sampled), w2)
        | failed e ↦ (none, w1)
      ]

  -- The calls are gathered; they are taken in turn here.
  unfoldable pub inspect_all : List Text → World → List ContainerInfo × World
  unfolding inspect_one
  inspect_all [] w = ([], w)
  inspect_all (container ∷ containers) w =
      let (outcome, w1) = inspect_one container w in
      let (results, w2) = inspect_all containers w1 in
      (elim outcome [ none ↦ results | some c ↦ c ∷ results ], w2)

  unfoldable pub list_containers : Bool → World → Result (List ContainerInfo) × World
  unfolding inspect_all
  list_containers false w = (raised not_connected, w)
  list_containers true w =
      let (listed, w1) = docker.list w in
      elim listed [
        | done containers ↦ let (results, w2) = inspect_all containers w1 in (returned results, w2)
        | failed e ↦ (raised (uncaught e), w1)
      ]

  -- The number of cores, where a DockerError and any other exception are caught.
  unfoldable pub get_host_cpu_count : Bool → World → Result (Option ℕ) × World
  get_host_cpu_count false w = (raised not_connected, w)
  get_host_cpu_count true w =
      let (info, w1) = docker.info w in
      elim info [ done ncpu ↦ (returned (truthy_number ncpu), w1) | failed e ↦ (returned none, w1) ]

pub Outcome-cases {ℓ} :
    {A : Type ℓ} (o : Outcome A) → ((a : A) × (o ≡ done a)) ⊎ ((e : Failure) × (o ≡ failed e))
Outcome-cases (done a) = inl (a, refl)
Outcome-cases (failed e) = inr (e, refl)
