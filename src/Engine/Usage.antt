-- ===== src/Engine/Usage.antt =====
-- The CPU percentage of engine.py: its operands are in their bounds.
use ha_docker_compose.Prelude.{
  Option, Option-cases, ap, arith, inl, inr, refl, some, sym, ℕ, ◌+◌, ◌<◌, ◌∙◌, ◌≡◌, ◌⊎◌,
}
use ha_docker_compose.Engine.{
  Field, missing, null, present, CpuReading, CpuStats, Stats, reading_of, cpu_reading,
  online_cpus_of, total_usage_of, calculate_cpu_percent,
}

reading_of-some :
    (online total pre_total system pre_system : ℕ) (p : CpuReading)
    → reading_of online total pre_total system pre_system ≡ some p
    → (p.online_cpus ≡ online)
      × (pre_total + p.cpu_delta ≡ total)
      × (pre_system + p.system_delta ≡ system)
      × (0 < p.system_delta)
unfolding reading_of
reading_of-some online total pre_total system pre_system p h = ground (arith, h)

abbrev pub Counters : CpuStats → CpuStats → CpuReading → Type 0
Counters cpu precpu p =
    (pre_total : ℕ) × (total_usage_of precpu ≡ some pre_total)
    × (total_usage_of cpu ≡ some (pre_total + p.cpu_delta))
    × (pre_system : ℕ) × (precpu.system_cpu_usage ≡ some pre_system)
    × (cpu.system_cpu_usage ≡ some (pre_system + p.system_delta))
    × (0 < p.system_delta)

cpu_reading-some :
    (online : ℕ) (cpu precpu : CpuStats) (p : CpuReading)
    → cpu_reading online cpu precpu ≡ some p
    → (p.online_cpus ≡ online) × Counters cpu precpu p
unfolding cpu_reading
cpu_reading-some online cpu precpu p h = elim (Option-cases (total_usage_of cpu)) [
  | inl e ↦ absurd (ground (arith, e, h))
  | inr (total, e) ↦ elim (Option-cases (total_usage_of precpu)) [
    | inl f ↦ absurd (ground (arith, e, f, h))
    | inr (pre_total, f) ↦ elim (Option-cases cpu.system_cpu_usage) [
      | inl s ↦ absurd (ground (arith, e, f, s, h))
      | inr (system, s) ↦ elim (Option-cases precpu.system_cpu_usage) [
        | inl q ↦ absurd (ground (arith, e, f, s, q, h))
        | inr (pre_system, q) ↦
            let found : reading_of online total pre_total system pre_system ≡ some p =
              ground (arith, e, f, s, q, h) in
            let (same, used, passed, positive) =
              reading_of-some online total pre_total system pre_system p found in
            (
              same,
              (
                pre_total,
                f,
                e ∙ ap some (sym used),
                pre_system,
                q,
                s ∙ ap some (sym passed),
                positive,
              ),
            )
      ]
    ]
  ]
]

online_cpus_of-Positive : (cpu : CpuStats) (n : ℕ) → online_cpus_of cpu ≡ present n → 0 < n
unfolding online_cpus_of
online_cpus_of-Positive cpu n h = ground (arith, h)

Field-cases : {A : Type 0} (f : Field A) → (f ≡ missing) ⊎ (f ≡ null) ⊎ ((a : A) × (f ≡ present a))
Field-cases missing = inl refl
Field-cases null = inr (inl refl)
Field-cases (present a) = inr (inr (a, refl))

-- A percentage is computed from the differences of the two samples' counters: the container's, which has
-- not fallen, by the system's, which has grown, so that nothing is divided by nought. The number of cores
-- that it is scaled by is positive, and the one that is reported with it.
pub calculate_cpu_percent-Bounds :
    (stats : Stats) (p : CpuReading) (online : Option ℕ)
    → calculate_cpu_percent stats ≡ some (some p, online)
    → (cpu : CpuStats) × (precpu : CpuStats) × (stats.cpu_stats ≡ present cpu)
      × (stats.precpu_stats ≡ some precpu)
      × Counters cpu precpu p
      × (0 < p.online_cpus)
      × (online ≡ some p.online_cpus)
unfolding calculate_cpu_percent
calculate_cpu_percent-Bounds stats p told h = elim (Field-cases stats.cpu_stats) [
  | inl e ↦ absurd (ground (arith, e, h))
  | inr (inl e) ↦ absurd (ground (arith, e, h))
  | inr (inr (cpu, e)) ↦ elim (Field-cases (online_cpus_of cpu)) [
    | inl o ↦ absurd (ground (arith, e, o, h))
    | inr (inl o) ↦ absurd (ground (arith, e, o, h))
    | inr (inr (online, o)) ↦ elim (Option-cases stats.precpu_stats) [
      | inl q ↦ absurd (ground (arith, e, o, q, h))
      | inr (precpu, q) ↦
          let (same, counters) =
            cpu_reading-some online cpu precpu p (ground (arith, e, o, q, h)) in
          let positive = online_cpus_of-Positive cpu online o in
          (
            cpu,
            precpu,
            e,
            q,
            counters,
            ground (arith, same, positive),
            ground (arith, e, o, q, same, h),
          )
    ]
  ]
]
