-- ===== src/ContainerTotals/Memory.antt =====
-- The total memory of container_totals.py against the sum of the containers' bytes.
use ha_docker_compose.Prelude.{
  Bool-cases, List, Option-cases, [], arith, codes, if◌then◌else◌, inl, inr, map, nat_eq, none,
  pair_eq, refl, some, sym, text_eq, ℕ, ◌*◌, ◌+◌, ◌==◌, ◌∷◌, ◌≡◌, ◌≤◌,
}
use ha_docker_compose.Engine.{ContainerInfo}
use ha_docker_compose.ContainerTotals.{
  bytes_per_gb, round_div, running_memory, total_running_memory_gb,
}

round_div-near :
    (a : ℕ)
    → (2 * (round_div a bytes_per_gb * bytes_per_gb) ≤ 2 * a + bytes_per_gb)
      × (2 * a ≤ 2 * (round_div a bytes_per_gb * bytes_per_gb) + bytes_per_gb)
unfolding round_div
round_div-near a = (ground arith, ground arith)

round_div-monotone : (a b : ℕ) → a ≤ b → round_div a bytes_per_gb ≤ round_div b bytes_per_gb
unfolding round_div
round_div-monotone a b h = ground (arith, h)

running_memory-cons :
    (c : ContainerInfo) (cs : List ContainerInfo) → running_memory cs ≤ running_memory (c ∷ cs)
unfolding running_memory
running_memory-cons c cs = ground arith

-- The bytes that a container counts with: those that it tells, if its state is `running`.
abbrev pub bytes_of : ContainerInfo → ℕ
bytes_of c =
    if c.state == codes "running" then elim c.memory_usage_bytes [ none ↦ 0 | some n ↦ n ] else 0

unfoldable pub sum : List ℕ → ℕ
sum [] = 0
sum (n ∷ ns) = n + sum ns

running_memory-sum : (cs : List ContainerInfo) → running_memory cs ≡ sum (map bytes_of cs)
unfolding running_memory sum
running_memory-sum [] = refl
running_memory-sum (c ∷ cs) = elim (Bool-cases (c.state == codes "running")) [
  | inr off ↦ rw off (omega (arith, running_memory-sum cs))
  | inl on ↦ elim (Option-cases c.memory_usage_bytes) [
    | inl e ↦ rw (on, e) (omega (arith, running_memory-sum cs))
    | inr (n, e) ↦ rw (on, e, running_memory-sum cs) refl
  ]
]

-- The total of a site, in hundredths of 2 ** 30 bytes, is off the sum of the bytes of all containers that run
-- and tell them by at most half a hundredth, and one container more never makes it less.
pub total_running_memory_gb-Bounds :
    (containers : List ContainerInfo) (c : ContainerInfo)
    → let total = total_running_memory_gb containers in
      let exact = 100 * sum (map bytes_of containers) in
      (2 * (total * 1073741824) ≤ 2 * exact + 1073741824)
      × (2 * exact ≤ 2 * (total * 1073741824) + 1073741824)
      × (total ≤ total_running_memory_gb (c ∷ containers))
unfolding total_running_memory_gb
total_running_memory_gb-Bounds containers c =
    let near = round_div-near (100 * running_memory containers) in
    (
      rw (sym (running_memory-sum containers)) near.0,
      rw (sym (running_memory-sum containers)) near.1,
      round_div-monotone (100 * running_memory containers) (100 * running_memory (c ∷ containers))
          (omega (arith, running_memory-cons c containers)),
    )
