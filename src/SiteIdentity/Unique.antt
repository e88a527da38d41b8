-- ===== src/SiteIdentity/Unique.antt =====
-- `resolve_unique_site_slug` of site_identity.py: the suffix search ends, at a slug that is free.
use ha_docker_compose.Prelude.{
  Bool-cases, List, Text, [], arith, decimal, decimal-injective, discard, elem, elem-discard,
  eq_iff, false, inl, inr, keep, length, nat_eq, pair_eq, refl, suc, text_eq, true, zero, ℕ, ◌++◌,
  ◌+◌, ◌<◌, ◌∷◌, ◌≡◌, ◌≢◌, ◌≤◌,
}
use native.Mathlib.Decide.{dec_lt}
use ha_docker_compose.SiteIdentity.{suffixed, free_suffix, resolve_unique_site_slug}

append_cancel : (s : Text) {t u : Text} → s ++ t ≡ s ++ u → t ≡ u
append_cancel [] h = h
append_cancel (c ∷ s) h = append_cancel s (cc)

suffixed-injective : (s : Text) (m n : ℕ) → suffixed s m ≡ suffixed s n → m ≡ n
unfolding suffixed
suffixed-injective s m n h =
    let tails : b'_' ∷ decimal m ≡ b'_' ∷ decimal n = append_cancel s h in
    decimal-injective m n (cc)

length-discard : (x : Text) (s : List Text) → length (discard x s) ≤ length s
unfolding discard keep
length-discard x [] = omega arith
length-discard x (y ∷ s) = ground (arith, length-discard x s)

length-discard_lt : (x : Text) (s : List Text) → elem x s ≡ true → length (discard x s) < length s
unfolding discard keep elem
length-discard_lt x [] h = cc
length-discard_lt x (y ∷ s) h = ground (arith, length-discard x s, length-discard_lt x s)

-- Among the suffixes from `k` on, one of the first `n + 1` is free if at most `n` slugs are taken.
free_exists :
    (desired : Text) (n : ℕ) (taken : List Text) (k : ℕ)
    → length taken ≤ n
    → (j : ℕ) × (j ≤ n) × (elem (suffixed desired (k + j)) taken ≡ false)
free_exists desired zero [] k h = (0, omega arith, unfold elem in refl)
free_exists desired zero (t ∷ taken) k h = absurd (omega arith)
free_exists desired (suc n) taken k h = elim (Bool-cases (elem (suffixed desired k) taken)) [
  | inr free ↦ (0, omega arith, let e : k + 0 ≡ k = omega arith in rw e free)
  | inl used ↦
      let fewer = discard (suffixed desired k) taken in
      let (j, le, free) =
        free_exists desired n fewer (suc k)
          (omega (arith, length-discard_lt (suffixed desired k) taken used)) in
      let e : k + suc j ≡ suc k + j = omega arith in
      let apart : suffixed desired k ≢ suffixed desired (suc k + j) =
        λ same. absurd (omega (arith, suffixed-injective desired k (suc k + j) same)) in
      (
        suc j,
        omega arith,
        rw e (
            ground (
              arith,
              free,
              elem-discard (suffixed desired k) (suffixed desired (suc k + j)) taken,
              eq_iff (suffixed desired k) (suffixed desired (suc k + j)),
              apart,
            )),
      )
]

-- The first free suffix lies in reach of the search.
free_suffix-free :
    (fuel : ℕ) (desired : Text) (taken : List Text) (k j : ℕ)
    → j ≤ fuel
    → elem (suffixed desired (k + j)) taken ≡ false
    → elem (suffixed desired (free_suffix fuel desired taken k)) taken ≡ false
unfolding free_suffix
free_suffix-free zero desired taken k j h free = let e : k + j ≡ k = omega arith in rw e at free
free_suffix-free (suc fuel) desired taken k zero h free =
    let e : k + zero ≡ k = omega arith in
    let here : elem (suffixed desired k) taken ≡ false = rw e at free in ground (arith, here)
free_suffix-free (suc fuel) desired taken k (suc j) h free =
    let e : k + suc j ≡ suc k + j = omega arith in
    let ih = free_suffix-free fuel desired taken (suc k) j (omega arith) (rw e at free) in
    ground (arith, ih)

le-free_suffix :
    (fuel : ℕ) (desired : Text) (taken : List Text) (k : ℕ) → k ≤ free_suffix fuel desired taken k
unfolding free_suffix
le-free_suffix zero desired taken k = omega arith
le-free_suffix (suc fuel) desired taken k =
    ground (arith, le-free_suffix fuel desired taken (suc k))

free_suffix-least :
    (fuel : ℕ) (desired : Text) (taken : List Text) (k i : ℕ)
    → k ≤ i
    → i < free_suffix fuel desired taken k
    → elem (suffixed desired i) taken ≡ true
unfolding free_suffix
free_suffix-least zero desired taken k i lo hi = absurd (omega arith)
free_suffix-least (suc fuel) desired taken k i lo hi =
    elim (Bool-cases (elem (suffixed desired k) taken)) [
      | inr free ↦ absurd (ground (arith, free))
      | inl used ↦ elim (dec_lt k i) [
        | yes above ↦ free_suffix-least fuel desired taken (suc k) i above (rw used at hi)
        | no below ↦ let e : i ≡ k = omega arith in rw e used
      ]
    ]

-- The resolved slug is never one of the taken slugs: the loop over the suffixes ends by its test,
-- within one round for each taken slug.
pub elem-resolve_unique_site_slug :
    (desired : Text) (taken : List Text)
    → elem (resolve_unique_site_slug desired taken) taken ≡ false
unfolding resolve_unique_site_slug
elem-resolve_unique_site_slug desired taken =
    let (j, le, free) = free_exists desired (length taken) taken 2 (omega arith) in
    ground (arith, free_suffix-free (length taken) desired taken 2 j le free)

-- A desired slug that is free is kept; one that is taken gets the least suffix from 2 on that makes
-- it free: the slug with that suffix is not taken, and with any smaller one it is.
pub resolve_unique_site_slug_least :
    (desired : Text) (taken : List Text)
    → (elem desired taken ≡ false → resolve_unique_site_slug desired taken ≡ desired)
      × (elem desired taken ≡ true
          → (n : ℕ) × (resolve_unique_site_slug desired taken ≡ suffixed desired n)
            × (2 ≤ n)
            × (elem (suffixed desired n) taken ≡ false)
            × ((i : ℕ) → 2 ≤ i → i < n → elem (suffixed desired i) taken ≡ true))
unfolding resolve_unique_site_slug
resolve_unique_site_slug_least desired taken = (
  λ free. rw free,
  λ used.
      let (j, le, free) = free_exists desired (length taken) taken 2 (omega arith) in
      (
        free_suffix (length taken) desired taken 2,
        rw used,
        le-free_suffix (length taken) desired taken 2,
        free_suffix-free (length taken) desired taken 2 j le free,
        free_suffix-least (length taken) desired taken 2,
      ),
)
