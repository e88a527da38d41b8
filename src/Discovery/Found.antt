-- ===== src/Discovery/Found.antt =====
-- What the scan of discovery.py finds, and what keeps it from finding anything.
use ha_docker_compose.Prelude.{
  Bool, Bool-cases, List, Option, Option-cases, Text, [], ap, arith, elem, eq_iff, false,
  if◌then◌else◌, inl, inr, keep, map, nat_eq, none, pair_eq, refl, some, subst, sym, text_eq, true,
  ◌==◌, ◌∙◌, ◌∷◌, ◌≡◌,
}
use ha_docker_compose.Engine.{Result, returned}
use ha_docker_compose.Compose.{Node, Document}
use ha_docker_compose.Discovery.{StackInfo}
use ha_docker_compose.Discovery.Scan.{
  text_leb, place, sorted, Scanned, found, file_not_found, escaped, read_raw_compose_text,
  config_or_empty, path_of, stack_of, compose_file_of, and_then, scan, discover_stacks,
}

abbrev pub IsAscending : List Text → Type 0
IsAscending [] = Unit
IsAscending (x ∷ []) = Unit
IsAscending (x ∷ y ∷ names) = (text_leb x y ≡ true) × IsAscending (y ∷ names)

text_leb_total : (s t : Text) → text_leb s t ≡ false → text_leb t s ≡ true
unfolding text_leb
text_leb_total [] t h = cc
text_leb_total (c ∷ s) [] h = refl
text_leb_total (c ∷ s) (d ∷ t) h = ground (arith, text_leb_total s t, h)

place-Ascending : (x : Text) (names : List Text) → IsAscending names → IsAscending (place x names)
unfolding place
place-Ascending x [] h = tt
place-Ascending x (y ∷ []) h = elim (Bool-cases (text_leb x y)) [
  | inl le ↦ rw le (le, tt)
  | inr gt ↦ rw gt (text_leb_total x y gt, tt)
]
place-Ascending x (y ∷ z ∷ names) (le, h) =
    let rest = place-Ascending x (z ∷ names) h in
    elim (Bool-cases (text_leb x y)) [
      | inl low ↦ rw low (low, (le, h))
      | inr high ↦ elim (Bool-cases (text_leb x z)) [
        | inl mid ↦ rw (high, mid) (text_leb_total x y high, (mid, h))
        | inr top ↦ rw (high, top) (le, rw top at rest)
      ]
    ]

elem-place :
    (x y : Text) (names : List Text)
    → elem x (place y names) ≡ (if y == x then true else elem x names)
unfolding place elem
elem-place x y [] = refl
elem-place x y (z ∷ names) = ground (arith, elem-place x y names)

elem-sorted : (x : Text) (names : List Text) → elem x (sorted names) ≡ elem x names
unfolding sorted elem
elem-sorted x [] = refl
elem-sorted x (y ∷ names) = rw (elem-place x y (sorted names), elem-sorted x names)

sorted-Ascending : (names : List Text) → IsAscending (sorted names)
unfolding sorted
sorted-Ascending [] = tt
sorted-Ascending (x ∷ names) = place-Ascending x (sorted names) (sorted-Ascending names)

-- Pairwise different names, and names in strict order: each stands before its next one, and is not it.
abbrev pub AreDistinct : List Text → Type 0
AreDistinct [] = Unit
AreDistinct (x ∷ names) = (elem x names ≡ false) × AreDistinct names

abbrev pub IsStrict : List Text → Type 0
IsStrict [] = Unit
IsStrict (x ∷ []) = Unit
IsStrict (x ∷ y ∷ names) = (text_leb x y ≡ true) × (x ≡ y → ⊥) × IsStrict (y ∷ names)

AreDistinct-place :
    (x : Text) (names : List Text)
    → elem x names ≡ false
    → AreDistinct names
    → AreDistinct (place x names)
unfolding place elem
AreDistinct-place x [] fresh h = (refl, tt)
AreDistinct-place x (y ∷ names) fresh (first, h) = elim (Bool-cases (text_leb x y)) [
  | inl low ↦ rw low (fresh, (first, h))
  | inr high ↦
      let apart : elem y (place x names) ≡ false =
        elem-place y x names ∙ ground (arith, eq_iff x y, eq_iff y x, fresh, first) in
      rw high (apart, AreDistinct-place x names (ground (arith, fresh)) h)
]

AreDistinct-sorted : (names : List Text) → AreDistinct names → AreDistinct (sorted names)
unfolding sorted
AreDistinct-sorted [] h = tt
AreDistinct-sorted (x ∷ names) (fresh, h) =
    AreDistinct-place x (sorted names) (elem-sorted x names ∙ fresh) (AreDistinct-sorted names h)

strict : (names : List Text) → IsAscending names → AreDistinct names → IsStrict names
unfolding elem
strict [] h d = tt
strict (x ∷ []) h d = tt
strict (x ∷ y ∷ names) (le, h) (fresh, d) =
    (le, λ same. ground (arith, fresh, eq_iff y x, same), strict (y ∷ names) h d)

IsStrict-sorted : (names : List Text) → AreDistinct names → IsStrict (sorted names)
IsStrict-sorted names d =
    strict (sorted names) (sorted-Ascending names) (AreDistinct-sorted names d)

abbrev pub is_present {ℓ} : {A : Type ℓ} → Option A → Bool
is_present none = false
is_present (some a) = true

module _ (World : Type 0) (node : Text → Text → Node) (is_dir : Text → Bool)
    (resolve : Text → World → Result Document × World) (stacks_root : Text) where
  -- The folders that have a compose file.
  abbrev pub has_stack : Text → Bool
  has_stack entry = is_present (compose_file_of World node is_dir resolve stacks_root entry)

  abbrev pub path : Text → Option Text
  path entry = some (path_of World node is_dir resolve stacks_root entry)

  -- The paths of the stacks, where the scan has come to its end.
  abbrev HasPaths : List (Option Text) → Scanned → Type 0
  HasPaths paths (found stacks) = map (λ s. s.path) stacks ≡ paths
  HasPaths paths _ = Unit

  and_then-HasPaths :
      (s : StackInfo) (p : Option Text) (paths : List (Option Text)) (rest : Scanned)
      → s.path ≡ p
      → HasPaths paths rest
      → HasPaths (p ∷ paths) (and_then (some s) rest)
  and_then-HasPaths s p paths (found stacks) h k = cc
  and_then-HasPaths s p paths file_not_found h k = tt
  and_then-HasPaths s p paths escaped h k = tt

  stack_of-path :
      (entry filename : Text) (d : Document) (s : StackInfo)
      → stack_of World node is_dir resolve stacks_root entry filename d ≡ some s
      → s.path ≡ path entry
  unfolding stack_of
  stack_of-path entry filename none s h = cc
  stack_of-path entry filename (some config) s h =
      elim (Option-cases (
        read_raw_compose_text
          (node (path_of World node is_dir resolve stacks_root entry) filename))) [
            | inl e ↦ absurd (ground (arith, e, h))
            | inr (text, e) ↦ ground (arith, e, h)
          ]

  scan-HasPaths :
      (entries : List Text) (w : World)
      → HasPaths
          (map path (keep has_stack entries))
          (scan World node is_dir resolve stacks_root entries w).0
  unfolding scan keep
  scan-HasPaths [] w = refl
  scan-HasPaths (entry ∷ entries) w =
      elim (Option-cases (compose_file_of World node is_dir resolve stacks_root entry)) [
        | inl e ↦ rw (e, scan, keep) (scan-HasPaths entries w)
        | inr (filename, e) ↦
            let answer = resolve (path_of World node is_dir resolve stacks_root entry) w in
            elim (Option-cases (
              stack_of World node is_dir resolve stacks_root entry filename
                (config_or_empty answer.0))) [
                  | inl f ↦ rw (e, f, scan, keep) tt
                  | inr (s, f) ↦
                      rw (e, f, scan, keep)
                        (and_then-HasPaths s (path entry) _ _ (stack_of-path entry filename _ s f)
                          (scan-HasPaths entries answer.1))
                ]
      ]

  -- Each folder with a compose file becomes exactly one stack, in the strict order of their names, whatever
  -- the order in which the pairwise different entries are listed, if the scan comes to its end.
  pub discover_stacks-paths :
      (entries : List Text) (w w' : World) (stacks : List StackInfo)
      → AreDistinct entries
      → discover_stacks World node is_dir resolve stacks_root true entries w ≡ (found stacks, w')
      → (names : List Text) × IsStrict names
        × ((x : Text) → elem x names ≡ elem x entries)
        × (map (λ s. s.path) stacks ≡ map path (keep has_stack names))
  unfolding discover_stacks
  discover_stacks-paths entries w w' stacks distinct h = (
    sorted entries,
    IsStrict-sorted entries distinct,
    λ x. elem-sorted x entries,
    subst (HasPaths (map path (keep has_stack (sorted entries)))) (ap (λ p. p.0) h)
        (scan-HasPaths (sorted entries) w),
  )

  stack_of-refused :
      (entry filename : Text) (a : Result Document)
      → a ≡ returned none
      → stack_of World node is_dir resolve stacks_root entry filename (config_or_empty a) ≡ none
  unfolding stack_of
  stack_of-refused entry filename a h = rw (h, stack_of)

  scan-escapes :
      (entry : Text) (entries : List Text) (w : World)
      → elem entry entries ≡ true
      → has_stack entry ≡ true
      → ((v : World)
          → (resolve (path_of World node is_dir resolve stacks_root entry) v).0 ≡ returned none)
      → (scan World node is_dir resolve stacks_root entries w).0 ≡ escaped
  unfolding scan elem
  scan-escapes entry [] w h k r = cc
  scan-escapes entry (other ∷ entries) w h k r =
      elim (Option-cases (compose_file_of World node is_dir resolve stacks_root other)) [
        | inl e ↦
            let later : elem entry entries ≡ true = ground (arith, h, e, k, eq_iff other entry) in
            rw (e, scan) (scan-escapes entry entries w later k r)
        | inr (filename, e) ↦
            let answer = resolve (path_of World node is_dir resolve stacks_root other) w in
            elim (Option-cases (
              stack_of World node is_dir resolve stacks_root other filename
                (config_or_empty answer.0))) [
                  | inl f ↦ rw (e, f, scan)
                  | inr (s, f) ↦ elim (Bool-cases (other == entry)) [
                    | inl same ↦
                        let here : other ≡ entry = (eq_iff other entry).0 same in
                        let refused : answer.0 ≡ returned none =
                          subst
                            (λ x.
                              (resolve (path_of World node is_dir resolve stacks_root x) w).0
                              ≡ returned none)
                            (sym here) (r w) in
                        let none_there = stack_of-refused other filename answer.0 refused in
                        absurd (cc)
                    | inr differs ↦
                        let later : elem entry entries ≡ true = ground (arith, h, differs) in
                        rw (e, f, scan, scan-escapes entry entries answer.1 later k r)
                  ]
                ]
      ]

  -- One folder whose compose document is no mapping keeps every stack from being found, wherever it
  -- stands: the scan is left by an exception.
  pub discover_stacks-escapes :
      (entry : Text) (entries : List Text) (w : World)
      → elem entry entries ≡ true
      → has_stack entry ≡ true
      → ((v : World)
          → (resolve (path_of World node is_dir resolve stacks_root entry) v).0 ≡ returned none)
      → (discover_stacks World node is_dir resolve stacks_root true entries w).0 ≡ escaped
  unfolding discover_stacks
  discover_stacks-escapes entry entries w h =
      scan-escapes entry (sorted entries) w (elem-sorted entry entries ∙ h)
