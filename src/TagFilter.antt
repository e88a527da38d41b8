-- ===== src/TagFilter.antt =====
-- custom_components/ha_docker_compose/tag_filter.py: from a registry's tag list to its newest version.
-- `re.compile(…)` and the version numbers of the `packaging` library are parameters.
mod Tests
pub mod Filtering
pub mod Ranking
pub mod Newest
use ha_docker_compose.Prelude.{
  Bool, List, Option, Text, [], all, codes, elem, false, if◌then◌else◌, keep, lower, map, nat_eq,
  none, not, pair_eq, some, split_class, text_eq, true, ℕ, ◌&&◌, ◌==◌, ◌||◌, ◌∷◌, ◌≡◌,
}
use ha_docker_compose.VersionDetect.{non_version_tags, is_version_tag, has_version_structure}

abbrev pub arch_tokens : List Text
arch_tokens =
    codes "amd64"
    ∷ codes "arm64"
    ∷ codes "arm"
    ∷ codes "armv6"
    ∷ codes "armv7"
    ∷ codes "arm32v6"
    ∷ codes "arm32v7"
    ∷ codes "arm64v8"
    ∷ codes "i386"
    ∷ codes "386"
    ∷ codes "x86"
    ∷ codes "x86_64"
    ∷ codes "ppc64le"
    ∷ codes "s390x"
    ∷ codes "riscv64"
    ∷ codes "aarch64"
    ∷ []

-- `[-_]`
abbrev pub is_joint : ℕ → Bool
is_joint c = c == b'-' || c == b'_'

abbrev pub is_filled : Text → Bool
is_filled [] = false
is_filled (c ∷ s) = true

abbrev pub is_noise_word : Text → Bool
is_noise_word part = elem part arch_tokens || elem part non_version_tags

abbrev pub all_noise : List Text → Bool
all_noise [] = false
all_noise (part ∷ parts) = all is_noise_word (part ∷ parts)

-- `_is_noise_tag`
unfoldable pub is_noise_tag : Text → Bool
is_noise_tag tag = all_noise (keep is_filled (split_class is_joint (lower tag)))

unfoldable pub is_real_version_tag : Text → Bool
is_real_version_tag tag = is_version_tag tag && has_version_structure tag && not (is_noise_tag tag)

-- A compiled pattern is its `search`; `none` stands for `re.error`.
abbrev pub Compiler : Type 0
Compiler = Text → Option (Text → Bool)

abbrev pub candidates_by : Option (Text → Bool) → List Text → List Text
candidates_by none tags = keep is_real_version_tag tags
candidates_by (some search_include) tags = keep search_include tags

abbrev pub exclude_by : Option (Text → Bool) → List Text → List Text
exclude_by none candidates = candidates
exclude_by (some search_exclude) candidates = keep (λ t. not (search_exclude t)) candidates

-- The pattern of an override: `none` if it is not set, empty, or invalid.
abbrev pub override : Compiler → Option Text → Option (Text → Bool)
override compile none = none
override compile (some []) = none
override compile (some (c ∷ s)) = compile (c ∷ s)

unfoldable pub filter_tags : Compiler → List Text → Option Text → Option Text → List Text
filter_tags compile tags tag_include tag_exclude =
    exclude_by (override compile tag_exclude) (candidates_by (override compile tag_include) tags)

-- `packaging.version`: `none` is `InvalidVersion`, and `le` the order of the versions.
pub record Versions : Type 1 where
  pub Version : Type 0
  pub version : Text → Option Version
  pub is_devrelease : Version → Bool
  pub is_prerelease : Version → Bool
  pub le : Version → Version → Bool

-- The order is total and transitive.
pub record IsOrdered (v : Versions) : Type 0 where
  pub total : (a b : v.Version) → v.le a b ≡ false → v.le b a ≡ true
  pub trans : (a b c : v.Version) → v.le a b ≡ true → v.le b c ≡ true → v.le a c ≡ true

module _ (v : Versions) where
  open v use {Version, version, is_devrelease, is_prerelease, le}

  -- The version of a tag that is a final release.
  unfoldable pub final : Text → Option Version
  final t = elim (version t) [
    | none ↦ none
    | some n ↦ if is_devrelease n then none else if is_prerelease n then none else some n
  ]

  -- the loop that collects `finals`
  unfoldable pub collect_finals : List Text → List (Version × Text)
  unfolding final
  collect_finals [] = []
  collect_finals (t ∷ tags) =
      let rest = collect_finals tags in elim (final t) [ none ↦ rest | some n ↦ (n, t) ∷ rest ]

  -- `list.sort(key=…, reverse=True)` is stable: among equal keys the earlier stays first.
  unfoldable pub place : Version × Text → List (Version × Text) → List (Version × Text)
  place p [] = p ∷ []
  place p (q ∷ qs) = let rest = place p qs in if le q.0 p.0 then p ∷ q ∷ qs else q ∷ rest

  unfoldable pub sort_reverse : List (Version × Text) → List (Version × Text)
  unfolding place
  sort_reverse [] = []
  sort_reverse (p ∷ ps) = place p (sort_reverse ps)

  unfoldable pub rank_final_versions : List Text → List Text
  unfolding collect_finals sort_reverse
  rank_final_versions tags = map (λ p. p.1) (sort_reverse (collect_finals tags))

  unfoldable pub select_newest_version_tag : List Text → Option Text
  select_newest_version_tag tags = elim (rank_final_versions tags) [ [] ↦ none | t ∷ ts ↦ some t ]
