-- ===== src/SiteIdentity.antt =====
-- custom_components/ha_docker_compose/site_identity.py: the slugs that tell Docker hosts apart.
mod Tests
pub mod Slug
pub mod Unique
pub mod Suffix
use ha_docker_compose.Prelude.{
  Bool, List, Option, Text, [], add, codes, decimal, elem, false, if◌then◌else◌, leb, length, lower,
  nat_eq, none, pair_eq, some, strip, strip_class, suc, text_eq, true, zero, ℕ, ◌&&◌, ◌++◌, ◌==◌,
  ◌||◌, ◌∷◌,
}

-- `[a-z0-9]`, what `_SLUG_INVALID_RE` leaves alone
abbrev pub is_alnum : ℕ → Bool
is_alnum c = (leb b'a' c && leb c b'z') || (leb b'0' c && leb c b'9')

-- `_SLUG_INVALID_RE.sub("_", s)`: each run of other characters becomes one underscore. The flag
-- says that the scan is inside of such a run.
unfoldable pub collapse : Bool → Text → Text
collapse in_run [] = []
collapse in_run (c ∷ s) = elim (is_alnum c) [
  | true ↦ c ∷ collapse false s
  | false ↦ if in_run then collapse true s else b'_' ∷ collapse true s
]

abbrev pub is_underscore : ℕ → Bool
is_underscore c = c == b'_'

unfoldable pub slugify_site_name : Text → Text
unfolding collapse
slugify_site_name name =
    let slug = strip_class is_underscore (collapse false (lower (strip name))) in
    elim slug [ [] ↦ codes "site" | c ∷ s ↦ c ∷ s ]

-- `f"{desired_slug}_{suffix}"`
unfoldable pub suffixed : Text → ℕ → Text
suffixed desired_slug suffix = desired_slug ++ b'_' ∷ decimal suffix

-- The loop over the suffixes. With as many rounds as there are taken slugs it ends by its test.
unfoldable pub free_suffix : ℕ → Text → List Text → ℕ → ℕ
free_suffix zero desired_slug taken_slugs suffix = suffix
free_suffix (suc fuel) desired_slug taken_slugs suffix =
    let next = free_suffix fuel desired_slug taken_slugs (suc suffix) in
    if elem (suffixed desired_slug suffix) taken_slugs then next else suffix

unfoldable pub resolve_unique_site_slug : Text → List Text → Text
unfolding free_suffix
resolve_unique_site_slug desired_slug taken_slugs =
    if elem desired_slug taken_slugs
    then suffixed desired_slug (free_suffix (length taken_slugs) desired_slug taken_slugs 2)
    else desired_slug

-- The slugs of the entries other than the excluded one (`none` excludes no entry).
unfoldable pub other_site_slugs : List (Text × Option Text) → Option Text → List Text
other_site_slugs [] exclude_entry_id = []
other_site_slugs ((entry_id, none) ∷ entries) exclude_entry_id =
    other_site_slugs entries exclude_entry_id
other_site_slugs ((entry_id, some []) ∷ entries) exclude_entry_id =
    other_site_slugs entries exclude_entry_id
other_site_slugs ((entry_id, some (c ∷ s)) ∷ entries) exclude_entry_id =
    let rest = other_site_slugs entries exclude_entry_id in
    elim exclude_entry_id [
      | none ↦ add (c ∷ s) rest
      | some excluded ↦ if entry_id == excluded then rest else add (c ∷ s) rest
    ]
