-- ===== src/TagFilter/Filtering.antt =====
-- `filter_tags` of tag_filter.py: which tags are candidates.
use ha_docker_compose.Prelude.{
  All, Bool, List, Option, Text, [], arith, drop_while, elem, elem-keep, false, if◌then◌else◌,
  is_digit, nat_eq, none, not, pair_eq, refl, some, text_eq, true, ℕ, ◌&&◌, ◌∷◌, ◌≡◌,
}
use ha_docker_compose.VersionDetect.{is_version_tag, has_version_structure}
use ha_docker_compose.VersionDetect.Structure.{VersionShape, has_version_structure_iff}
use ha_docker_compose.TagFilter.{
  is_real_version_tag, Compiler, candidates_by, exclude_by, override, filter_tags,
}

-- What the include pattern asks of a tag: with none, the form of a version.
abbrev pub is_wanted : Option (Text → Bool) → Text → Bool
is_wanted none t = is_real_version_tag t
is_wanted (some search_include) t = search_include t

abbrev pub is_unwanted : Option (Text → Bool) → Text → Bool
is_unwanted none t = false
is_unwanted (some search_exclude) t = search_exclude t

elem-candidates_by :
    (i : Option (Text → Bool)) (tags : List Text) (t : Text)
    → elem t (candidates_by i tags) ≡ (if is_wanted i t then elem t tags else false)
elem-candidates_by none tags t = elem-keep is_real_version_tag t tags
elem-candidates_by (some p) tags t = elem-keep p t tags

elem-exclude_by :
    (e : Option (Text → Bool)) (tags : List Text) (t : Text)
    → elem t (exclude_by e tags) ≡ (if is_unwanted e t then false else elem t tags)
elem-exclude_by none tags t = refl
elem-exclude_by (some p) tags t = ground (arith, elem-keep (λ u. not (p u)) t tags)

-- A tag is kept exactly when the registry listed it, the include pattern finds it (or, with no valid
-- include pattern, it has the form of a version), and no valid exclude pattern finds it.
pub elem-filter_tags :
    (compile : Compiler) (tags : List Text) (tag_include tag_exclude : Option Text) (t : Text)
    → elem t (filter_tags compile tags tag_include tag_exclude) ≡ (
        elem t tags
        && is_wanted (override compile tag_include) t
        && not (is_unwanted (override compile tag_exclude) t))
unfolding filter_tags
elem-filter_tags compile tags tag_include tag_exclude t = ground (
  arith,
  elem-candidates_by (override compile tag_include) tags t,
  elem-exclude_by (override compile tag_exclude) (candidates_by (override compile tag_include) tags)
      t,
)

drop_while-All : (p : ℕ → Bool) (s : Text) → All (λ c. p c ≡ true) s → drop_while p s ≡ []
unfolding drop_while
drop_while-All p [] h = refl
drop_while-All p (c ∷ s) h = ground (arith, h.0, drop_while-All p s h.1)

-- A tag of digits alone, such as a commit hash or a build number, is never taken for a version.
pub is_real_version_tag-digits :
    (t : Text) → All (λ c. is_digit c ≡ true) t → is_real_version_tag t ≡ false
unfolding is_real_version_tag has_version_structure is_version_tag
is_real_version_tag-digits [] h = refl
is_real_version_tag-digits (c ∷ t) h =
    let none_left = drop_while-All is_digit (c ∷ t) h in ground (arith, none_left, h.0)

-- What passes the default filter has the shape of a version: an optional `v`, digits, a dot and a
-- digit.
pub is_real_version_tag-VersionShape : (t : Text) → is_real_version_tag t ≡ true → VersionShape t
unfolding is_real_version_tag
is_real_version_tag-VersionShape t h = (has_version_structure_iff t).0 (ground (arith, h))
