-- ===== src/TagFilter/Tests.antt =====
-- Witnesses on tag_filter.py, with versions that are numbers.
use ha_docker_compose.Prelude.{
  All, List, Option, Text, [], arith, codes, elem, false, leb, nat_eq, none, not, pair_eq, refl,
  some, text_eq, true, ℕ, ◌%◌, ◌&&◌, ◌==◌, ◌∷◌, ◌≡◌,
}
use ha_docker_compose.TagFilter.{
  Compiler, override, filter_tags, Versions, IsOrdered, final, rank_final_versions,
  select_newest_version_tag, collect_finals, sort_reverse, place,
}
use ha_docker_compose.TagFilter.Filtering.{is_wanted, is_unwanted, elem-filter_tags}
use ha_docker_compose.TagFilter.Ranking.{IsRanking, rank_final_versions-IsRanking}
use ha_docker_compose.TagFilter.Newest.{IsNewest, select_newest_version_tag-IsNewest}

-- The first character of a tag as its version, where an odd one is a pre-release.
abbrev first_version : Text → Option ℕ
first_version [] = none
first_version (c ∷ s) = some c

abbrev test_versions : Versions
test_versions = record {
  Version = ℕ;
  version = first_version;
  is_devrelease = λ n. false;
  is_prerelease = λ n. n % 2 == 1;
  le = leb;
}

leb_total : (a b : ℕ) → leb a b ≡ false → leb b a ≡ true
leb_total a b h = ground arith

leb_trans : (a b c : ℕ) → leb a b ≡ true → leb b c ≡ true → leb a c ≡ true
leb_trans a b c h k = ground arith

test_versions-IsOrdered : IsOrdered test_versions
test_versions-IsOrdered = record { total = leb_total; trans = leb_trans }

abbrev test_tags : List Text
test_tags = codes "2" ∷ codes "6a" ∷ codes "7" ∷ codes "6b" ∷ []

ranked_test : rank_final_versions test_versions test_tags ≡ codes "6a" ∷ codes "6b" ∷ codes "2" ∷ []
unfolding rank_final_versions collect_finals sort_reverse place final
ranked_test = refl

rank_final_versions-IsRanking_example :
    IsRanking test_versions test_tags (rank_final_versions test_versions test_tags)
rank_final_versions-IsRanking_example =
    rank_final_versions-IsRanking test_versions test_versions-IsOrdered test_tags

select_newest_version_tag-IsNewest_example :
    (n : ℕ) × (final test_versions (codes "6a") ≡ some n)
    × (elem (codes "6a") test_tags ≡ true)
    × All (IsNewest test_versions n) test_tags
unfolding select_newest_version_tag rank_final_versions collect_finals sort_reverse place final
select_newest_version_tag-IsNewest_example =
    select_newest_version_tag-IsNewest test_versions test_versions-IsOrdered test_tags (codes "6a")
      refl

-- A compiler for patterns of one character, and any other pattern invalid.
abbrev test_compiler : Compiler
test_compiler [] = none
test_compiler (c ∷ []) = some (λ t. elem c t)
test_compiler (c ∷ d ∷ s) = none

elem-filter_tags_example :
    elem (codes "2") (filter_tags test_compiler test_tags (some (codes "2")) (some (codes "(b")))
    ≡ (elem (codes "2") test_tags
        && is_wanted (override test_compiler (some (codes "2"))) (codes "2")
        && not (is_unwanted (override test_compiler (some (codes "(b"))) (codes "2")))
elem-filter_tags_example =
    elem-filter_tags test_compiler test_tags (some (codes "2")) (some (codes "(b")) (codes "2")
