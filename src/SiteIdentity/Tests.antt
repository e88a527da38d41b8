-- ===== src/SiteIdentity/Tests.antt =====
-- Tests and witnesses on site_identity.py.
use ha_docker_compose.Prelude.{
  List, Text, [], codes, decimal, drop_while, elem, false, nat_eq, pair_eq, refl, strip_class,
  text_beq, text_eq, true, ℕ, ◌<◌, ◌∷◌, ◌≡◌, ◌≤◌,
}
use ha_docker_compose.SiteIdentity.{
  free_suffix, slugify_site_name, suffixed, resolve_unique_site_slug,
}
use ha_docker_compose.SiteIdentity.Unique.{resolve_unique_site_slug_least}

slugify_test : slugify_site_name (codes " My  Site! ") ≡ codes "my_site"
unfolding slugify_site_name strip_class drop_while
slugify_test = refl

abbrev taken_slugs : List Text
taken_slugs = codes "home" ∷ codes "home_2" ∷ []

unique_test : resolve_unique_site_slug (codes "home") taken_slugs ≡ codes "home_3"
unfolding resolve_unique_site_slug free_suffix suffixed elem text_beq decimal
unique_test = refl

resolve_unique_site_slug_least_example :
    (elem (codes "home") taken_slugs ≡ false
      → resolve_unique_site_slug (codes "home") taken_slugs ≡ codes "home")
    × (elem (codes "home") taken_slugs ≡ true
        → (n : ℕ) × (resolve_unique_site_slug (codes "home") taken_slugs
            ≡ suffixed (codes "home") n)
          × (2 ≤ n)
          × (elem (suffixed (codes "home") n) taken_slugs ≡ false)
          × ((i : ℕ) → 2 ≤ i → i < n → elem (suffixed (codes "home") i) taken_slugs ≡ true))
resolve_unique_site_slug_least_example = resolve_unique_site_slug_least (codes "home") taken_slugs
