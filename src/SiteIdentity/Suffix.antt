-- ===== src/SiteIdentity/Suffix.antt =====
-- A suffixed slug is a slug.
use ha_docker_compose.Prelude.{
  All, Bool-cases, List, Text, [], arith, decimal, decimal-All, decimal-cons, elem, inl, inr,
  is_digit, nat_eq, pair_eq, text_eq, true, ℕ, ◌++◌, ◌∷◌, ◌≡◌,
}
use ha_docker_compose.SiteIdentity.{suffixed, slugify_site_name, resolve_unique_site_slug}
use ha_docker_compose.SiteIdentity.Slug.{IsSlug, slugify_site_name-IsSlug}

digits-IsSlug : (c : ℕ) (s : Text) → All (λ d. is_digit d ≡ true) (c ∷ s) → IsSlug (c ∷ s)
digits-IsSlug c [] (h, _) = IsSlug.last c (ground (arith, h))
digits-IsSlug c (d ∷ s) (h, hs) = IsSlug.char c (d ∷ s) (ground (arith, h)) (digits-IsSlug d s hs)

underscore-IsSlug : (s t : Text) → IsSlug s → IsSlug t → IsSlug (s ++ b'_' ∷ t)
underscore-IsSlug _ t (IsSlug.last c h) k = IsSlug.gap c t h k
underscore-IsSlug _ t (IsSlug.char c s h i) k =
    IsSlug.char c (s ++ b'_' ∷ t) h (underscore-IsSlug s t i k)
underscore-IsSlug _ t (IsSlug.gap c s h i) k =
    IsSlug.gap c (s ++ b'_' ∷ t) h (underscore-IsSlug s t i k)

suffixed-IsSlug : (s : Text) (n : ℕ) → IsSlug s → IsSlug (suffixed s n)
unfolding suffixed
suffixed-IsSlug s n h =
    let (c, t, e) = decimal-cons n in
    underscore-IsSlug s (decimal n) h (rw e (digits-IsSlug c t (rw e at (decimal-All n))))

-- Resolving a name that was turned into a slug gives a slug, with or without a suffix.
pub resolve_unique_site_slug-IsSlug :
    (name : Text) (taken : List Text)
    → IsSlug (resolve_unique_site_slug (slugify_site_name name) taken)
unfolding resolve_unique_site_slug
resolve_unique_site_slug-IsSlug name taken =
    elim (Bool-cases (elem (slugify_site_name name) taken)) [
      | inl used ↦
          rw (used, resolve_unique_site_slug)
            (suffixed-IsSlug (slugify_site_name name) _ (slugify_site_name-IsSlug name))
      | inr free ↦ rw (free, resolve_unique_site_slug) (slugify_site_name-IsSlug name)
    ]
