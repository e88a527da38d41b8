-- ===== src/TagFilter/Ranking.antt =====
-- `rank_final_versions` and `select_newest_version_tag` of tag_filter.py against what a ranking is.
use ha_docker_compose.Prelude.{
  All, Bool, Bool-cases, List, Text, [], ap, arith, false, inl, inr, keep, map, none, refl, some,
  sym, true, ◌&&◌, ◌∙◌, ◌∷◌, ◌≡◌,
}
use mathlib.Core.List.{Perm}
use mathlib.Core.List.Perm
use ha_docker_compose.TagFilter.{
  rank_final_versions, Versions, IsOrdered, final, collect_finals, place, sort_reverse,
}

module _ (v : Versions) where
  open v use {Version, le}

  abbrev pub is_final : Text → Bool
  is_final t = elim (final v t) [ none ↦ false | some n ↦ true ]

  -- Whether a tag has a final version that is as new as `n`.
  abbrev pub is_as_new : Version → Text → Bool
  is_as_new n t = elim (final v t) [ none ↦ false | some m ↦ le n m && le m n ]

  -- No final version of `u` is newer than that of `t`.
  abbrev pub AtLeast : Text → Text → Type 0
  AtLeast t u = (a b : Version) → final v t ≡ some a → final v u ≡ some b → le b a ≡ true

  abbrev pub IsDescending : List Text → Type 0
  IsDescending [] = Unit
  IsDescending (t ∷ ts) = All (AtLeast t) ts × IsDescending ts

  -- What the ranking of a tag list is: the tags that are final releases, each as often as it was
  -- listed, the newest first, and tags of equal versions in the order of the list.
  pub record IsRanking (tags ranked : List Text) : Type 0 where
    pub finals : All (λ t. is_final t ≡ true) ranked
    pub descending : IsDescending ranked
    pub same_tags : Perm ranked (keep is_final tags)
    pub stable : (n : Version) → keep (is_as_new n) ranked ≡ keep (is_as_new n) tags

abbrev pub seconds {ℓ κ} : {A : Type ℓ} {B : Type κ} → List (A × B) → List B
seconds = map (λ p. p.1)

module _ (v : Versions) where
  open v use {Version, le}

  -- Each pair holds a tag with its final version.
  abbrev pub IsLabelled : Version × Text → Type 0
  IsLabelled p = final v p.1 ≡ some p.0

  pub collect_finals-IsLabelled : (tags : List Text) → All IsLabelled (collect_finals v tags)
  unfolding collect_finals
  collect_finals-IsLabelled [] = tt
  collect_finals-IsLabelled (t ∷ tags) = ground (arith, collect_finals-IsLabelled tags)

  seconds-collect_finals :
      (tags : List Text) → seconds (collect_finals v tags) ≡ keep (is_final v) tags
  unfolding collect_finals keep
  seconds-collect_finals [] = refl
  seconds-collect_finals (t ∷ tags) = ground (arith, seconds-collect_finals tags)

  place-All :
      (P : Version × Text → Type 0) (p : Version × Text) (qs : List (Version × Text))
      → P p
      → All P qs
      → All P (place v p qs)
  unfolding place
  place-All P p [] h hs = (h, tt)
  place-All P p (q ∷ qs) h hs = elim (Bool-cases (le q.0 p.0)) [
    | inl e ↦ rw (e, place) (h, hs)
    | inr e ↦ rw (e, place) (hs.0, place-All P p qs h hs.1)
  ]

  pub sort_reverse-All :
      (P : Version × Text → Type 0) (ps : List (Version × Text))
      → All P ps
      → All P (sort_reverse v ps)
  unfolding sort_reverse
  sort_reverse-All P [] h = tt
  sort_reverse-All P (p ∷ ps) h = place-All P p (sort_reverse v ps) h.0 (sort_reverse-All P ps h.1)

  place-perm :
      (p : Version × Text) (qs : List (Version × Text))
      → Perm (seconds (place v p qs)) (p.1 ∷ seconds qs)
  unfolding place
  place-perm p [] = Perm.refl (p.1 ∷ [])
  place-perm p (q ∷ qs) = elim (Bool-cases (le q.0 p.0)) [
    | inl e ↦ rw (e, place) (Perm.refl (p.1 ∷ q.1 ∷ seconds qs))
    | inr e ↦
        rw (e, place)
          (Perm.trans (Perm.cons q.1 (place-perm p qs)) (Perm.swap p.1 q.1 (seconds qs)))
  ]

  sort_reverse-perm : (ps : List (Version × Text)) → Perm (seconds (sort_reverse v ps)) (seconds ps)
  unfolding sort_reverse
  sort_reverse-perm [] = Perm.refl []
  sort_reverse-perm (p ∷ ps) =
      Perm.trans (place-perm p (sort_reverse v ps)) (Perm.cons p.1 (sort_reverse-perm ps))

  abbrev pub NoNewer : Version × Text → Version × Text → Type 0
  NoNewer p q = le q.0 p.0 ≡ true

  abbrev pub IsSorted : List (Version × Text) → Type 0
  IsSorted [] = Unit
  IsSorted (p ∷ ps) = All (NoNewer p) ps × IsSorted ps

module _ (v : Versions) (ordered : IsOrdered v) where
  open v use {Version, le}

  NoNewer-All :
      (p q : Version × Text) (qs : List (Version × Text))
      → le q.0 p.0 ≡ true
      → All (NoNewer v q) qs
      → All (NoNewer v p) qs
  NoNewer-All p q [] h hs = tt
  NoNewer-All p q (r ∷ qs) h hs = (ordered.trans r.0 q.0 p.0 hs.0 h, NoNewer-All p q qs h hs.1)

  place-IsSorted :
      (p : Version × Text) (qs : List (Version × Text)) → IsSorted v qs → IsSorted v (place v p qs)
  unfolding place
  place-IsSorted p [] h = (tt, tt)
  place-IsSorted p (q ∷ qs) h = elim (Bool-cases (le q.0 p.0)) [
    | inl e ↦ rw (e, place) ((e, NoNewer-All p q qs e h.0), h)
    | inr e ↦
        rw (e, place)
          (place-All v (NoNewer v q) p qs (ordered.total q.0 p.0 e) h.0, place-IsSorted p qs h.1)
  ]

  pub sort_reverse-IsSorted : (ps : List (Version × Text)) → IsSorted v (sort_reverse v ps)
  unfolding sort_reverse
  sort_reverse-IsSorted [] = tt
  sort_reverse-IsSorted (p ∷ ps) = place-IsSorted p (sort_reverse v ps) (sort_reverse-IsSorted ps)

  -- The members of one class of equal versions, in order.
  abbrev as_new : Version → Version × Text → Bool
  as_new n p = le n p.0 && le p.0 n

  place-stable :
      (n : Version) (p : Version × Text) (qs : List (Version × Text))
      → keep (as_new n) (place v p qs) ≡ keep (as_new n) (p ∷ qs)
  unfolding place keep
  place-stable n p [] = refl
  place-stable n p (q ∷ qs) = ground (arith, place-stable n p qs, ordered.trans q.0 n p.0)

  sort_reverse-stable :
      (n : Version) (ps : List (Version × Text))
      → keep (as_new n) (sort_reverse v ps) ≡ keep (as_new n) ps
  unfolding sort_reverse keep
  sort_reverse-stable n [] = refl
  sort_reverse-stable n (p ∷ ps) =
      ground (arith, place-stable n p (sort_reverse v ps), sort_reverse-stable n ps)

  keep-seconds :
      (n : Version) (ps : List (Version × Text))
      → All (IsLabelled v) ps
      → keep (is_as_new v n) (seconds ps) ≡ seconds (keep (as_new n) ps)
  unfolding keep
  keep-seconds n [] h = refl
  keep-seconds n (p ∷ ps) h = ground (arith, h.0, keep-seconds n ps h.1)

  keep-finals :
      (n : Version) (tags : List Text)
      → keep (is_as_new v n) tags ≡ keep (is_as_new v n) (keep (is_final v) tags)
  unfolding keep
  keep-finals n [] = refl
  keep-finals n (t ∷ tags) = ground (arith, keep-finals n tags)

  AtLeast-All :
      (p : Version × Text) (qs : List (Version × Text))
      → IsLabelled v p
      → All (IsLabelled v) qs
      → All (NoNewer v p) qs
      → All (AtLeast v p.1) (seconds qs)
  AtLeast-All p [] hp hqs h = tt
  AtLeast-All p (q ∷ qs) hp hqs h =
      (λ a b ha hb. ground (arith, hp, hqs.0, h.0, ha, hb), AtLeast-All p qs hp hqs.1 h.1)

  IsDescending-seconds :
      (ps : List (Version × Text))
      → All (IsLabelled v) ps
      → IsSorted v ps
      → IsDescending v (seconds ps)
  IsDescending-seconds [] h s = tt
  IsDescending-seconds (p ∷ ps) h s =
      (AtLeast-All p ps h.0 h.1 s.0, IsDescending-seconds ps h.1 s.1)

  IsLabelled-finals :
      (ps : List (Version × Text))
      → All (IsLabelled v) ps
      → All (λ t. is_final v t ≡ true) (seconds ps)
  IsLabelled-finals [] h = tt
  IsLabelled-finals (p ∷ ps) h = (ground (arith, h.0), IsLabelled-finals ps h.1)

  -- The ranking holds the tags that are final releases, each as often as it was listed, the newest
  -- version first, and tags of equal versions in the order of the list: what is no version, a dev
  -- release or a pre-release is left out.
  pub rank_final_versions-IsRanking :
      (tags : List Text) → IsRanking v tags (rank_final_versions v tags)
  unfolding rank_final_versions
  rank_final_versions-IsRanking tags =
      let pairs = collect_finals v tags in
      let labelled = collect_finals-IsLabelled v tags in
      let sorted_labelled = sort_reverse-All v (IsLabelled v) pairs labelled in
      record {
        finals = IsLabelled-finals (sort_reverse v pairs) sorted_labelled;
        descending =
            IsDescending-seconds (sort_reverse v pairs) sorted_labelled
              (sort_reverse-IsSorted pairs);
        same_tags = rw (← seconds-collect_finals v tags) (sort_reverse-perm v pairs);
        stable = λ n.
            keep-seconds n (sort_reverse v pairs) sorted_labelled
            ∙ ap seconds (sort_reverse-stable n pairs)
            ∙ sym (keep-seconds n pairs labelled)
            ∙ ap (keep (is_as_new v n)) (seconds-collect_finals v tags)
            ∙ sym (keep-finals n tags);
      }
