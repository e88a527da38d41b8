-- ===== src/TagFilter/Newest.antt =====
-- `select_newest_version_tag` of tag_filter.py.
use ha_docker_compose.Prelude.{
  All, Bool-cases, List, Option-cases, Text, [], arith, elem, eq_refl, inl, inr, nat_eq, none,
  pair_eq, refl, some, text_eq, true, ◌∷◌, ◌≡◌,
}
use ha_docker_compose.TagFilter.{
  Versions, IsOrdered, final, collect_finals, place, sort_reverse, rank_final_versions,
  select_newest_version_tag,
}
use ha_docker_compose.TagFilter.Ranking.{
  IsLabelled, NoNewer, IsSorted, seconds, collect_finals-IsLabelled, sort_reverse-All,
  sort_reverse-IsSorted,
}

module _ (v : Versions) where
  open v use {Version, le}

  -- What sorting keeps, it also had.
  place-All_inv :
      (P : Version × Text → Type 0) (p : Version × Text) (qs : List (Version × Text))
      → All P (place v p qs)
      → P p × All P qs
  unfolding place
  place-All_inv P p [] h = h
  place-All_inv P p (q ∷ qs) h = elim (Bool-cases (le q.0 p.0)) [
    | inl e ↦ rw (e, place) at h
    | inr e ↦
        let h' : P q × All P (place v p qs) = rw (e, place) at h in
        let (hp, hqs) = place-All_inv P p qs h'.1 in (hp, (h'.0, hqs))
  ]

  sort_reverse-All_inv :
      (P : Version × Text → Type 0) (ps : List (Version × Text))
      → All P (sort_reverse v ps)
      → All P ps
  unfolding sort_reverse
  sort_reverse-All_inv P [] h = tt
  sort_reverse-All_inv P (p ∷ ps) h =
      let (hp, hs) = place-All_inv P p (sort_reverse v ps) h in (hp, sort_reverse-All_inv P ps hs)

  elem-All :
      (t : Text) (ts tags : List Text)
      → All (λ u. elem u tags ≡ true) ts
      → All (λ u. elem u (t ∷ tags) ≡ true) ts
  unfolding elem
  elem-All t [] tags h = tt
  elem-All t (u ∷ ts) tags h = (ground (arith, h.0), elem-All t ts tags h.1)

  elem_self : (tags : List Text) → All (λ u. elem u tags ≡ true) tags
  elem_self [] = tt
  elem_self (t ∷ tags) = (unfold elem in rw (eq_refl t), elem-All t tags tags (elem_self tags))

  collect_finals-elem :
      (ts tags : List Text)
      → All (λ u. elem u tags ≡ true) ts
      → All (λ p. elem p.1 tags ≡ true) (collect_finals v ts)
  unfolding collect_finals
  collect_finals-elem [] tags h = tt
  collect_finals-elem (t ∷ ts) tags h = ground (arith, h.0, collect_finals-elem ts tags h.1)

  -- No final version among the tags is newer than `n`.
  abbrev pub IsNewest : Version → Text → Type 0
  IsNewest n u = (m : Version) → final v u ≡ some m → le m n ≡ true

  NoNewer-IsNewest :
      (p : Version × Text) (tags : List Text)
      → All (NoNewer v p) (collect_finals v tags)
      → All (IsNewest p.0) tags
  unfolding collect_finals
  NoNewer-IsNewest p [] h = tt
  NoNewer-IsNewest p (t ∷ tags) h = elim (Option-cases (final v t)) [
    | inl e ↦ (λ m f. cc, NoNewer-IsNewest p tags (rw (e, collect_finals) at h))
    | inr (n, e) ↦
        let h' : NoNewer v p (n, t) × All (NoNewer v p) (collect_finals v tags) =
          rw (e, collect_finals) at h in
        (λ m f. ground (arith, e, f, h'.0), NoNewer-IsNewest p tags h'.1)
  ]

  collect_finals-empty :
      (tags : List Text) → All (λ p. ⊥) (collect_finals v tags) → All (λ u. final v u ≡ none) tags
  unfolding collect_finals
  collect_finals-empty [] h = tt
  collect_finals-empty (t ∷ tags) h = elim (Option-cases (final v t)) [
    | inl e ↦ (e, collect_finals-empty tags (rw (e, collect_finals) at h))
    | inr (n, e) ↦
        let h' : ⊥ × All (λ p. ⊥) (collect_finals v tags) = rw (e, collect_finals) at h in
        absurd h'.0
  ]

  -- Nothing is selected only if no tag of the list is a final release.
  pub select_newest_version_tag-none :
      (tags : List Text)
      → select_newest_version_tag v tags ≡ none
      → All (λ u. final v u ≡ none) tags
  unfolding select_newest_version_tag rank_final_versions
  select_newest_version_tag-none tags h = bottom (sort_reverse v (collect_finals v tags)) refl h
    where
      bottom :
          (ps : List (Version × Text))
          → sort_reverse v (collect_finals v tags) ≡ ps
          → elim (seconds ps) [ [] ↦ none | u ∷ us ↦ some u ] ≡ none
          → All (λ u. final v u ≡ none) tags
      bottom [] e h =
          collect_finals-empty tags
            (sort_reverse-All_inv (λ p. ⊥) (collect_finals v tags) (rw e tt))
      bottom (p ∷ ps) e h = cc

module _ (v : Versions) (ordered : IsOrdered v) where
  open v use {Version, le}

  le_refl : (a : Version) → le a a ≡ true
  le_refl a = ground (arith, ordered.total a a)

  -- The selected tag is one of the list, is a final release, and no final release of the list is
  -- newer.
  pub select_newest_version_tag-IsNewest :
      (tags : List Text) (t : Text)
      → select_newest_version_tag v tags ≡ some t
      → (n : Version) × (final v t ≡ some n) × (elem t tags ≡ true) × All (IsNewest v n) tags
  unfolding select_newest_version_tag rank_final_versions
  select_newest_version_tag-IsNewest tags t h = top (sort_reverse v (collect_finals v tags)) refl h
    where
      top :
          (ps : List (Version × Text))
          → sort_reverse v (collect_finals v tags) ≡ ps
          → elim (seconds ps) [ [] ↦ none | u ∷ us ↦ some u ] ≡ some t
          → (n : Version) × (final v t ≡ some n) × (elem t tags ≡ true) × All (IsNewest v n) tags
      top [] e h = cc
      top (p ∷ ps) e h =
          let same : p.1 ≡ t = cc in
          let labelled =
            sort_reverse-All v (IsLabelled v) (collect_finals v tags)
              (collect_finals-IsLabelled v tags) in
          let listed =
            sort_reverse-All v (λ q. elem q.1 tags ≡ true) (collect_finals v tags)
              (collect_finals-elem v tags tags (elem_self v tags)) in
          let sorted = sort_reverse-IsSorted v ordered (collect_finals v tags) in
          let labelled' : All (IsLabelled v) (p ∷ ps) = rw e at labelled in
          let listed' : All (λ q. elem q.1 tags ≡ true) (p ∷ ps) = rw e at listed in
          let sorted' : IsSorted v (p ∷ ps) = rw e at sorted in
          let above : All (NoNewer v p) (p ∷ ps) = (le_refl p.0, sorted'.0) in
          (
            p.0,
            rw (← same) labelled'.0,
            rw (← same) listed'.0,
            NoNewer-IsNewest v p tags
                (sort_reverse-All_inv v (NoNewer v p) (collect_finals v tags) (rw e above)),
          )
