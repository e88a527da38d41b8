-- ===== src/SiteIdentity/Slug.antt =====
-- `slugify_site_name` of site_identity.py: the form of a slug.
use ha_docker_compose.Prelude.{
  Bool, Bool-cases, Text, [], ap, arith, codes, drop_while, false, if◌then◌else◌, inl, inr,
  is_space, lower, refl, strip, strip_class, true, ℕ, ◌++◌, ◌∷◌, ◌≡◌, ◌⊎◌,
}
use mathlib.Core.List.{reverse, reverse-append, reverse-reverse}
use ha_docker_compose.SiteIdentity.{slugify_site_name, is_underscore, is_alnum, collapse}

-- Lower-case letters and digits, with single underscores between them.
pub data IsSlug : Text → Type 0 where
  last : (c : ℕ) → is_alnum c ≡ true → IsSlug (c ∷ [])
  char : (c : ℕ) (s : Text) → is_alnum c ≡ true → IsSlug s → IsSlug (c ∷ s)
  gap : (c : ℕ) (s : Text) → is_alnum c ≡ true → IsSlug s → IsSlug (c ∷ b'_' ∷ s)

-- Nothing, or a slug with at most one underscore behind it.
data IsTrimmed : Text → Type 0 where
  blank : IsTrimmed []
  plain : (s : Text) → IsSlug s → IsTrimmed s
  trailing : (s : Text) → IsSlug s → IsTrimmed (s ++ b'_' ∷ [])

data IsCollapsed : Text → Type 0 where
  trimmed : (s : Text) → IsTrimmed s → IsCollapsed s
  leading : (s : Text) → IsTrimmed s → IsCollapsed (b'_' ∷ s)

IsTrimmed-cons : (c : ℕ) (s : Text) → is_alnum c ≡ true → IsCollapsed s → IsTrimmed (c ∷ s)
IsTrimmed-cons c _ h (trimmed _ blank) = plain (c ∷ []) (last c h)
IsTrimmed-cons c _ h (trimmed _ (plain s k)) = plain (c ∷ s) (char c s h k)
IsTrimmed-cons c _ h (trimmed _ (trailing s k)) = trailing (c ∷ s) (char c s h k)
IsTrimmed-cons c _ h (leading _ blank) = trailing (c ∷ []) (last c h)
IsTrimmed-cons c _ h (leading _ (plain s k)) = plain (c ∷ b'_' ∷ s) (gap c s h k)
IsTrimmed-cons c _ h (leading _ (trailing s k)) = trailing (c ∷ b'_' ∷ s) (gap c s h k)

collapse-alnum :
    (b : Bool) (c : ℕ) (s : Text) → is_alnum c ≡ true → collapse b (c ∷ s) ≡ c ∷ collapse false s
unfolding collapse
collapse-alnum b c s h = rw (h, collapse)

collapse-other :
    (b : Bool) (c : ℕ) (s : Text)
    → is_alnum c ≡ false
    → collapse b (c ∷ s) ≡ (if b then collapse true s else b'_' ∷ collapse true s)
unfolding collapse
collapse-other b c s h = rw (h, collapse)

-- One statement for both states of the scan.
collapse_forms : (s : Text) → IsTrimmed (collapse true s) × IsCollapsed (collapse false s)
collapse_forms [] = unfold collapse in (blank, trimmed [] blank)
collapse_forms (c ∷ s) = elim (Bool-cases (is_alnum c)) [
  | inl alnum ↦
      let t = IsTrimmed-cons c (collapse false s) alnum (collapse_forms s).1 in
      rw (collapse-alnum true c s alnum, collapse-alnum false c s alnum) (t, trimmed _ t)
  | inr other ↦
      rw (collapse-other true c s other, collapse-other false c s other)
        ((collapse_forms s).0, leading _ (collapse_forms s).0)
]

alnum-underscore : (c : ℕ) → is_alnum c ≡ true → is_underscore c ≡ false
alnum-underscore c h = ground arith

IsSlug-first : (s : Text) → IsSlug s → (c : ℕ) × (t : Text) × (s ≡ c ∷ t) × (is_alnum c ≡ true)
IsSlug-first _ (last c h) = (c, [], refl, h)
IsSlug-first _ (char c s h k) = (c, s, refl, h)
IsSlug-first _ (gap c s h k) = (c, b'_' ∷ s, refl, h)

IsSlug-last : (s : Text) → IsSlug s → (i : Text) × (c : ℕ) × (s ≡ i ++ c ∷ []) × (is_alnum c ≡ true)
IsSlug-last _ (last c h) = ([], c, refl, h)
IsSlug-last _ (char c s h k) =
    let (i, d, e, a) = IsSlug-last s k in (c ∷ i, d, ap (λ t. c ∷ t) e, a)
IsSlug-last _ (gap c s h k) =
    let (i, d, e, a) = IsSlug-last s k in (c ∷ b'_' ∷ i, d, ap (λ t. c ∷ b'_' ∷ t) e, a)

module _ (p : ℕ → Bool) where
  drop_while-stop : (c : ℕ) (s : Text) → p c ≡ false → drop_while p (c ∷ s) ≡ c ∷ s
  unfolding drop_while
  drop_while-stop c s h = rw h

  drop_while-skip : (c : ℕ) (s : Text) → p c ≡ true → drop_while p (c ∷ s) ≡ drop_while p s
  unfolding drop_while
  drop_while-skip c s h = rw h

  -- Behind the last character that stays, one character is stripped.
  strip_end-keep :
      (i : Text) (d : ℕ)
      → p d ≡ false
      → reverse (drop_while p (reverse (i ++ d ∷ []))) ≡ i ++ d ∷ []
  strip_end-keep i d hd =
      rw (reverse-append i (d ∷ []), drop_while-stop d (reverse i) hd)
        (rw (← reverse-append i (d ∷ [])) (reverse-reverse (i ++ d ∷ [])))

  strip_end-drop :
      (i : Text) (d x : ℕ)
      → p d ≡ false
      → p x ≡ true
      → reverse (drop_while p (reverse ((i ++ d ∷ []) ++ x ∷ []))) ≡ i ++ d ∷ []
  strip_end-drop i d x hd hx =
      rw (reverse-append (i ++ d ∷ []) (x ∷ []), drop_while-skip x (reverse (i ++ d ∷ [])) hx)
        (strip_end-keep i d hd)

-- Stripping characters that are no letters or digits leaves a slug alone.
strip_class-IsSlug :
    (p : ℕ → Bool) (s : Text)
    → ((c : ℕ) → is_alnum c ≡ true → p c ≡ false)
    → IsSlug s
    → strip_class p s ≡ s
unfolding strip_class
strip_class-IsSlug p s clear k =
    let (c, t, first, hc) = IsSlug-first s k in
    let (i, d, end, hd) = IsSlug-last s k in
    let front : drop_while p s ≡ s = rw first (drop_while-stop p c t (clear c hc)) in
    rw (front, end) (strip_end-keep p i d (clear d hd))

strip-trailing : (s : Text) → IsSlug s → strip_class is_underscore (s ++ b'_' ∷ []) ≡ s
unfolding strip_class
strip-trailing s k =
    let (c, t, first, hc) = IsSlug-first s k in
    let (i, d, end, hd) = IsSlug-last s k in
    let front : drop_while is_underscore (s ++ b'_' ∷ []) ≡ s ++ b'_' ∷ [] =
      rw first (drop_while-stop is_underscore c (t ++ b'_' ∷ []) (alnum-underscore c hc)) in
    rw (front, end) (strip_end-drop is_underscore i d b'_' (alnum-underscore d hd) refl)

strip-leading : (s : Text) → strip_class is_underscore (b'_' ∷ s) ≡ strip_class is_underscore s
unfolding strip_class drop_while
strip-leading s = refl

abbrev IsBlankOrSlug : Text → Type 0
IsBlankOrSlug s = (s ≡ []) ⊎ IsSlug s

strip-IsTrimmed : (s : Text) → IsTrimmed s → IsBlankOrSlug (strip_class is_underscore s)
strip-IsTrimmed _ blank = inl (unfold strip_class drop_while in refl)
strip-IsTrimmed _ (plain s k) = inr (rw (strip_class-IsSlug is_underscore s alnum-underscore k) k)
strip-IsTrimmed _ (trailing s k) = inr (rw (strip-trailing s k) k)

strip-IsCollapsed : (s : Text) → IsCollapsed s → IsBlankOrSlug (strip_class is_underscore s)
strip-IsCollapsed _ (trimmed s t) = strip-IsTrimmed s t
strip-IsCollapsed _ (leading s t) = rw strip-leading (strip-IsTrimmed s t)

site-IsSlug : IsSlug (codes "site")
site-IsSlug = search (last, char) depth 9

-- The slug of any site name is made of lower-case letters and digits with single underscores
-- between them: it is never empty, and neither begins nor ends with an underscore.
pub slugify_site_name-IsSlug : (name : Text) → IsSlug (slugify_site_name name)
unfolding slugify_site_name
slugify_site_name-IsSlug name =
    or_site (strip_class is_underscore (collapse false (lower (strip name))))
      (strip-IsCollapsed _ (collapse_forms (lower (strip name))).1)
  where
    or_site : (s : Text) → IsBlankOrSlug s → IsSlug (elim s [ [] ↦ codes "site" | c ∷ t ↦ c ∷ t ])
    or_site [] h = site-IsSlug
    or_site (c ∷ t) (inl e) = cc
    or_site (c ∷ t) (inr k) = k

strip-IsSlug : (s : Text) → IsSlug s → strip s ≡ s
strip-IsSlug s k = strip_class-IsSlug is_space s (λ c h. ground (arith, h)) k

lower-IsSlug : (s : Text) → IsSlug s → lower s ≡ s
lower-IsSlug _ (last c h) = ground arith
lower-IsSlug _ (char c s h k) = ground (arith, lower-IsSlug s k)
lower-IsSlug _ (gap c s h k) = ground (arith, lower-IsSlug s k)

collapse-IsSlug : (b : Bool) (s : Text) → IsSlug s → collapse b s ≡ s
unfolding collapse
collapse-IsSlug b _ (last c h) = ground arith
collapse-IsSlug b _ (char c s h k) = ground (arith, collapse-IsSlug false s k)
collapse-IsSlug b _ (gap c s h k) = ground (arith, collapse-IsSlug true s k)

-- A text that is a slug already is its own slug.
pub slugify_site_name-IsSlug_self : (s : Text) → IsSlug s → slugify_site_name s ≡ s
unfolding slugify_site_name
slugify_site_name-IsSlug_self s k =
    let (c, t, first, _) = IsSlug-first s k in
    let steps : strip_class is_underscore (collapse false (lower (strip s))) ≡ s =
      rw (strip-IsSlug s k, lower-IsSlug s k, collapse-IsSlug false s k)
        (strip_class-IsSlug is_underscore s alnum-underscore k) in
    ground (arith, steps, first)
