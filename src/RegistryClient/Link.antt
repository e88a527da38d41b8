-- ===== src/RegistryClient/Link.antt =====
-- `_parse_next_link` of registry_client.py: the pattern `<([^>]+)>\s*;\s*rel="?next"?`, searched for.
use ha_docker_compose.Prelude.{
  Bool, Option, Text, [], arith, codes, drop_while, elem, false, if◌then◌else◌, is_space, nat_eq,
  none, or_else, pair_eq, partition, partition-append, refl, some, starts_with, text_eq, ℕ, ◌++◌,
  ◌==◌, ◌||◌, ◌∷◌, ◌≡◌, ◌≢◌,
}
use mathlib.Core.List.{reverse}

-- The text in front of the first `>`, with what stands behind it.
abbrev pub bracketed : Text → Option (Text × Text)
bracketed = partition b'>'

abbrev skip_quote : Text → Text
skip_quote [] = []
skip_quote (c ∷ s) = if c == b'"' then s else c ∷ s

abbrev expect : Text → Text → Option Text
expect [] s = some s
expect (c ∷ p) [] = none
expect (c ∷ p) (d ∷ s) = if c == d then expect p s else none

-- `\s*;\s*rel="?next"?`
unfoldable pub is_next_rel : Text → Bool
is_next_rel s = elim (expect (codes ";") (drop_while is_space s)) [
  | none ↦ false
  | some t ↦ elim (expect (codes "rel=") (drop_while is_space t)) [
    | none ↦ false
    | some u ↦ starts_with (codes "next") (skip_quote u)
  ]
]

-- A match of the pattern behind a `<`; the group is not empty.
unfoldable pub match_link : Text → Option Text
unfolding is_next_rel
match_link s = elim (bracketed s) [
  | none ↦ none
  | some ([], behind) ↦ none
  | some (c ∷ ref, behind) ↦ if is_next_rel behind then some (c ∷ ref) else none
]

-- `_LINK_NEXT_RE.search(…)`: the first match from the left
unfoldable pub search_link : Text → Option Text
unfolding match_link
search_link [] = none
search_link (c ∷ s) =
    let rest = search_link s in if c == b'<' then or_else (match_link s) rest else rest

abbrev pub is_slash : ℕ → Bool
is_slash c = c == b'/'

-- `s.rstrip("/")`
abbrev pub rstrip_slash : Text → Text
rstrip_slash s = reverse (drop_while is_slash (reverse s))

-- a relative reference is taken from the registry's address
unfoldable pub resolve_ref : Text → Text → Text
resolve_ref next_ref registry_url =
    if starts_with (codes "http://") next_ref || starts_with (codes "https://") next_ref
    then next_ref
    else rstrip_slash registry_url ++ b'/' ∷ drop_while is_slash next_ref

unfoldable pub parse_next_link : Option Text → Text → Option Text
unfolding search_link resolve_ref
parse_next_link link_header registry_url = elim link_header [
  | none ↦ none
  | some header ↦ elim (search_link header) [
    | none ↦ none
    | some next_ref ↦ some (resolve_ref next_ref registry_url)
  ]
]

match_link-header :
    (c : ℕ) (ref : Text)
    → elem b'>' (c ∷ ref) ≡ false
    → match_link ((c ∷ ref) ++ codes ">; rel=\"next\"") ≡ some (c ∷ ref)
unfolding match_link drop_while starts_with
match_link-header c ref h =
    rw (partition-append b'>' (c ∷ ref) (codes "; rel=\"next\"") h, match_link)

-- The header that a registry sends for a next page is read back: the reference that stands between
-- the brackets, absolute as it is or relative to the registry.
pub parse_next_link-header :
    (ref registry_url : Text)
    → ref ≢ []
    → elem b'>' ref ≡ false
    → parse_next_link (some (b'<' ∷ (ref ++ codes ">; rel=\"next\""))) registry_url
      ≡ some (resolve_ref ref registry_url)
unfolding parse_next_link
parse_next_link-header [] registry_url full h = absurd (full refl)
parse_next_link-header (c ∷ ref) registry_url full h = ground (arith, match_link-header c ref h)
