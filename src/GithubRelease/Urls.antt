-- ===== src/GithubRelease/Urls.antt =====
-- `parse_github_repo` of github_release.py against the addresses that it is to read.
use ha_docker_compose.Prelude.{
  Bool, List, Option-cases, Text, [], all, ap, arith, elem, eq_iff, false, inl, inr, nat_eq, not,
  pair_eq, partition, partition-append, partition-some, refl, some, strip, text_beq, text_eq, true,
  ℕ, ◌++◌, ◌==◌, ◌||◌, ◌↔◌, ◌∙◌, ◌∷◌, ◌≡◌, ◌⊎◌,
}
use ha_docker_compose.GithubRelease.{
  after, https, http, github, without_scheme, span_repo, suffixes, is_filled, repo_of, match_path,
  match_url, parse_github_repo,
}

abbrev pub schemes : List Text
schemes = https ∷ http ∷ [] ∷ []

abbrev pub is_plain : ℕ → Bool
is_plain c = not (c == b'/' || c == b'.')

-- An address of a repository: one of the schemes, the host, an owner without `/`, and a name without `/`
-- and `.`, both not empty, and one of the endings.
pub record IsRepoUrl (url owner repo : Text) : Type 0 where
  pub scheme : Text
  pub suffix : Text
  pub scheme_known : elem scheme schemes ≡ true
  pub suffix_known : elem suffix suffixes ≡ true
  pub spelled : url ≡ scheme ++ (github ++ (owner ++ b'/' ∷ (repo ++ suffix)))
  pub owner_filled : is_filled owner ≡ true
  pub repo_filled : is_filled repo ≡ true
  pub owner_plain : elem b'/' owner ≡ false
  pub repo_plain : all is_plain repo ≡ true

after-append : (p s : Text) → after p (p ++ s) ≡ some s
unfolding after
after-append [] s = refl
after-append (c ∷ p) s = ground (arith, after-append p s)

after-some : (p s r : Text) → after p s ≡ some r → s ≡ p ++ r
unfolding after
after-some [] s r h = cc
after-some (c ∷ p) [] r h = cc
after-some (c ∷ p) (d ∷ s) r h = ground (arith, after-some p s r)

without_scheme-known :
    (s : Text) → (scheme : Text) × (elem scheme schemes ≡ true) × (s ≡ scheme ++ without_scheme s)
unfolding without_scheme elem text_beq
without_scheme-known s = elim (Option-cases (after https s)) [
  | inr (r, e) ↦ (https, refl, ground (arith, e, after-some https s r e))
  | inl e ↦ elim (Option-cases (after http s)) [
    | inr (r, f) ↦ (http, refl, ground (arith, e, f, after-some http s r f))
    | inl f ↦ ([], refl, ground (arith, e, f))
  ]
]

span_repo-append :
    (s : Text) → (s ≡ (span_repo s).0 ++ (span_repo s).1) × (all is_plain (span_repo s).0 ≡ true)
unfolding span_repo all
span_repo-append [] = (refl, refl)
span_repo-append (c ∷ s) = ground (arith, span_repo-append s)

-- What none of the endings begins with belongs to the name.
span_repo-suffix : (suffix : Text) → elem suffix suffixes ≡ true → span_repo suffix ≡ ([], suffix)
unfolding span_repo elem text_beq
span_repo-suffix [] h = refl
span_repo-suffix (c ∷ s) h = ground (arith, h)

span_repo-plain :
    (repo suffix : Text)
    → all is_plain repo ≡ true
    → elem suffix suffixes ≡ true
    → span_repo (repo ++ suffix) ≡ (repo, suffix)
unfolding span_repo all
span_repo-plain [] suffix h k = span_repo-suffix suffix k
span_repo-plain (c ∷ repo) suffix h k = ground (arith, span_repo-plain repo suffix, h, k)

repo_of-some :
    (owner rest o r : Text)
    → repo_of owner rest ≡ some (o, r)
    → (owner ≡ o)
      × ((span_repo rest).0 ≡ r)
      × (is_filled o ≡ true)
      × (is_filled r ≡ true)
      × (elem (span_repo rest).1 suffixes ≡ true)
unfolding repo_of
repo_of-some owner rest o r h = ground (arith, h)

match_url_sound :
    (url owner repo : Text) → match_url url ≡ some (owner, repo) → IsRepoUrl url owner repo
unfolding match_url match_path
match_url_sound url owner repo h = elim (Option-cases (after github (without_scheme url))) [
  | inl e ↦ absurd (ground (arith, e, h))
  | inr (path, e) ↦ elim (Option-cases (partition b'/' path)) [
    | inl f ↦ absurd (ground (arith, e, f, h))
    | inr ((o, rest), f) ↦
        let (same, name, of, rf, known) =
          repo_of-some o rest owner repo (ground (arith, e, f, h)) in
        let (scheme, ks, spelled) = without_scheme-known url in
        let (split, plain) = span_repo-append rest in
        let (path_split, lacks) = partition-some b'/' path o rest f in
        let host = after-some github (without_scheme url) path e in
        record {
          scheme = scheme;
          suffix = (span_repo rest).1;
          scheme_known = ks;
          suffix_known = known;
          spelled = cc;
          owner_filled = of;
          repo_filled = rf;
          owner_plain = rw same at lacks;
          repo_plain = rw name at plain;
        }
  ]
]

schemes-cases : (s : Text) → elem s schemes ≡ true → (s ≡ https) ⊎ (s ≡ http) ⊎ (s ≡ [])
unfolding elem
schemes-cases s h = ground (arith, h, eq_iff https s, eq_iff http s, eq_iff [] s)

without_scheme-append :
    (s x : Text) → elem s schemes ≡ true → without_scheme (s ++ (github ++ x)) ≡ github ++ x
unfolding without_scheme after
without_scheme-append s x h = elim (schemes-cases s h) [
  | inl e ↦ rw e refl
  | inr (inl e) ↦ rw e refl
  | inr (inr e) ↦ rw e refl
]

path-spelled :
    (url owner repo : Text) (h : IsRepoUrl url owner repo)
    → after github (without_scheme url) ≡ some (owner ++ b'/' ∷ (repo ++ h.suffix))
path-spelled url owner repo h =
    let path : Text = owner ++ b'/' ∷ (repo ++ h.suffix) in
    ap (λ u. after github (without_scheme u)) h.spelled
    ∙ ap (after github) (without_scheme-append h.scheme path h.scheme_known)
    ∙ after-append github path

match_path_complete :
    (url owner repo : Text) (h : IsRepoUrl url owner repo)
    → match_path (some (owner ++ b'/' ∷ (repo ++ h.suffix))) ≡ some (owner, repo)
unfolding match_path repo_of
match_path_complete url owner repo h = rw (
  match_path,
  partition-append b'/' owner (repo ++ h.suffix) h.owner_plain,
  repo_of,
  span_repo-plain repo h.suffix h.repo_plain h.suffix_known,
  h.owner_filled,
  h.repo_filled,
  h.suffix_known,
)

match_url_complete :
    (url owner repo : Text) → IsRepoUrl url owner repo → match_url url ≡ some (owner, repo)
unfolding match_url
match_url_complete url owner repo h =
    ap match_path (path-spelled url owner repo h) ∙ match_path_complete url owner repo h

-- A label is read as a repository exactly if it is, without the space around it, an address of one: `http`
-- or `https` or no scheme, the host, an owner, a name without `.` and `/`, and the endings `.git`, `/`,
-- `.git/` or none.
pub parse_github_repo_iff :
    (source_url owner repo : Text)
    → (parse_github_repo source_url ≡ some (owner, repo)) ↔ IsRepoUrl (strip source_url) owner repo
unfolding parse_github_repo
parse_github_repo_iff source_url owner repo = (
  match_url_sound (strip source_url) owner repo,
  match_url_complete (strip source_url) owner repo,
)
