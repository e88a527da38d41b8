-- ===== src/GithubRelease.antt =====
-- custom_components/ha_docker_compose/github_release.py: the latest release of a GitHub repository. The
-- HTTP session is a parameter; its replies are by the parts that are read.
mod Tests
pub mod Urls
use ha_docker_compose.Prelude.{
  Bool, List, Option, Text, [], codes, elem, false, if◌then◌else◌, nat_eq, none, pair_eq, partition,
  some, strip, text_eq, true, ℕ, ◌&&◌, ◌++◌, ◌==◌, ◌||◌, ◌∷◌,
}
use ha_docker_compose.ComposeFile.{truthy}

abbrev pub oci_source_label : Text
oci_source_label = codes "org.opencontainers.image.source"

pub record GitHubRelease : Type 0 where
  pub tag_name : Text
  pub published_at : Option Text
  pub html_url : Option Text
  pub body : Option Text

-- What follows a prefix, if the text begins with it.
unfoldable pub after : Text → Text → Option Text
after [] s = some s
after (c ∷ p) [] = none
after (c ∷ p) (d ∷ s) = let rest = after p s in if c == d then rest else none

abbrev pub https : Text
https = codes "https://"

abbrev pub http : Text
http = codes "http://"

abbrev pub github : Text
github = codes "github.com/"

-- `(?:https?://)?`
unfoldable pub without_scheme : Text → Text
unfolding after
without_scheme s = elim (after https s) [
  | some rest ↦ rest
  | none ↦ elim (after http s) [ some rest ↦ rest | none ↦ s ]
]

-- `[^/.]+?`: as many characters as there are, since nothing behind the name begins with one of them.
unfoldable pub span_repo : Text → Text × Text
span_repo [] = ([], [])
span_repo (c ∷ s) =
    let (repo, suffix) = span_repo s in
    if c == b'/' || c == b'.' then ([], c ∷ s) else (c ∷ repo, suffix)

-- `(?:\.git)?/?$`
abbrev pub suffixes : List Text
suffixes = [] ∷ codes ".git" ∷ codes "/" ∷ codes ".git/" ∷ []

abbrev pub is_filled : Text → Bool
is_filled [] = false
is_filled (c ∷ s) = true

unfoldable pub repo_of : Text → Text → Option (Text × Text)
unfolding span_repo
repo_of owner rest =
    let (repo, suffix) = span_repo rest in
    if is_filled owner && is_filled repo && elem suffix suffixes then some (owner, repo) else none

-- The path behind the host, if there is one.
unfoldable pub match_path : Option Text → Option (Text × Text)
unfolding repo_of
match_path none = none
match_path (some path) = elim (partition b'/' path) [
  | none ↦ none
  | some (owner, rest) ↦ repo_of owner rest
]

-- `_GITHUB_URL_RE.match`, by its groups
unfoldable pub match_url : Text → Option (Text × Text)
unfolding without_scheme match_path after
match_url s = match_path (after github (without_scheme s))

unfoldable pub parse_github_repo : Text → Option (Text × Text)
unfolding match_url
parse_github_repo source_url = match_url (strip source_url)

-- The status of a response and the fields of its body, or an error of the client, or a timeout.
pub record Release : Type 0 where
  pub status : ℕ
  pub tag_name : Option Text
  pub published_at : Option Text
  pub html_url : Option Text
  pub body : Option Text

pub data Response : Type 0 where
  reply : Release → Response
  client_error timed_out : Response

unfoldable pub release_of : Response → Option GitHubRelease
release_of (reply r) =
    if r.status == 200
    then elim (truthy r.tag_name) [
      | none ↦ none
      | some tag_name ↦ some (record {
        tag_name = tag_name;
        published_at = r.published_at;
        html_url = r.html_url;
        body = r.body;
      })
    ]
    else none
release_of _ = none

abbrev pub release_url : Text → Text → Text
release_url owner repo =
    codes "https://api.github.com/repos/" ++ (owner ++ b'/' ∷ (repo ++ codes "/releases/latest"))

module _ (World : Type 0) (get : Text → World → Response × World) where
  unfoldable pub fetch_latest_release : Text → Text → World → Option GitHubRelease × World
  unfolding release_of
  fetch_latest_release owner repo w =
      let (response, w') = get (release_url owner repo) w in (release_of response, w')
