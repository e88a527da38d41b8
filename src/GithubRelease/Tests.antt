-- ===== src/GithubRelease/Tests.antt =====
-- Witnesses on github_release.py.
use ha_docker_compose.Prelude.{
  Text, codes, elem, nat_eq, none, pair_eq, partition, refl, some, strip, strip_class, text_beq,
  text_eq, ◌↔◌, ◌≡◌,
}
use ha_docker_compose.GithubRelease.{parse_github_repo}
use ha_docker_compose.GithubRelease.Urls.{IsRepoUrl, parse_github_repo_iff}

abbrev address : Text
address = codes " https://github.com/home-assistant/core.git "

parse_github_repo_iff_example :
    (parse_github_repo address ≡ some (codes "home-assistant", codes "core"))
    ↔ IsRepoUrl (strip address) (codes "home-assistant") (codes "core")
parse_github_repo_iff_example =
    parse_github_repo_iff address (codes "home-assistant") (codes "core")

parse_test : parse_github_repo address ≡ some (codes "home-assistant", codes "core")
unfolding parse_github_repo strip_class partition elem text_beq
parse_test = refl

-- A repository whose name holds a dot is not read.
dotted_test : parse_github_repo (codes "https://github.com/vercel/next.js") ≡ none
unfolding parse_github_repo strip_class partition elem text_beq
dotted_test = refl
