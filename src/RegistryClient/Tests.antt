-- ===== src/RegistryClient/Tests.antt =====
-- Witnesses on registry_client.py, with a registry that serves a tag list of two pages.
use ha_docker_compose.Prelude.{
  Option, Text, [], arith, codes, elem, nat_eq, none, pair_eq, refl, some, suc, text_eq, zero, ℕ,
  ◌++◌, ◌∷◌, ◌≡◌,
}
use ha_docker_compose.RegistryClient.{ok, Request, Reply, Response, reply, checked, get_pages}
use ha_docker_compose.RegistryClient.Link.{parse_next_link, resolve_ref, parse_next_link-header}
use ha_docker_compose.RegistryClient.Paging.{concat, last, more, get_pages-Walk}

abbrev page : Text → Option Text → Reply
page name link = record {
  status = 200;
  token = none;
  access_token = none;
  digest = none;
  tags = some (name ∷ []);
  link = link;
}

abbrev first_page : Reply
first_page = page (codes "1.0") (some (b'<' ∷ (codes "/p2" ++ codes ">; rel=\"next\"")))

abbrev last_page : Reply
last_page = page (codes "1.1") none

-- The world counts the requests.
abbrev serve : Request → ℕ → Response × ℕ
serve request zero = (reply first_page, 1)
serve request (suc n) = (reply last_page, suc (suc n))

get_pages-Walk_example :
    get_pages ℕ serve 50 (codes "https://ghcr.io") (codes "t") (codes "/tags") [] 0
    ≡ (ok ([] ++ concat ((codes "1.0" ∷ []) ∷ (codes "1.1" ∷ []) ∷ [])), 2)
unfolding checked parse_next_link elem
get_pages-Walk_example =
    get_pages-Walk ℕ serve (codes "https://ghcr.io") (codes "t") 50 []
      (more first_page (resolve_ref (codes "/p2") (codes "https://ghcr.io")) refl
        (parse_next_link-header (codes "/p2") (codes "https://ghcr.io") (λ e. cc) refl)
        (last last_page refl refl))
      (omega arith)
