-- ===== src/RegistryClient/Paging.antt =====
-- The pages of a tag list: the loop of `_get_tags` in registry_client.py follows the links.
use ha_docker_compose.Prelude.{
  List, Text, [], ap, append-nil, append_assoc, arith, length, none, some, suc, zero, ℕ, ◌++◌, ◌∷◌,
  ◌≡◌, ◌≤◌,
}
use ha_docker_compose.RegistryClient.{
  ok, Request, tags_request, Reply, Response, checked, or_nil, fetch, get_pages,
}
use ha_docker_compose.RegistryClient.Link.{parse_next_link}

abbrev pub concat : List (List Text) → List Text
concat [] = []
concat (page ∷ pages) = page ++ concat pages

module _ (World : Type 0) (get : Request → World → Response × World)
    (registry_url token : Text) where
  -- The pages that a registry serves from a URL on, each linking to the next, and the last to none.
  pub data Walk : World → Text → List (List Text) → World → Type 0 where
    last :
        {w w' : World} {url : Text} (r : Reply)
        → fetch World get (tags_request url token) w ≡ (ok r, w')
        → parse_next_link r.link registry_url ≡ none
        → Walk w url (or_nil r.tags ∷ []) w'
    more :
        {w w' w'' : World} {url : Text} {pages : List (List Text)} (r : Reply) (next_url : Text)
        → fetch World get (tags_request url token) w ≡ (ok r, w')
        → parse_next_link r.link registry_url ≡ some next_url
        → Walk w' next_url pages w''
        → Walk w url (or_nil r.tags ∷ pages) w''

  -- A tag list of no more pages than there are rounds is fetched whole, page after page.
  pub get_pages-Walk :
      (rounds : ℕ) {w w' : World} {url : Text} {pages : List (List Text)} (tags : List Text)
      → Walk w url pages w'
      → length pages ≤ rounds
      → get_pages World get rounds registry_url token url tags w ≡ (ok (tags ++ concat pages), w')
  unfolding get_pages
  get_pages-Walk zero tags (last r f n) h = absurd (omega arith)
  get_pages-Walk zero tags (more r u f n k) h = absurd (omega arith)
  get_pages-Walk (suc rounds) {w} {w'} {url} tags (last r f n) h =
      let answered : checked (get (tags_request url token) w).0 ≡ ok r = ap (λ x. x.0) f in
      let after : (get (tags_request url token) w).1 ≡ w' = ap (λ x. x.1) f in
      ground (arith, answered, after, n, append-nil (or_nil r.tags))
  get_pages-Walk (suc rounds) {w} {w'} {url} tags (more {w' = w₁} {pages = pages} r u f n k) h =
      let answered : checked (get (tags_request url token) w).0 ≡ ok r = ap (λ x. x.0) f in
      let after : (get (tags_request url token) w).1 ≡ w₁ = ap (λ x. x.1) f in
      ground (
        arith,
        answered,
        after,
        n,
        get_pages-Walk rounds (tags ++ or_nil r.tags) k (omega arith),
        append_assoc tags (or_nil r.tags) (concat pages),
      )
