-- ===== src/RegistryClient.antt =====
-- custom_components/ha_docker_compose/registry_client.py: the client of the registry HTTP API. The
-- HTTP session is a parameter: a request gets an answer, and the world goes on from there.
mod Tests
pub mod Link
pub mod Paging
pub mod Failures
use ha_docker_compose.Prelude.{
  Dict, List, Option, Text, [], codes, if◌then◌else◌, lookup, nat_eq, none, or_else, pair_eq, some,
  suc, text_eq, zero, ℕ, ◌++◌, ◌==◌, ◌||◌, ◌∷◌,
}
use ha_docker_compose.ImageRef.{ParsedImageRef, parse_image_ref}
use ha_docker_compose.ComposeFile.{truthy}
use ha_docker_compose.RegistryClient.Link.{parse_next_link}

-- The three exceptions: `RegistryError` (transient), `RegistryAuthError`, `RegistryUnsupportedError`.
pub data Failure : Type 0 where
  transient auth_denied unsupported : Failure

pub data Result {ℓ} (A : Type ℓ) : Type ℓ where
  ok : A → Result A
  err : Failure → Result A

pub record RegistryConfig : Type 0 where
  pub auth_url : Text
  pub registry_url : Text
  pub service : Text

-- `REGISTRIES`
abbrev pub registries : Dict Text RegistryConfig
registries =
    (
      codes "docker.io",
      record {
        auth_url = codes "https://auth.docker.io/token";
        registry_url = codes "https://registry-1.docker.io";
        service = codes "registry.docker.io";
      },
    )
    ∷ (
      codes "ghcr.io",
      record {
        auth_url = codes "https://ghcr.io/token";
        registry_url = codes "https://ghcr.io";
        service = codes "ghcr.io";
      },
    )
    ∷ []

abbrev pub tag_list_max_pages : ℕ
tag_list_max_pages = 50

-- A token request has a service and a scope; the others have a token.
pub data Request : Type 0 where
  token_request : Text → Text → Text → Request
  manifest_request : Text → Text → Request
  tags_request : Text → Text → Request

-- The parts of a response that the client reads: the status, the fields of its JSON body, and the
-- headers `Docker-Content-Digest` and `Link`.
pub record Reply : Type 0 where
  pub status : ℕ
  pub token : Option Text
  pub access_token : Option Text
  pub digest : Option Text
  pub tags : Option (List Text)
  pub link : Option Text

pub data Response : Type 0 where
  reply : Reply → Response
  client_error timed_out : Response

-- The errors that every request shares.
unfoldable pub checked : Response → Result Reply
checked (reply r) =
    if r.status == 401 || r.status == 403
    then err auth_denied
    else if r.status == 200
    then ok r
    else err transient
checked client_error = err transient
checked timed_out = err transient

-- `data.get("token") or data.get("access_token")`
unfoldable pub token_of : Reply → Result Text
token_of r = elim (or_else (truthy r.token) (truthy r.access_token)) [
  | none ↦ err transient
  | some token ↦ ok token
]

unfoldable pub digest_of : Reply → Result Text
digest_of r = elim (truthy r.digest) [ none ↦ err transient | some digest ↦ ok digest ]

abbrev pub or_nil : Option (List Text) → List Text
or_nil none = []
or_nil (some tags) = tags

-- `f"{registry_url}/v2/{repository}/manifests/{tag}"` and `…/tags/list`
abbrev pub manifest_url : RegistryConfig → Text → Text → Text
manifest_url config repository tag =
    config.registry_url ++ (codes "/v2/" ++ (repository ++ (codes "/manifests/" ++ tag)))

abbrev pub tags_url : RegistryConfig → Text → Text
tags_url config repository =
    config.registry_url ++ (codes "/v2/" ++ (repository ++ codes "/tags/list"))

abbrev pub scope : Text → Text
scope repository = codes "repository:" ++ (repository ++ codes ":pull")

module _ (World : Type 0) (get : Request → World → Response × World) where
  abbrev pub Action : Type 0 → Type 0
  Action A = World → Result A × World

  abbrev continue : {A B : Type 0} → Result A → (A → Action B) → Action B
  continue (ok a) f w = f a w
  continue (err e) f w = (err e, w)

  infixl 10 ◌>>=◌
  abbrev pub ◌>>=◌ : {A B : Type 0} → Action A → (A → Action B) → Action B
  ◌>>=◌ m f w = let (r, w') = m w in continue r f w'

  abbrev pub lift : {A : Type 0} → Result A → Action A
  lift r w = (r, w)

  abbrev pub fetch : Request → Action Reply
  fetch request w = let (response, w') = get request w in (checked response, w')

  unfoldable pub get_token : RegistryConfig → Text → Action Text
  unfolding token_of checked
  get_token config repository = do
    r ← fetch (token_request config.auth_url config.service (scope repository))
    lift (token_of r)

  unfoldable pub get_digest : RegistryConfig → Text → Text → Text → Action Text
  unfolding digest_of checked
  get_digest config repository tag token = do
    r ← fetch (manifest_request (manifest_url config repository tag) token)
    lift (digest_of r)

  -- The loop over the pages, with the rounds that are left.
  unfoldable pub get_pages : ℕ → Text → Text → Text → List Text → Action (List Text)
  get_pages zero registry_url token url tags = lift (ok tags)
  get_pages (suc rounds) registry_url token url tags = do
    r ← fetch (tags_request url token)
    let tags' = tags ++ or_nil r.tags
    elim (parse_next_link r.link registry_url) [
      | none ↦ lift (ok tags')
      | some next_url ↦ get_pages rounds registry_url token next_url tags'
    ]

  unfoldable pub get_tags : RegistryConfig → Text → Text → Action (List Text)
  get_tags config repository token =
      get_pages tag_list_max_pages config.registry_url token (tags_url config repository) []

  unfoldable pub get_manifest_digest : Text → Action Text
  get_manifest_digest image_ref =
      let parsed = parse_image_ref image_ref in
      elim (lookup parsed.registry registries) [
        | none ↦ lift (err unsupported)
        | some config ↦ do
          token ← get_token config parsed.repository
          get_digest config parsed.repository parsed.tag token
      ]

  unfoldable pub list_tags : Text → Action (List Text)
  list_tags image_ref =
      let parsed = parse_image_ref image_ref in
      elim (lookup parsed.registry registries) [
        | none ↦ lift (err unsupported)
        | some config ↦ do
          token ← get_token config parsed.repository
          get_tags config parsed.repository token
      ]
