-- ===== src/RegistryClient/Failures.antt =====
-- What the failures of registry_client.py mean.
use ha_docker_compose.Prelude.{
  Option-cases, Text, arith, inl, inr, lookup, nat_eq, none, pair_eq, text_eq, ◌↔◌, ◌≡◌, ◌≢◌,
}
use ha_docker_compose.ImageRef.{parse_image_ref}
use ha_docker_compose.RegistryClient.{
  Action, continue, ◌>>=◌, fetch, scope, manifest_url, manifest_request, unsupported, Result, ok,
  err, RegistryConfig, registries, Request, token_request, Reply, Response, reply, client_error,
  timed_out, checked, token_of, digest_of, get_token, get_digest, get_manifest_digest,
}

checked-ne-unsupported : (r : Response) → checked r ≢ err unsupported
unfolding checked
checked-ne-unsupported (reply r) = ground arith
checked-ne-unsupported client_error = cc
checked-ne-unsupported timed_out = cc

token_of-ne-unsupported : (r : Reply) → token_of r ≢ err unsupported
unfolding token_of
token_of-ne-unsupported r = ground arith

digest_of-ne-unsupported : (r : Reply) → digest_of r ≢ err unsupported
unfolding digest_of
digest_of-ne-unsupported r = ground arith

module _ (World : Type 0) (get : Request → World → Response × World) where
  -- An action that never says that a registry is unsupported.
  abbrev Supported : {A : Type 0} → Action World get A → Type 0
  Supported m = (w : World) → (m w).0 ≢ err unsupported

  continue-Supported :
      {A B : Type 0} (r : Result A) (f : A → Action World get B)
      → r ≢ err unsupported
      → ((a : A) → Supported (f a))
      → (w : World) → (continue World get r f w).0 ≢ err unsupported
  continue-Supported (ok a) f hr hf w = hf a w
  continue-Supported (err e) f hr hf w = λ h. hr (cc)

  bind-Supported :
      {A B : Type 0} (m : Action World get A) (f : A → Action World get B)
      → Supported m
      → ((a : A) → Supported (f a))
      → Supported (◌>>=◌ World get m f)
  bind-Supported m f hm hf w = continue-Supported (m w).0 f (hm w) hf (m w).1

  fetch-Supported : (request : Request) → Supported (fetch World get request)
  fetch-Supported request w = checked-ne-unsupported (get request w).0

  get_token-Supported :
      (config : RegistryConfig) (repository : Text)
      → Supported (get_token World get config repository)
  unfolding get_token
  get_token-Supported config repository =
      bind-Supported
        (fetch World get (token_request config.auth_url config.service (scope repository)))
        (λ r w. (token_of r, w)) (fetch-Supported _) (λ r w. token_of-ne-unsupported r)

  get_digest-Supported :
      (config : RegistryConfig) (repository tag token : Text)
      → Supported (get_digest World get config repository tag token)
  unfolding get_digest
  get_digest-Supported config repository tag token =
      bind-Supported (fetch World get (manifest_request (manifest_url config repository tag) token))
        (λ r w. (digest_of r, w)) (fetch-Supported _) (λ r w. digest_of-ne-unsupported r)

  -- A digest lookup says that a registry is unsupported exactly when the registry of the reference
  -- is not in the table, and then it makes no request.
  pub get_manifest_digest-unsupported :
      (image_ref : Text) (w : World)
      → (((get_manifest_digest World get image_ref w).0 ≡ err unsupported)
          ↔ (lookup (parse_image_ref image_ref).registry registries ≡ none))
        × (lookup (parse_image_ref image_ref).registry registries ≡ none
            → (get_manifest_digest World get image_ref w).1 ≡ w)
  unfolding get_manifest_digest
  get_manifest_digest-unsupported image_ref w =
      elim (Option-cases (lookup (parse_image_ref image_ref).registry registries)) [
        | inl e ↦ ((λ _. e, λ _. rw (e, get_manifest_digest)), λ _. rw (e, get_manifest_digest))
        | inr (config, e) ↦
            let parsed = parse_image_ref image_ref in
            let never =
              bind-Supported (get_token World get config parsed.repository)
                (λ token. get_digest World get config parsed.repository parsed.tag token)
                (get_token-Supported config parsed.repository)
                (λ token. get_digest-Supported config parsed.repository parsed.tag token) w in
            ((λ h. absurd (never (rw (e, get_manifest_digest) at h)), λ h. cc), λ h. cc)
      ]
