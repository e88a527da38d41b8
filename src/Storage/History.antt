-- ===== src/Storage/History.antt =====
-- What the pull history of storage.py remembers.
use ha_docker_compose.Prelude.{
  Bool-cases, List, Option, Text, [], ap, arith, eq_iff, if◌then◌else◌, inl, inr, insert, lookup,
  lookup-insert, nat_eq, none, or_else, pair_beq, pair_beq_iff, pair_eq, refl, some, text_eq, true,
  ◌∷◌, ◌≡◌,
}
use ha_docker_compose.Storage.{
  PullRecord, History, or_empty, get, digest_of, assumed_of, async_record_pull,
}

module _ (history : History) (stack service tag digest : Text) (assumed_version : Option Text)
    (now : Text) where
  abbrev after : History
  after = async_record_pull history stack service tag digest assumed_version now

  -- After a pull is recorded, its service has the new record, whose previous digest is the digest of
  -- the old one, and whose assumed version is the old one's where none is known now. What is kept of
  -- every other service, in any stack, is what was.
  pub get-async_record_pull :
      (other_stack other_service : Text)
      → get after other_stack other_service ≡ (
          if pair_beq (stack, service) (other_stack, other_service)
          then some (record {
            tag = tag;
            digest = digest;
            pulled_at = now;
            previous_digest = digest_of (get history stack service);
            assumed_version = or_else assumed_version (assumed_of (get history stack service));
          })
          else get history other_stack other_service)
  unfolding get async_record_pull
  get-async_record_pull s t =
      let stack_data = or_empty (lookup stack history) in
      let written : PullRecord = record {
        tag = tag;
        digest = digest;
        pulled_at = now;
        previous_digest = digest_of (lookup service stack_data);
        assumed_version = or_else assumed_version (assumed_of (lookup service stack_data));
      } in
      ground (
        arith,
        lookup-insert stack s (insert service written stack_data) history,
        lookup-insert service t written stack_data,
        eq_iff stack s,
      )

-- One pull: what `async_record_pull` is called with.
pub record Pull : Type 0 where
  pub stack : Text
  pub service : Text
  pub tag : Text
  pub digest : Text
  pub assumed_version : Option Text
  pub now : Text

abbrev pub record_all : History → List Pull → History
record_all history [] = history
record_all history (p ∷ pulls) =
    record_all (async_record_pull history p.stack p.service p.tag p.digest p.assumed_version p.now)
      pulls

record-assumed_kept :
    (history : History) (p : Pull) (stack service a : Text)
    → assumed_of (get history stack service) ≡ some a
    → (b : Text) × (assumed_of (
          get
            (async_record_pull history p.stack p.service p.tag p.digest p.assumed_version p.now)
            stack
            service)
        ≡ some b)
record-assumed_kept history p stack service a h =
    let new =
      get-async_record_pull history p.stack p.service p.tag p.digest p.assumed_version p.now in
    elim (Bool-cases (pair_beq (p.stack, p.service) (stack, service))) [
      | inr other ↦ (a, rw (new stack service, other) h)
      | inl same ↦
          let e : (p.stack, p.service) ≡ (stack, service) = (pair_beq_iff _ _).0 same in
          let e₀ : p.stack ≡ stack = ap (λ x. x.0) e in
          let e₁ : p.service ≡ service = ap (λ x. x.1) e in kept p.assumed_version refl same e₀ e₁
    ]
  where
    kept :
        (o : Option Text)
        → p.assumed_version ≡ o
        → pair_beq (p.stack, p.service) (stack, service) ≡ true
        → p.stack ≡ stack
        → p.service ≡ service
        → (b : Text) × (assumed_of (
              get
                (async_record_pull history p.stack p.service p.tag p.digest p.assumed_version p.now)
                stack
                service)
            ≡ some b)
    kept none o same e₀ e₁ = (
      a,
      ground (
        arith,
        o,
        same,
        h,
        e₀,
        e₁,
        get-async_record_pull history p.stack p.service p.tag p.digest p.assumed_version p.now stack
            service,
      ),
    )
    kept (some b) o same e₀ e₁ = (
      b,
      ground (
        arith,
        o,
        same,
        h,
        e₀,
        e₁,
        get-async_record_pull history p.stack p.service p.tag p.digest p.assumed_version p.now stack
            service,
      ),
    )

-- Once a service has an assumed version, it keeps one through any pulls, of it or of others, even
-- through pulls for which no version was known.
pub record_all-assumed_kept :
    (history : History) (pulls : List Pull) (stack service a : Text)
    → assumed_of (get history stack service) ≡ some a
    → (b : Text) × (assumed_of (get (record_all history pulls) stack service) ≡ some b)
record_all-assumed_kept history [] stack service a h = (a, h)
record_all-assumed_kept history (p ∷ pulls) stack service a h =
    let (b, h') = record-assumed_kept history p stack service a h in
    record_all-assumed_kept
      (async_record_pull history p.stack p.service p.tag p.digest p.assumed_version p.now) pulls
      stack service b h'
