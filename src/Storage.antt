-- ===== src/Storage.antt =====
-- custom_components/ha_docker_compose/storage.py: the persisted pull history, by stack and service.
mod Tests
pub mod History
use ha_docker_compose.Prelude.{
  Dict, Option, Text, [], insert, lookup, nat_eq, none, or_else, pair_eq, some, text_eq,
}

pub record PullRecord : Type 0 where
  pub tag : Text
  pub digest : Text
  pub pulled_at : Text
  pub previous_digest : Option Text
  pub assumed_version : Option Text

abbrev pub History : Type 0
History = Dict Text (Dict Text PullRecord)

abbrev pub or_empty {ℓ κ} : {K : Type ℓ} {V : Type κ} → Option (Dict K V) → Dict K V
or_empty none = []
or_empty (some d) = d

-- `get`
unfoldable pub get : History → Text → Text → Option PullRecord
get history stack service = lookup service (or_empty (lookup stack history))

-- the digest and the assumption of a record that may be missing
abbrev pub digest_of : Option PullRecord → Option Text
digest_of none = none
digest_of (some r) = some r.digest

abbrev pub assumed_of : Option PullRecord → Option Text
assumed_of none = none
assumed_of (some r) = r.assumed_version

-- `async_record_pull`, at the time `now`
unfoldable pub async_record_pull :
    History → Text → Text → Text → Text → Option Text → Text → History
unfolding get
async_record_pull history stack service tag digest assumed_version now =
    let stack_data = or_empty (lookup stack history) in
    let previous_record = lookup service stack_data in
    let written : PullRecord = record {
      tag = tag;
      digest = digest;
      pulled_at = now;
      previous_digest = digest_of previous_record;
      assumed_version = or_else assumed_version (assumed_of previous_record);
    } in
    insert stack (insert service written stack_data) history
