-- ===== src/Storage/Tests.antt =====
-- Witnesses on the pull history of storage.py.
use ha_docker_compose.Prelude.{
  Text, [], codes, lookup, nat_eq, none, pair_eq, refl, some, text_beq, text_eq, ◌∷◌, ◌≡◌,
}
use ha_docker_compose.Storage.{History, PullRecord, get, assumed_of}
use ha_docker_compose.Storage.History.{Pull, record_all, record_all-assumed_kept}

abbrev old_record : PullRecord
old_record = record {
  tag = codes "latest";
  digest = codes "sha256:01";
  pulled_at = codes "2025-01-01";
  previous_digest = none;
  assumed_version = some (codes "1.0");
}

abbrev old_history : History
old_history = (codes "web", (codes "app", old_record) ∷ []) ∷ []

abbrev new_pull : Pull
new_pull = record {
  stack = codes "web";
  service = codes "app";
  tag = codes "latest";
  digest = codes "sha256:02";
  assumed_version = none;
  now = codes "2025-02-01";
}

record_all-assumed_kept_example :
    (b : Text) × (assumed_of
        (get (record_all old_history (new_pull ∷ [])) (codes "web") (codes "app"))
      ≡ some b)
unfolding get lookup text_beq
record_all-assumed_kept_example =
    record_all-assumed_kept old_history (new_pull ∷ []) (codes "web") (codes "app") (codes "1.0")
      refl
