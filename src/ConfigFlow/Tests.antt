-- ===== src/ConfigFlow/Tests.antt =====
-- Tests of config_flow.py's model, and witnesses.
use ha_docker_compose.Prelude.{[], codes, false, insert, nat_eq, pair_eq, some, text_eq, true}
use ha_docker_compose.ConfigFlow.{Entries, Host, UserInput}

abbrev test_host : Host
test_host = record {
  expanduser = λ p. p;
  leaf = λ p. codes "stacks";
  is_dir = λ p. true;
  is_configured = λ p. false;
  discover = λ p. some 3;
}

abbrev test_input : UserInput
test_input = record {
  stacks_root = codes "/srv/stacks";
  docker_host = codes "tcp://nas:2375";
  sidecar_container = codes "sidecar";
  poll_interval = 30;
  site_name = [];
}

-- An entry is created, and another one, that has no slug yet, is loaded.
abbrev test_entries : Entries
unfolding insert
test_entries = insert (codes "e1") (some (codes "stacks")) []
