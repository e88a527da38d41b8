-- ===== src/Entities/Contract.antt =====
-- What a dashboard relies on: the attributes `stack`, `service` and `kind` of an entity tell which one it
-- is, whatever else its attributes hold.
use ha_docker_compose.Prelude.{
  List, Option, Text, [], ap, arith, codes, elem, eq_iff, false, insert, keys, lookup,
  lookup-insert, map, nat_eq, none, pair_eq, refl, some, sym, text_beq, text_eq, value, ◌++◌, ◌∙◌,
  ◌∷◌, ◌≡◌,
}
use ha_docker_compose.Entities.{
  Kind, stack_state, stack_pull_button, stack_check_button, stack_switch, stack_update_available,
  stack_compose_config, service_state, service_cpu, service_memory, service_uptime,
  service_log_command, service_last_fetched_logs, service_fetch_logs_button, service_restart_button,
  service_running_switch, service_update_available, service_running_digest, service_last_pulled,
  service_latest_registry_tag, service_pull_target_version, service_latest_github_release,
  service_detected_version, site_total_cpu, site_total_memory,
}
use ha_docker_compose.Entities.Attributes.{
  kind_text, Attribute, text_value, Attributes, Held, if_some, updated, stack_attributes,
  service_attributes, env_extras, error_extras, stack_extras, service_extras,
  extra_state_attributes,
}
use ha_docker_compose.Entities.Values.{
  when_some, container_of, log_text_value, update_status, latest_release,
}

abbrev kinds : List Kind
kinds =
    stack_state ∷ stack_pull_button ∷ stack_check_button ∷ stack_switch ∷ stack_update_available
    ∷ stack_compose_config ∷ service_state ∷ service_cpu ∷ service_memory ∷ service_uptime
    ∷ service_log_command ∷ service_last_fetched_logs ∷ service_fetch_logs_button
    ∷ service_restart_button ∷ service_running_switch ∷ service_update_available
    ∷ service_running_digest ∷ service_last_pulled ∷ service_latest_registry_tag
    ∷ service_pull_target_version ∷ service_latest_github_release ∷ service_detected_version
    ∷ site_total_cpu ∷ site_total_memory ∷ []

-- The kind of a text, looked up in a table of the constants.
unfoldable kind_of : Text → Option Kind
unfolding kind_text
kind_of t = lookup t (map (λ k. (kind_text k, k)) kinds)

kind_of-kind_text : (k : Kind) → kind_of (kind_text k) ≡ some k
unfolding kind_of lookup text_beq
kind_of-kind_text stack_state = refl
kind_of-kind_text stack_pull_button = refl
kind_of-kind_text stack_check_button = refl
kind_of-kind_text stack_switch = refl
kind_of-kind_text stack_update_available = refl
kind_of-kind_text stack_compose_config = refl
kind_of-kind_text service_state = refl
kind_of-kind_text service_cpu = refl
kind_of-kind_text service_memory = refl
kind_of-kind_text service_uptime = refl
kind_of-kind_text service_log_command = refl
kind_of-kind_text service_last_fetched_logs = refl
kind_of-kind_text service_fetch_logs_button = refl
kind_of-kind_text service_restart_button = refl
kind_of-kind_text service_running_switch = refl
kind_of-kind_text service_update_available = refl
kind_of-kind_text service_running_digest = refl
kind_of-kind_text service_last_pulled = refl
kind_of-kind_text service_latest_registry_tag = refl
kind_of-kind_text service_pull_target_version = refl
kind_of-kind_text service_latest_github_release = refl
kind_of-kind_text service_detected_version = refl
kind_of-kind_text site_total_cpu = refl
kind_of-kind_text site_total_memory = refl

kind_text_inj : (k l : Kind) → kind_text k ≡ kind_text l → k ≡ l
kind_text_inj k l h =
    let same : some k ≡ some l = sym (kind_of-kind_text k) ∙ ap kind_of h ∙ kind_of-kind_text l in
    ground (arith, same)

module _ (F : Type 0) where
  -- Attributes that are none of those by which an entity is found.
  abbrev IsFree : Attributes F → Type 0
  IsFree extras =
      (elem (codes "stack") (keys extras) ≡ false)
      × (elem (codes "service") (keys extras) ≡ false)
      × (elem (codes "kind") (keys extras) ≡ false)

  lookup-updated :
      (j : Text) (attrs extras : Attributes F)
      → elem j (keys extras) ≡ false
      → lookup j (updated attrs extras) ≡ lookup j attrs
  unfolding updated elem
  lookup-updated j attrs [] h = refl
  lookup-updated j attrs ((k, value) ∷ extras) h = ground (
    arith,
    h,
    lookup-insert k j value attrs,
    lookup-updated j (insert k value attrs) extras,
    eq_iff k j,
  )

  if_some-IsFree :
      {A : Type 0} (o : Option A) (f : A → Attributes F)
      → ((a : A) → IsFree (f a))
      → IsFree (if_some o f)
  unfolding elem
  if_some-IsFree none f h = (refl, refl, refl)
  if_some-IsFree (some a) f h = h a

  service_extras-IsFree :
      (h : Held) (n service : Text) (k : Kind) → IsFree (service_extras F h n service k)
  unfolding service_extras elem text_beq
  service_extras-IsFree h n service service_state =
      if_some-IsFree (container_of h.statuses n service) _ (λ c. (refl, refl, refl))
  service_extras-IsFree h n service service_memory =
      if_some-IsFree (when_some (λ c. c.memory_limit_bytes) (container_of h.statuses n service)) _
        (λ c. (refl, refl, refl))
  service_extras-IsFree h n service service_last_fetched_logs =
      if_some-IsFree (log_text_value h.last_fetched_logs n service) _ (λ c. (refl, refl, refl))
  service_extras-IsFree h n service service_running_digest =
      if_some-IsFree (update_status h.updates n service) _ (λ c. (refl, refl, refl))
  service_extras-IsFree h n service service_last_pulled =
      if_some-IsFree (update_status h.updates n service) _ (λ c. (refl, refl, refl))
  service_extras-IsFree h n service service_update_available =
      if_some-IsFree (update_status h.updates n service) _ (λ c. (refl, refl, refl))
  service_extras-IsFree h n service service_latest_github_release =
      if_some-IsFree (latest_release h.metadata n service) _ (λ c. (refl, refl, refl))
  service_extras-IsFree h n service k = (refl, refl, refl)

  elem-append_keys :
      (j : Text) (extras others : Attributes F)
      → elem j (keys extras) ≡ false
      → elem j (keys others) ≡ false
      → elem j (keys (extras ++ others)) ≡ false
  unfolding elem
  elem-append_keys j [] others h k = k
  elem-append_keys j ((i, value) ∷ extras) others h k =
      ground (arith, h, elem-append_keys j extras others, k)

  append-IsFree :
      (extras others : Attributes F) → IsFree extras → IsFree others → IsFree (extras ++ others)
  append-IsFree extras others h k = (
    elem-append_keys (codes "stack") extras others h.0 k.0,
    elem-append_keys (codes "service") extras others h.1 k.1,
    elem-append_keys (codes "kind") extras others h.2 k.2,
  )

  stack_extras-IsFree : (h : Held) (n : Text) (k : Kind) → IsFree (stack_extras F h n k)
  unfolding stack_extras elem text_beq
  stack_extras-IsFree h n stack_state =
      let status = if_some-IsFree (lookup n h.statuses) (env_extras F) (λ s. (refl, refl, refl)) in
      let problem =
        if_some-IsFree (lookup n h.last_pull_errors) (error_extras F) (λ e. (refl, refl, refl)) in
      append-IsFree (if_some (lookup n h.statuses) (env_extras F))
        (if_some (lookup n h.last_pull_errors) (error_extras F)) status problem
  stack_extras-IsFree h n stack_compose_config =
      if_some-IsFree (lookup n h.statuses) _ (λ s. (refl, refl, refl))
  stack_extras-IsFree h n k = (refl, refl, refl)

  -- The three attributes of an entity of a stack.
  abbrev service_value : Option Text → Option (Attribute F)
  service_value = when_some (λ s. some (text_value s))

  IsFound : Attributes F → Kind → Text → Option Text → Type 0
  IsFound attrs k n service =
      (lookup (codes "stack") attrs ≡ some (text_value n))
      × (lookup (codes "service") attrs ≡ service_value service)
      × (lookup (codes "kind") attrs ≡ some (text_value (kind_text k)))

  extra_state_attributes-IsFound :
      (h : Held) (k : Kind) (n : Text) (service : Option Text)
      → IsFound (extra_state_attributes F h k n service) k n service
  unfolding IsFound extra_state_attributes stack_attributes service_attributes lookup text_beq
  extra_state_attributes-IsFound h k n none =
      let free = stack_extras-IsFree h n k in
      (
        lookup-updated (codes "stack") _ _ free.0,
        lookup-updated (codes "service") _ _ free.1,
        lookup-updated (codes "kind") _ _ free.2,
      )
  extra_state_attributes-IsFound h k n (some service) =
      let free = service_extras-IsFree h n service k in
      (
        lookup-updated (codes "stack") _ _ free.0,
        lookup-updated (codes "service") _ _ free.1,
        lookup-updated (codes "kind") _ _ free.2,
      )

  service_value_inj : (a b : Option Text) → service_value a ≡ service_value b → a ≡ b
  service_value_inj none none h = refl
  service_value_inj none (some t) h = absurd (cc)
  service_value_inj (some s) none h = absurd (cc)
  service_value_inj (some s) (some t) h = ground (arith, h)

  -- Attributes that a dashboard cannot tell apart.
  abbrev pub AgreeOn : Attributes F → Attributes F → Type 0
  AgreeOn attrs others =
      (lookup (codes "stack") attrs ≡ lookup (codes "stack") others)
      × (lookup (codes "service") attrs ≡ lookup (codes "service") others)
      × (lookup (codes "kind") attrs ≡ lookup (codes "kind") others)

  -- Two entities of stacks whose attributes `stack`, `service` and `kind` agree are of one class and for
  -- the same stack and service, whatever the coordinators hold when each is looked at.
  pub extra_state_attributes_inj :
      (h h' : Held) (k l : Kind) (n m : Text) (service other : Option Text)
      → AgreeOn (extra_state_attributes F h k n service) (extra_state_attributes F h' l m other)
      → (k ≡ l) × (n ≡ m) × (service ≡ other)
  unfolding IsFound
  extra_state_attributes_inj h h' k l n m service other (same_stack, same_service, same_kind) =
      let found = extra_state_attributes-IsFound h k n service in
      let found' = extra_state_attributes-IsFound h' l m other in
      let stacks : some (text_value n) ≡ some (text_value m) =
        sym found.0 ∙ same_stack ∙ found'.0 in
      let services = sym found.1 ∙ same_service ∙ found'.1 in
      let texts : some (text_value (kind_text k)) ≡ some (text_value (kind_text l)) =
        sym found.2 ∙ same_kind ∙ found'.2 in
      (
        kind_text_inj k l (ground (arith, texts)),
        ground (arith, stacks),
        service_value_inj service other services,
      )
