-- ===== src/Entities/Identity.antt =====
-- The unique ids of the entities: parts of them are joined by an underscore, which names may hold.
use ha_docker_compose.Prelude.{Option, Text, append_assoc, none, refl, some, ◌++◌, ◌∷◌, ◌≡◌}
use ha_docker_compose.Entities.{
  Kind, Entity, suffix, unique_id, stack_state, service_state, stack_switch, service_running_switch,
  stack_update_available, service_update_available,
}

abbrev pub of_names : Kind → Text → Option Text → Entity
of_names kind stack service = record { kind = kind; stack = some stack; service = service }

joined :
    (entry_id a b : Text) (kind other : Kind)
    → suffix kind ≡ suffix other
    → unique_id entry_id (of_names kind (a ++ b'_' ∷ b) none)
      ≡ unique_id entry_id (of_names other a (some b))
unfolding unique_id
joined entry_id a b kind other h = simp (h, append_assoc)

-- A stack `a_b` and the service `b` of a stack `a` share the ids of their state sensors, of their
-- switches, and of their update sensors.
pub unique_id-collision :
    (entry_id a b : Text)
    → (unique_id entry_id (of_names stack_state (a ++ b'_' ∷ b) none)
        ≡ unique_id entry_id (of_names service_state a (some b)))
      × (unique_id entry_id (of_names stack_switch (a ++ b'_' ∷ b) none)
          ≡ unique_id entry_id (of_names service_running_switch a (some b)))
      × (unique_id entry_id (of_names stack_update_available (a ++ b'_' ∷ b) none)
          ≡ unique_id entry_id (of_names service_update_available a (some b)))
unfolding suffix
unique_id-collision entry_id a b = (
  joined entry_id a b stack_state service_state refl,
  joined entry_id a b stack_switch service_running_switch refl,
  joined entry_id a b stack_update_available service_update_available refl,
)
