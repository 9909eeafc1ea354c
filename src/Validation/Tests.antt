-- ===== src/Validation/Tests.antt =====
-- An event that is valid, and hashes.
use trust_flow_chain_of_cust.Prelude.Dict.{lookup}
use trust_flow_chain_of_cust.Validation.Events.{validate_scenario_sound}
use trust_flow_chain_of_cust.Validation.Value.{
  value, Values, Fields, values_of, fields_of, Value, text, array, object, integer, no_values,
  field, no_fields,
}
use trust_flow_chain_of_cust.Validation.Outcome.{valid, merge}
use trust_flow_chain_of_cust.Validation.Formats.{validate_content_hash}
use trust_flow_chain_of_cust.Validation.Event.{validate_event}
use trust_flow_chain_of_cust.Validation.Scenario.{validate_scenario}
use trust_flow_chain_of_cust.Validation.Rules.{is_event}
use trust_flow_chain_of_cust.Validation.Verdict.{validate_event-is_event}
use trust_flow_chain_of_cust.Validation.Hashes.{validate_content_hash_newline}
use trust_flow_chain_of_cust.Prelude.{
  replicate, elem, codes, Text-discrete, ◌≡◌, refl, true, none, [], ◌∷◌, ◌++◌, ℕ_discrete, some,
  All,
}

abbrev peer_online : Value
peer_online = object (
    field (codes "type") (text (codes "PEER_ONLINE"))
      (field (codes "peer_id") (text (codes "alice")) (field (codes "time") (integer 3) no_fields)))

validate_event-is_event_example : (validate_event peer_online).is_valid ≡ is_event peer_online
validate_event-is_event_example = validate_event-is_event peer_online

accepted : (validate_event peer_online).is_valid ≡ true
unfolding validate_event merge lookup elem Text-discrete ℕ_discrete
accepted = refl

zeros_valid : validate_content_hash (replicate 64 48) ≡ true
unfolding validate_content_hash
zeros_valid = refl

validate_content_hash_newline_example : validate_content_hash (replicate 64 48 ++ 10 ∷ []) ≡ true
validate_content_hash_newline_example =
    validate_content_hash_newline (replicate 64 48) zeros_valid refl

-- Settings that are a number, beside a list of peers, make the validator raise.
raises :
    validate_scenario (
      object (
        field (codes "events") (array no_values) (
          field
            (codes "peers")
            (array no_values)
            (field (codes "settings") (integer 5) no_fields))))
    ≡ none
unfolding validate_scenario lookup Text-discrete ℕ_discrete
raises = refl

abbrev one_event : Fields
one_event = field (codes "events") (array (value peer_online no_values)) no_fields

one_event_passes : validate_scenario (object one_event) ≡ some valid
unfolding validate_scenario merge lookup elem Text-discrete ℕ_discrete
one_event_passes = refl

validate_scenario_sound_example :
    (vs : Values) × ((lookup (codes "events") (fields_of one_event) ≡ some (array vs))
      × All (λ v. is_event v ≡ true) (values_of vs))
validate_scenario_sound_example = validate_scenario_sound one_event valid one_event_passes refl
