-- ===== src/Validation/Grammar.antt =====
-- What the checks of the validator come to, one after the other.
use trust_flow_chain_of_cust.Validation.Rules.{all_of}
use trust_flow_chain_of_cust.Prelude.Dict.{Dict, lookup, contains, get_or}
use trust_flow_chain_of_cust.Validation.Value.{Value, text, array, object, values_of, fields_of}
use trust_flow_chain_of_cust.Validation.Formats.{is_blank}
use trust_flow_chain_of_cust.Validation.Event.{
  required_fields, alternative_fields, string_fields, hash_fields, field_kind, has_kind, has_any,
  is_blank_text, is_low, is_bad_hash,
}
use trust_flow_chain_of_cust.Prelude.{
  Text, codes, is_empty, Bool, true, false, not, ◌&&◌, Option, none, some, List, [],
}

-- A recipient is a text with content.
unfoldable pub is_recipient : Value → Bool
is_recipient (text s) = not (is_blank s)
is_recipient _ = false

-- Whether one of a group of fields is there, where there is a group.
unfoldable pub has_alternative : Dict Value → Option (List Text) → Bool
has_alternative event none = true
has_alternative event (some group) = has_any event group

unfoldable pub has_recipients : Option Value → Bool
has_recipients (some (array vs)) =
    not (is_empty (values_of vs)) && all_of is_recipient (values_of vs)
has_recipients _ = true

-- What the values of the fields satisfy.
unfoldable pub has_values : Dict Value → Bool
has_values event =
    all_of (λ k. not (is_blank_text (lookup k event))) string_fields
    && has_recipients (lookup (codes "recipient_ids") event)
    && not (is_low 2 (lookup (codes "threshold") event))
    && not (is_low 1 (lookup (codes "ttl_seconds") event))
    && not (is_low 0 (lookup (codes "time") event))
    && all_of (λ k. not (is_bad_hash (lookup k event))) hash_fields

unfoldable pub is_well_formed : Text → Dict Value → Bool
unfolding has_recipients
is_well_formed event_type event =
    all_of (λ k. contains k event) (get_or event_type required_fields [])
    && has_alternative event (lookup event_type alternative_fields)
    && all_of (λ e. has_kind (field_kind e.0) e.1) event
    && has_values event

-- The type of an event is known, and its fields are well formed.
unfoldable pub is_accepted_type : Option Value → Dict Value → Bool
unfolding is_well_formed
is_accepted_type (some (text event_type)) event =
    contains event_type required_fields && is_well_formed event_type event
is_accepted_type _ event = false

unfoldable pub is_accepted : Value → Bool
unfolding is_accepted_type
is_accepted (object fields) =
    is_accepted_type (lookup (codes "type") (fields_of fields)) (fields_of fields)
is_accepted _ = false
