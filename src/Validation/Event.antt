-- ===== src/Validation/Event.antt =====
-- `EventValidator`, for one event.
use trust_flow_chain_of_cust.Prelude.Dict.{Dict, lookup, contains, get_or}
use trust_flow_chain_of_cust.Validation.Value.{
  Value, text, array, object, Kind, str, list, int, values_of, fields_of, is_instance, is_int_below,
}
use trust_flow_chain_of_cust.Validation.Outcome.{
  not_a_dict, no_type, type_not_text, unknown_type, missing, wrong_type, empty_field, bad_hash,
  missing_all, empty_recipients, recipient_not_text, recipient_empty, threshold_low, ttl_low,
  time_negative, Outcome, valid, add_error, merge, report,
}
use trust_flow_chain_of_cust.Validation.Formats.{is_blank, validate_content_hash}
use trust_flow_chain_of_cust.Prelude.{
  elem, if◌then◌else◌, Text, codes, text_eq, ℕ, ◌+◌, Bool, true, false, not, ◌&&◌, ◌||◌, Option,
  none, some, List, [], ◌∷◌,
}

abbrev pub required_fields : Dict (List Text)
required_fields =
    (codes "CREATE_MESSAGE", codes "originator_id" ∷ codes "recipient_ids" ∷ codes "content" ∷ [])
    ∷ (codes "FORWARD_MESSAGE", codes "sender_id" ∷ codes "recipient_ids" ∷ [])
    ∷ (codes "DELETE_MESSAGE", codes "originator_id" ∷ [])
    ∷ (codes "PEER_ONLINE", codes "peer_id" ∷ [])
    ∷ (codes "PEER_OFFLINE", codes "peer_id" ∷ [])
    ∷ (
      codes "DISTRIBUTE_SHARES",
      codes "originator_id" ∷ codes "content" ∷ codes "recipient_ids" ∷ codes "threshold" ∷ [],
    )
    ∷ (codes "RECONSTRUCT_SECRET", codes "requester_id" ∷ codes "content_hash" ∷ [])
    ∷ (codes "TIMELOCK_CONTENT", codes "originator_id" ∷ codes "content" ∷ codes "ttl_seconds" ∷ [])
    ∷ (codes "DESTROY_TIMELOCK", codes "peer_id" ∷ codes "lock_id" ∷ [])
    ∷ (codes "WATERMARK_FORWARD", codes "sender_id" ∷ codes "recipient_ids" ∷ [])
    ∷ (codes "DETECT_LEAK", codes "investigator_id" ∷ codes "leaked_content" ∷ [])
    ∷ []

-- One group for each type that has any, as all that have one have just one.
abbrev pub alternative_fields : Dict (List Text)
alternative_fields =
    (codes "FORWARD_MESSAGE", codes "parent_message_id" ∷ codes "parent_node_hash" ∷ [])
    ∷ (codes "DELETE_MESSAGE", codes "message_id" ∷ codes "node_hash" ∷ [])
    ∷ (codes "WATERMARK_FORWARD", codes "parent_message_id" ∷ codes "parent_node_hash" ∷ [])
    ∷ []

abbrev pub string_fields : List Text
string_fields =
    codes "originator_id"
    ∷ codes "sender_id"
    ∷ codes "peer_id"
    ∷ codes "requester_id"
    ∷ codes "investigator_id"
    ∷ codes "content"
    ∷ codes "leaked_content"
    ∷ codes "node_hash"
    ∷ codes "parent_node_hash"
    ∷ codes "message_id"
    ∷ codes "parent_message_id"
    ∷ codes "content_hash"
    ∷ codes "lock_id"
    ∷ []

abbrev pub hash_fields : List Text
hash_fields = codes "node_hash" ∷ codes "parent_node_hash" ∷ codes "content_hash" ∷ []

-- `FIELD_TYPES`: the fields of texts, with the type of the event, then the others
unfoldable pub field_kind : Text → Option Kind
unfolding elem
field_kind k =
    if elem k string_fields || text_eq k (codes "type")
    then some str
    else if elem k (codes "recipient_ids" ∷ codes "suspect_ids" ∷ codes "contributor_ids" ∷ [])
    then some list
    else if elem k (codes "threshold" ∷ codes "ttl_seconds" ∷ codes "time" ∷ [])
    then some int
    else none

-- The loop over the required fields.
unfoldable pub check_required : Dict Value → List Text → Outcome → Outcome
unfolding report
check_required event [] r = r
check_required event (k ∷ ks) r =
    check_required event ks (report (not (contains k event)) (missing k) r)

unfoldable pub has_any : Dict Value → List Text → Bool
has_any event [] = false
has_any event (k ∷ ks) = contains k event || has_any event ks

-- The group of alternatives, where the type has one.
unfoldable pub check_alternatives : Dict Value → Option (List Text) → Outcome → Outcome
unfolding report has_any
check_alternatives event none r = r
check_alternatives event (some group) r = report (not (has_any event group)) (missing_all group) r

unfoldable pub has_kind : Option Kind → Value → Bool
unfolding is_instance
has_kind none v = true
has_kind (some kind) v = is_instance kind v

-- The loop over all fields of the event.
unfoldable pub check_kinds : Dict Value → Outcome → Outcome
unfolding report has_kind field_kind
check_kinds [] r = r
check_kinds ((k, v) ∷ fields) r =
    check_kinds fields (report (not (has_kind (field_kind k) v)) (wrong_type k) r)

-- Whether a field holds a text without content.
unfoldable pub is_blank_text : Option Value → Bool
unfolding is_blank
is_blank_text (some (text s)) = is_blank s
is_blank_text _ = false

-- The loop over `_STRING_FIELDS`
unfoldable pub check_strings : Dict Value → List Text → Outcome → Outcome
unfolding report is_blank_text
check_strings event [] r = r
check_strings event (k ∷ ks) r =
    check_strings event ks (report (is_blank_text (lookup k event)) (empty_field k) r)

-- The loop over the recipients, from the i-th on.
unfoldable pub check_each_recipient : ℕ → List Value → Outcome → Outcome
unfolding add_error is_blank
check_each_recipient i [] r = r
check_each_recipient i (text s ∷ vs) r =
    check_each_recipient (i + 1) vs (report (is_blank s) (recipient_empty i) r)
check_each_recipient i (v ∷ vs) r =
    check_each_recipient (i + 1) vs (add_error (recipient_not_text i) r)

unfoldable pub check_list : List Value → Outcome → Outcome
unfolding check_each_recipient
check_list [] r = add_error empty_recipients r
check_list (v ∷ vs) r = check_each_recipient 0 (v ∷ vs) r

unfoldable pub check_recipients : Option Value → Outcome → Outcome
unfolding check_list values_of
check_recipients (some (array vs)) r = check_list (values_of vs) r
check_recipients _ r = r

unfoldable pub is_low : ℕ → Option Value → Bool
unfolding is_int_below
is_low n none = false
is_low n (some v) = is_int_below n v

-- Whether a field holds a text with content that is no hash.
unfoldable pub is_bad_hash : Option Value → Bool
unfolding is_blank validate_content_hash
is_bad_hash (some (text s)) = not (is_blank s) && not (validate_content_hash s)
is_bad_hash _ = false

-- The loop over `_HASH_FIELDS`
unfoldable pub check_hashes : Dict Value → List Text → Outcome → Outcome
unfolding report is_bad_hash
check_hashes event [] r = r
check_hashes event (k ∷ ks) r =
    check_hashes event ks (report (is_bad_hash (lookup k event)) (bad_hash k) r)

-- `_validate_field_values`
unfoldable pub validate_field_values : Dict Value → Outcome
unfolding check_strings check_recipients is_low check_hashes
validate_field_values event =
    let r1 = check_strings event string_fields valid in
    let r2 = check_recipients (lookup (codes "recipient_ids") event) r1 in
    let r3 = report (is_low 2 (lookup (codes "threshold") event)) threshold_low r2 in
    let r4 = report (is_low 1 (lookup (codes "ttl_seconds") event)) ttl_low r3 in
    let r5 = report (is_low 0 (lookup (codes "time") event)) time_negative r4 in
    check_hashes event hash_fields r5

-- `validate_event` for a dict that has a known type
unfoldable pub validate_typed : Text → Dict Value → Outcome
unfolding check_required check_alternatives check_kinds validate_field_values
validate_typed event_type event =
    let r1 = check_required event (get_or event_type required_fields []) valid in
    let r2 = check_alternatives event (lookup event_type alternative_fields) r1 in
    let r3 = check_kinds event r2 in merge (validate_field_values event) r3

-- The event's type, checked.
unfoldable pub validate_type : Option Value → Dict Value → Outcome
unfolding validate_typed
validate_type none event = add_error no_type valid
validate_type (some (text event_type)) event =
    if contains event_type required_fields
    then validate_typed event_type event
    else add_error (unknown_type event_type) valid
validate_type (some _) event = add_error type_not_text valid

unfoldable pub validate_event : Value → Outcome
unfolding validate_type fields_of
validate_event (object fields) =
    validate_type (lookup (codes "type") (fields_of fields)) (fields_of fields)
validate_event _ = add_error not_a_dict valid
