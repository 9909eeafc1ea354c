-- ===== src/Validation/Scenario.antt =====
-- `validate_scenario`; `none` where it raises.
use trust_flow_chain_of_cust.Prelude.Dict.{lookup, contains}
use trust_flow_chain_of_cust.Validation.Value.{
  Value, text, array, object, float, int, values_of, fields_of, is_instance, is_int_below,
}
use trust_flow_chain_of_cust.Validation.Outcome.{
  Error, not_a_dict, in_event, no_events, events_not_list, peers_not_list, settings_not_dict,
  peer_not_dict, peer_no_id, peer_id_not_text, peer_id_empty, wrong_setting, low_setting,
  both_given, Outcome, valid, add_error, report,
}
use trust_flow_chain_of_cust.Validation.Formats.{is_blank}
use trust_flow_chain_of_cust.Validation.Event.{validate_event}
use trust_flow_chain_of_cust.Prelude.{
  ◌==◌, if◌then◌else◌, Text, codes, text_eq, ℕ, ◌+◌, Bool, true, false, not, ◌&&◌, ◌||◌, Option,
  none, some, List, [], ◌∷◌,
}

-- The errors of the i-th event, each with its number.
unfoldable pub add_event_errors : ℕ → List Error → Outcome → Outcome
unfolding add_error
add_event_errors i [] r = r
add_event_errors i (error ∷ errors) r = add_event_errors i errors (add_error (in_event i error) r)

-- The loop over the events, from the i-th on.
unfoldable pub check_each_event : ℕ → List Value → Outcome → Outcome
unfolding add_event_errors validate_event
check_each_event i [] r = r
check_each_event i (event ∷ events) r =
    let event_result = validate_event event in
    check_each_event (i + 1) events
      (if event_result.is_valid then r else add_event_errors i event_result.errors r)

unfoldable pub check_events : Option Value → Outcome → Outcome
unfolding check_each_event values_of
check_events none r = add_error no_events r
check_events (some (array events)) r = check_each_event 0 (values_of events) r
check_events (some _) r = add_error events_not_list r

unfoldable pub check_peer_id : ℕ → Option Value → Outcome → Outcome
unfolding report is_blank
check_peer_id i none r = add_error (peer_no_id i) r
check_peer_id i (some (text s)) r = report (is_blank s) (peer_id_empty i) r
check_peer_id i (some _) r = add_error (peer_id_not_text i) r

-- The loop over the peers, from the i-th on.
unfoldable pub check_each_peer : ℕ → List Value → Outcome → Outcome
unfolding check_peer_id fields_of
check_each_peer i [] r = r
check_each_peer i (object config ∷ peers) r =
    check_each_peer (i + 1) peers (check_peer_id i (lookup (codes "id") (fields_of config)) r)
check_each_peer i (_ ∷ peers) r = check_each_peer (i + 1) peers (add_error (peer_not_dict i) r)

unfoldable pub check_peers : Option Value → Outcome → Outcome
unfolding check_each_peer values_of
check_peers none r = r
check_peers (some (array peers)) r = check_each_peer 0 (values_of peers) r
check_peers (some _) r = add_error peers_not_list r

-- A setting that is an integer of at least `n`, where it is given.
unfoldable pub check_setting : Text → ℕ → Option Value → Outcome → Outcome
unfolding report is_instance is_int_below
check_setting k n none r = r
check_setting k n (some v) r =
    if is_instance int v
    then report (is_int_below n v) (low_setting k) r
    else add_error (wrong_setting k) r

-- `timelock_cleanup_interval`, which may have a fraction
unfoldable pub check_interval : Text → Option Value → Outcome → Outcome
unfolding check_setting
check_interval k (some (float above)) r = report (not above) (low_setting k) r
check_interval k v r = check_setting k 1 v r

unfoldable pub check_settings : Option Value → Outcome → Outcome
unfolding check_setting check_interval fields_of
check_settings none r = r
check_settings (some (object settings)) r =
    let given = fields_of settings in
    let r1 = check_setting (codes "total_peers") 1 (lookup (codes "total_peers") given) r in
    let r2 =
      check_setting (codes "secret_sharing_threshold") 2
        (lookup (codes "secret_sharing_threshold") given) r1 in
    check_interval (codes "timelock_cleanup_interval")
      (lookup (codes "timelock_cleanup_interval") given) r2
check_settings (some _) r = add_error settings_not_dict r

unfoldable pub is_prefix : Text → Text → Bool
is_prefix [] s = true
is_prefix (c ∷ p) [] = false
is_prefix (c ∷ p) (d ∷ s) = (c == d) && is_prefix p s

unfoldable pub is_infix : Text → Text → Bool
unfolding is_prefix
is_infix p [] = is_prefix p []
is_infix p (d ∷ s) = is_prefix p (d ∷ s) || is_infix p s

unfoldable pub is_text : Text → Value → Bool
is_text k (text s) = text_eq k s
is_text k _ = false

unfoldable pub any_text : Text → List Value → Bool
unfolding is_text
any_text k [] = false
any_text k (v ∷ vs) = is_text k v || any_text k vs

-- `key in value`, `none` where it raises
unfoldable pub contains_key : Text → Value → Option Bool
unfolding fields_of values_of is_infix any_text
contains_key k (object fields) = some (contains k (fields_of fields))
contains_key k (array vs) = some (any_text k (values_of vs))
contains_key k (text s) = some (is_infix k s)
contains_key k _ = none

-- The last check: both ways to say how many peers there are.
unfoldable pub check_both : Option Value → Option Value → Outcome → Option Outcome
unfolding contains_key report
check_both (some peers) (some settings) r = elim (contains_key (codes "total_peers") settings) [
  | none ↦ none
  | some b ↦ some (report b both_given r)
]
check_both _ _ r = some r

unfoldable pub validate_scenario : Value → Option Outcome
unfolding check_events check_peers check_settings check_both fields_of
validate_scenario (object fields) =
    let scenario = fields_of fields in
    let r1 = check_events (lookup (codes "events") scenario) valid in
    let r2 = check_peers (lookup (codes "peers") scenario) r1 in
    let r3 = check_settings (lookup (codes "settings") scenario) r2 in
    check_both (lookup (codes "peers") scenario) (lookup (codes "settings") scenario) r3
validate_scenario _ = some (add_error not_a_dict valid)
