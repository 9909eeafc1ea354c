-- ===== src/Validation/Events.antt =====
-- What a valid scenario says of its events.
use trust_flow_chain_of_cust.Prelude.Dict.{lookup}
use trust_flow_chain_of_cust.Validation.Value.{
  Value, Values, Fields, text, array, object, null, boolean, integer, minus, float, int, values_of,
  fields_of, is_instance, is_int_below,
}
use trust_flow_chain_of_cust.Validation.Outcome.{
  Error, in_event, peer_no_id, peer_id_not_text, peer_id_empty, peer_not_dict, peers_not_list,
  settings_not_dict, wrong_setting, low_setting, both_given, Outcome, valid, add_error, report,
}
use trust_flow_chain_of_cust.Validation.Formats.{is_blank}
use trust_flow_chain_of_cust.Validation.Event.{validate_event}
use trust_flow_chain_of_cust.Validation.Rules.{is_event}
use trust_flow_chain_of_cust.Validation.Verdict.{validate_event-is_event}
use trust_flow_chain_of_cust.Validation.Consistent.{validate_event-IsConsistent}
use trust_flow_chain_of_cust.Validation.Scenario.{
  add_event_errors, check_each_event, check_events, check_peer_id, check_each_peer, check_peers,
  check_setting, check_interval, check_settings, contains_key, check_both, validate_scenario,
}
use trust_flow_chain_of_cust.Prelude.{
  All, if◌then◌else◌, Bool-cases, Option-cases, Text, codes, is_empty, ℕ, ◌+◌, ◌≡◌, refl, sym, ap,
  ◌∙◌, inl, inr, Bool, true, false, not, Option, none, some, List, [], ◌∷◌, arith,
}

-- A check that never makes an outcome valid.
abbrev Keeps : Outcome → Outcome → Type 0
Keeps r after = after.is_valid ≡ true → r.is_valid ≡ true

add_error-Keeps : (x : Error) (r : Outcome) → Keeps r (add_error x r)
unfolding add_error
add_error-Keeps x r h = cc

report-Keeps : (bad : Bool) (x : Error) (r : Outcome) → Keeps r (report bad x r)
unfolding report
report-Keeps true x r h = add_error-Keeps x r h
report-Keeps false x r h = h

add_event_errors-Keeps :
    (i : ℕ) (errors : List Error) (r : Outcome) → Keeps r (add_event_errors i errors r)
unfolding add_event_errors
add_event_errors-Keeps i [] r h = h
add_event_errors-Keeps i (x ∷ errors) r h =
    add_error-Keeps (in_event i x) r
      (add_event_errors-Keeps i errors (add_error (in_event i x) r) h)

-- Errors of an event make the outcome invalid.
add_event_errors_invalid :
    (i : ℕ) (errors : List Error) (r : Outcome)
    → is_empty errors ≡ false
    → ¬ ((add_event_errors i errors r).is_valid ≡ true)
unfolding add_event_errors
add_event_errors_invalid i [] r e h = cc
add_event_errors_invalid i (x ∷ errors) r e h =
    let before = add_event_errors-Keeps i errors (add_error (in_event i x) r) h in
    unfold add_error in absurd (ground (arith, before))

check_each_event_sound :
    (i : ℕ) (events : List Value) (r : Outcome)
    → (check_each_event i events r).is_valid ≡ true
    → (r.is_valid ≡ true) × All (λ v. is_event v ≡ true) events
unfolding check_each_event
check_each_event_sound i [] r h = (h, tt)
check_each_event_sound i (v ∷ events) r h = elim (Bool-cases (validate_event v).is_valid) [
  | inl good ↦
      let (before, rest) = check_each_event_sound (i + 1) events r (
        rw
          (sym (
            ap
              (λ b.
                (check_each_event (i + 1) events
                  (if b then r else add_event_errors i (validate_event v).errors r)).is_valid)
              good))
          h) in
      (before, (sym (validate_event-is_event v) ∙ good, rest))
  | inr bad ↦
      let (before, rest) =
        check_each_event_sound (i + 1) events (add_event_errors i (validate_event v).errors r) (
          rw
            (sym (
              ap
                (λ b.
                  (check_each_event (i + 1) events
                    (if b then r else add_event_errors i (validate_event v).errors r)).is_valid)
                bad))
            h) in
      absurd (
        add_event_errors_invalid i (validate_event v).errors r
          (sym (validate_event-IsConsistent v) ∙ bad) before)
]

check_peer_id-Keeps : (i : ℕ) (o : Option Value) (r : Outcome) → Keeps r (check_peer_id i o r)
unfolding check_peer_id
check_peer_id-Keeps i none r h = add_error-Keeps (peer_no_id i) r h
check_peer_id-Keeps i (some (text s)) r h = report-Keeps (is_blank s) (peer_id_empty i) r h
check_peer_id-Keeps i (some null) r h = add_error-Keeps (peer_id_not_text i) r h
check_peer_id-Keeps i (some (boolean b)) r h = add_error-Keeps (peer_id_not_text i) r h
check_peer_id-Keeps i (some (integer n)) r h = add_error-Keeps (peer_id_not_text i) r h
check_peer_id-Keeps i (some (minus n)) r h = add_error-Keeps (peer_id_not_text i) r h
check_peer_id-Keeps i (some (float b)) r h = add_error-Keeps (peer_id_not_text i) r h
check_peer_id-Keeps i (some (array vs)) r h = add_error-Keeps (peer_id_not_text i) r h
check_peer_id-Keeps i (some (object fs)) r h = add_error-Keeps (peer_id_not_text i) r h

check_each_peer-Keeps :
    (i : ℕ) (peers : List Value) (r : Outcome) → Keeps r (check_each_peer i peers r)
unfolding check_each_peer
check_each_peer-Keeps i [] r h = h
check_each_peer-Keeps i (object config ∷ peers) r h =
    let id = lookup (codes "id") (fields_of config) in
    check_peer_id-Keeps i id r (check_each_peer-Keeps (i + 1) peers (check_peer_id i id r) h)
check_each_peer-Keeps i (null ∷ peers) r h =
    add_error-Keeps (peer_not_dict i) r
      (check_each_peer-Keeps (i + 1) peers (add_error (peer_not_dict i) r) h)
check_each_peer-Keeps i (boolean b ∷ peers) r h =
    add_error-Keeps (peer_not_dict i) r
      (check_each_peer-Keeps (i + 1) peers (add_error (peer_not_dict i) r) h)
check_each_peer-Keeps i (integer n ∷ peers) r h =
    add_error-Keeps (peer_not_dict i) r
      (check_each_peer-Keeps (i + 1) peers (add_error (peer_not_dict i) r) h)
check_each_peer-Keeps i (minus n ∷ peers) r h =
    add_error-Keeps (peer_not_dict i) r
      (check_each_peer-Keeps (i + 1) peers (add_error (peer_not_dict i) r) h)
check_each_peer-Keeps i (float b ∷ peers) r h =
    add_error-Keeps (peer_not_dict i) r
      (check_each_peer-Keeps (i + 1) peers (add_error (peer_not_dict i) r) h)
check_each_peer-Keeps i (text t ∷ peers) r h =
    add_error-Keeps (peer_not_dict i) r
      (check_each_peer-Keeps (i + 1) peers (add_error (peer_not_dict i) r) h)
check_each_peer-Keeps i (array vs ∷ peers) r h =
    add_error-Keeps (peer_not_dict i) r
      (check_each_peer-Keeps (i + 1) peers (add_error (peer_not_dict i) r) h)

check_peers-Keeps : (o : Option Value) (r : Outcome) → Keeps r (check_peers o r)
unfolding check_peers
check_peers-Keeps none r h = h
check_peers-Keeps (some (array peers)) r h = check_each_peer-Keeps 0 (values_of peers) r h
check_peers-Keeps (some null) r h = add_error-Keeps peers_not_list r h
check_peers-Keeps (some (boolean b)) r h = add_error-Keeps peers_not_list r h
check_peers-Keeps (some (integer n)) r h = add_error-Keeps peers_not_list r h
check_peers-Keeps (some (minus n)) r h = add_error-Keeps peers_not_list r h
check_peers-Keeps (some (float b)) r h = add_error-Keeps peers_not_list r h
check_peers-Keeps (some (text t)) r h = add_error-Keeps peers_not_list r h
check_peers-Keeps (some (object fs)) r h = add_error-Keeps peers_not_list r h

check_setting-Keeps :
    (k : Text) (n : ℕ) (o : Option Value) (r : Outcome) → Keeps r (check_setting k n o r)
unfolding check_setting
check_setting-Keeps k n none r h = h
check_setting-Keeps k n (some v) r h = elim (Bool-cases (is_instance int v)) [
  | inl number ↦ report-Keeps (is_int_below n v) (low_setting k) r (ground (arith, h, number))
  | inr other ↦ add_error-Keeps (wrong_setting k) r (ground (arith, h, other))
]

check_interval-Keeps : (k : Text) (o : Option Value) (r : Outcome) → Keeps r (check_interval k o r)
unfolding check_interval
check_interval-Keeps k none r h = check_setting-Keeps k 1 none r h
check_interval-Keeps k (some (float above)) r h = report-Keeps (not above) (low_setting k) r h
check_interval-Keeps k (some null) r h = check_setting-Keeps k 1 (some null) r h
check_interval-Keeps k (some (boolean b)) r h = check_setting-Keeps k 1 (some (boolean b)) r h
check_interval-Keeps k (some (integer n)) r h = check_setting-Keeps k 1 (some (integer n)) r h
check_interval-Keeps k (some (minus n)) r h = check_setting-Keeps k 1 (some (minus n)) r h
check_interval-Keeps k (some (text t)) r h = check_setting-Keeps k 1 (some (text t)) r h
check_interval-Keeps k (some (array vs)) r h = check_setting-Keeps k 1 (some (array vs)) r h
check_interval-Keeps k (some (object fs)) r h = check_setting-Keeps k 1 (some (object fs)) r h

check_settings-Keeps : (o : Option Value) (r : Outcome) → Keeps r (check_settings o r)
unfolding check_settings
check_settings-Keeps none r h = h
check_settings-Keeps (some (object settings)) r h =
    let given = fields_of settings in
    let total = lookup (codes "total_peers") given in
    let sharing = lookup (codes "secret_sharing_threshold") given in
    let r1 = check_setting (codes "total_peers") 1 total r in
    let r2 = check_setting (codes "secret_sharing_threshold") 2 sharing r1 in
    check_setting-Keeps (codes "total_peers") 1 total r (
      check_setting-Keeps (codes "secret_sharing_threshold") 2 sharing r1 (
        check_interval-Keeps (codes "timelock_cleanup_interval")
          (lookup (codes "timelock_cleanup_interval") given) r2 h))
check_settings-Keeps (some null) r h = add_error-Keeps settings_not_dict r h
check_settings-Keeps (some (boolean b)) r h = add_error-Keeps settings_not_dict r h
check_settings-Keeps (some (integer n)) r h = add_error-Keeps settings_not_dict r h
check_settings-Keeps (some (minus n)) r h = add_error-Keeps settings_not_dict r h
check_settings-Keeps (some (float b)) r h = add_error-Keeps settings_not_dict r h
check_settings-Keeps (some (text t)) r h = add_error-Keeps settings_not_dict r h
check_settings-Keeps (some (array vs)) r h = add_error-Keeps settings_not_dict r h

check_both-Keeps :
    (peers settings : Option Value) (r after : Outcome)
    → check_both peers settings r ≡ some after
    → Keeps r after
check_both-Keeps none settings r after e h = unfold check_both in ground (arith, e, h)
check_both-Keeps (some p) none r after e h = unfold check_both in ground (arith, e, h)
check_both-Keeps (some p) (some s) r after e h =
    elim (Option-cases (contains_key (codes "total_peers") s)) [
      | inl q ↦ absurd (unfold check_both in ground (arith, e, q))
      | inr (b, q) ↦
          let same : report b both_given r ≡ after = unfold check_both in ground (arith, e, q) in
          report-Keeps b both_given r (ap (λ o. o.is_valid) same ∙ h)
    ]

check_events_sound :
    (o : Option Value)
    → (check_events o valid).is_valid ≡ true
    → (vs : Values) × ((o ≡ some (array vs)) × All (λ v. is_event v ≡ true) (values_of vs))
unfolding check_events add_error
check_events_sound none h = cc
check_events_sound (some (array vs)) h =
    (vs, (refl, (check_each_event_sound 0 (values_of vs) valid h).1))
check_events_sound (some null) h = cc
check_events_sound (some (boolean b)) h = cc
check_events_sound (some (integer n)) h = cc
check_events_sound (some (minus n)) h = cc
check_events_sound (some (float b)) h = cc
check_events_sound (some (text t)) h = cc
check_events_sound (some (object fs)) h = cc

-- If the validator of scenarios returns an outcome that is valid, then the scenario has a list
-- of events, each of which is a well-formed event of a known type.
pub validate_scenario_sound :
    (fields : Fields) (r : Outcome)
    → validate_scenario (object fields) ≡ some r
    → r.is_valid ≡ true
    → (vs : Values) × ((lookup (codes "events") (fields_of fields) ≡ some (array vs))
        × All (λ v. is_event v ≡ true) (values_of vs))
unfolding validate_scenario
validate_scenario_sound fields r e h =
    let given = fields_of fields in
    let peers = lookup (codes "peers") given in
    let settings = lookup (codes "settings") given in
    let r1 = check_events (lookup (codes "events") given) valid in
    let r2 = check_peers peers r1 in
    let r3 = check_settings settings r2 in
    check_events_sound (lookup (codes "events") given) (
      check_peers-Keeps peers r1
        (check_settings-Keeps settings r2 (check_both-Keeps peers settings r3 r e h)))
