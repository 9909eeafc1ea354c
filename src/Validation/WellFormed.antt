-- ===== src/Validation/WellFormed.antt =====
-- The outcome of the validator for one event is that of its checks.
use trust_flow_chain_of_cust.Prelude.Dict.{Dict, lookup, contains, get_or}
use trust_flow_chain_of_cust.Validation.Value.{
  Value, text, array, object, null, boolean, integer, minus, float, values_of, fields_of,
}
use trust_flow_chain_of_cust.Validation.Outcome.{
  threshold_low, ttl_low, time_negative, missing, wrong_type, empty_field, bad_hash, Error,
  recipient_not_text, recipient_empty, Outcome, valid, add_error, merge, report, missing,
}
use trust_flow_chain_of_cust.Validation.Formats.{is_blank}
use trust_flow_chain_of_cust.Validation.Rules.{all_of}
use trust_flow_chain_of_cust.Validation.Grammar.{
  is_recipient, has_alternative, has_recipients, has_values, is_well_formed, is_accepted_type,
  is_accepted,
}
use trust_flow_chain_of_cust.Validation.Event.{
  check_list, required_fields, alternative_fields, string_fields, hash_fields, field_kind, has_kind,
  is_blank_text, is_low, is_bad_hash, check_required, check_alternatives, check_kinds,
  check_strings, check_each_recipient, check_recipients, check_hashes, validate_field_values,
  validate_typed, validate_type, validate_event,
}
use trust_flow_chain_of_cust.Prelude.{
  Bool-cases, Text, codes, is_empty, ℕ, ◌+◌, ◌≡◌, refl, ap, ◌∙◌, inl, inr, Bool, true, not, ◌&&◌,
  Option, none, some, List, [], ◌∷◌, arith,
}

report-is_valid :
    (bad : Bool) (error : Error) (r : Outcome)
    → (report bad error r).is_valid ≡ (not bad && r.is_valid)
unfolding report add_error
report-is_valid bad error r = ground arith

check_required-is_valid :
    (event : Dict Value) (ks : List Text) (r : Outcome)
    → (check_required event ks r).is_valid ≡ (all_of (λ k. contains k event) ks && r.is_valid)
unfolding check_required all_of
check_required-is_valid event [] r = refl
check_required-is_valid event (k ∷ ks) r =
    let next = report (not (contains k event)) (missing k) r in
    ground (
      arith,
      check_required-is_valid event ks next,
      report-is_valid (not (contains k event)) (missing k) r,
    )

check_strings-is_valid :
    (event : Dict Value) (ks : List Text) (r : Outcome)
    → (check_strings event ks r).is_valid
      ≡ (all_of (λ k. not (is_blank_text (lookup k event))) ks && r.is_valid)
unfolding check_strings all_of
check_strings-is_valid event [] r = refl
check_strings-is_valid event (k ∷ ks) r =
    let next = report (is_blank_text (lookup k event)) (empty_field k) r in
    ground (
      arith,
      check_strings-is_valid event ks next,
      report-is_valid (is_blank_text (lookup k event)) (empty_field k) r,
    )

check_hashes-is_valid :
    (event : Dict Value) (ks : List Text) (r : Outcome)
    → (check_hashes event ks r).is_valid
      ≡ (all_of (λ k. not (is_bad_hash (lookup k event))) ks && r.is_valid)
unfolding check_hashes all_of
check_hashes-is_valid event [] r = refl
check_hashes-is_valid event (k ∷ ks) r =
    let next = report (is_bad_hash (lookup k event)) (bad_hash k) r in
    ground (
      arith,
      check_hashes-is_valid event ks next,
      report-is_valid (is_bad_hash (lookup k event)) (bad_hash k) r,
    )

check_kinds-is_valid :
    (fields : Dict Value) (r : Outcome)
    → (check_kinds fields r).is_valid
      ≡ (all_of (λ e. has_kind (field_kind e.0) e.1) fields && r.is_valid)
unfolding check_kinds all_of
check_kinds-is_valid [] r = refl
check_kinds-is_valid ((k, v) ∷ fields) r =
    let next = report (not (has_kind (field_kind k) v)) (wrong_type k) r in
    ground (
      arith,
      check_kinds-is_valid fields next,
      report-is_valid (not (has_kind (field_kind k) v)) (wrong_type k) r,
    )

check_alternatives-is_valid :
    (event : Dict Value) (group : Option (List Text)) (r : Outcome)
    → (check_alternatives event group r).is_valid ≡ (has_alternative event group && r.is_valid)
unfolding check_alternatives report add_error has_alternative
check_alternatives-is_valid event none r = refl
check_alternatives-is_valid event (some g) r = ground arith

check_each_recipient-is_valid :
    (i : ℕ) (vs : List Value) (r : Outcome)
    → (check_each_recipient i vs r).is_valid ≡ (all_of is_recipient vs && r.is_valid)
unfolding check_each_recipient is_recipient all_of
check_each_recipient-is_valid i [] r = refl
check_each_recipient-is_valid i (text s ∷ vs) r =
    let next = report (is_blank s) (recipient_empty i) r in
    ground (
      arith,
      check_each_recipient-is_valid (i + 1) vs next,
      report-is_valid (is_blank s) (recipient_empty i) r,
    )
check_each_recipient-is_valid i (null ∷ vs) r =
    unfold add_error in
    ground (arith, check_each_recipient-is_valid (i + 1) vs (add_error (recipient_not_text i) r))
check_each_recipient-is_valid i (boolean b ∷ vs) r =
    unfold add_error in
    ground (arith, check_each_recipient-is_valid (i + 1) vs (add_error (recipient_not_text i) r))
check_each_recipient-is_valid i (integer n ∷ vs) r =
    unfold add_error in
    ground (arith, check_each_recipient-is_valid (i + 1) vs (add_error (recipient_not_text i) r))
check_each_recipient-is_valid i (minus n ∷ vs) r =
    unfold add_error in
    ground (arith, check_each_recipient-is_valid (i + 1) vs (add_error (recipient_not_text i) r))
check_each_recipient-is_valid i (float b ∷ vs) r =
    unfold add_error in
    ground (arith, check_each_recipient-is_valid (i + 1) vs (add_error (recipient_not_text i) r))
check_each_recipient-is_valid i (array ws ∷ vs) r =
    unfold add_error in
    ground (arith, check_each_recipient-is_valid (i + 1) vs (add_error (recipient_not_text i) r))
check_each_recipient-is_valid i (object fs ∷ vs) r =
    unfold add_error in
    ground (arith, check_each_recipient-is_valid (i + 1) vs (add_error (recipient_not_text i) r))

check_list-is_valid :
    (vs : List Value) (r : Outcome)
    → (check_list vs r).is_valid ≡ ((not (is_empty vs) && all_of is_recipient vs) && r.is_valid)
unfolding check_list add_error
check_list-is_valid [] r = refl
check_list-is_valid (v ∷ vs) r = check_each_recipient-is_valid 0 (v ∷ vs) r

check_recipients-is_valid :
    (o : Option Value) (r : Outcome)
    → (check_recipients o r).is_valid ≡ (has_recipients o && r.is_valid)
unfolding check_recipients has_recipients
check_recipients-is_valid none r = refl
check_recipients-is_valid (some (array vs)) r = check_list-is_valid (values_of vs) r
check_recipients-is_valid (some null) r = refl
check_recipients-is_valid (some (boolean b)) r = refl
check_recipients-is_valid (some (integer n)) r = refl
check_recipients-is_valid (some (minus n)) r = refl
check_recipients-is_valid (some (float b)) r = refl
check_recipients-is_valid (some (text t)) r = refl
check_recipients-is_valid (some (object fs)) r = refl

reordered :
    (a b c d e f : Bool)
    → (f && (not e && (not d && (not c && (b && (a && true))))))
      ≡ (a && b && not c && not d && not e && f)
reordered a b c d e f = ground arith

validate_field_values-is_valid :
    (event : Dict Value) → (validate_field_values event).is_valid ≡ has_values event
validate_field_values-is_valid event =
    let low1 = is_low 2 (lookup (codes "threshold") event) in
    let low2 = is_low 1 (lookup (codes "ttl_seconds") event) in
    let low3 = is_low 0 (lookup (codes "time") event) in
    let r1 = check_strings event string_fields valid in
    let r2 = check_recipients (lookup (codes "recipient_ids") event) r1 in
    let r3 = report low1 threshold_low r2 in
    let r4 = report low2 ttl_low r3 in
    let r5 = report low3 time_negative r4 in
    let hashes = all_of (λ k. not (is_bad_hash (lookup k event))) hash_fields in
    unfold validate_field_values has_values in
    (check_hashes-is_valid event hash_fields r5
      ∙ ap (λ b. hashes && b)
          (report-is_valid low3 time_negative r4
            ∙ ap (λ b. not low3 && b)
                (report-is_valid low2 ttl_low r3
                  ∙ ap (λ b. not low2 && b)
                      (report-is_valid low1 threshold_low r2
                        ∙ ap (λ b. not low1 && b)
                            (check_recipients-is_valid (lookup (codes "recipient_ids") event) r1
                              ∙ ap (λ b. has_recipients (lookup (codes "recipient_ids") event) && b)
                                  (check_strings-is_valid event string_fields valid)))))
      ∙ reordered (all_of (λ k. not (is_blank_text (lookup k event))) string_fields)
          (has_recipients (lookup (codes "recipient_ids") event)) low1 low2 low3 hashes)

merge-is_valid : (other r : Outcome) → (merge other r).is_valid ≡ (other.is_valid && r.is_valid)
unfolding merge
merge-is_valid other r = ground arith

reversed : (a b c d : Bool) → (d && (c && (b && (a && true)))) ≡ (a && b && c && d)
reversed a b c d = ground arith

validate_typed-is_valid :
    (event_type : Text) (event : Dict Value)
    → (validate_typed event_type event).is_valid ≡ is_well_formed event_type event
validate_typed-is_valid event_type event =
    let required = get_or event_type required_fields [] in
    let group = lookup event_type alternative_fields in
    let r1 = check_required event required valid in
    let r2 = check_alternatives event group r1 in
    let kinds = all_of (λ e. has_kind (field_kind e.0) e.1) event in
    unfold validate_typed is_well_formed in
    (merge-is_valid (validate_field_values event) (check_kinds event r2)
      ∙ ap (λ b. b && (check_kinds event r2).is_valid) (validate_field_values-is_valid event)
      ∙ ap (λ b. has_values event && b)
          (check_kinds-is_valid event r2
            ∙ ap (λ b. kinds && b)
                (check_alternatives-is_valid event group r1
                  ∙ ap (λ b. has_alternative event group && b)
                      (check_required-is_valid event required valid)))
      ∙ reversed (all_of (λ k. contains k event) required) (has_alternative event group) kinds
          (has_values event))

validate_type-is_valid :
    (o : Option Value) (event : Dict Value)
    → (validate_type o event).is_valid ≡ is_accepted_type o event
unfolding validate_type is_accepted_type add_error
validate_type-is_valid none event = refl
validate_type-is_valid (some (text event_type)) event =
    elim (Bool-cases (contains event_type required_fields)) [
      | inl known ↦ rw (known) (validate_typed-is_valid event_type event)
      | inr unknown ↦ rw (unknown) refl
    ]
validate_type-is_valid (some null) event = refl
validate_type-is_valid (some (boolean b)) event = refl
validate_type-is_valid (some (integer n)) event = refl
validate_type-is_valid (some (minus n)) event = refl
validate_type-is_valid (some (float b)) event = refl
validate_type-is_valid (some (array vs)) event = refl
validate_type-is_valid (some (object fs)) event = refl

-- The outcome for an event, by the checks.
pub validate_event-is_accepted : (v : Value) → (validate_event v).is_valid ≡ is_accepted v
unfolding validate_event is_accepted add_error
validate_event-is_accepted (object fields) =
    validate_type-is_valid (lookup (codes "type") (fields_of fields)) (fields_of fields)
validate_event-is_accepted null = refl
validate_event-is_accepted (boolean b) = refl
validate_event-is_accepted (integer n) = refl
validate_event-is_accepted (minus n) = refl
validate_event-is_accepted (float b) = refl
validate_event-is_accepted (text t) = refl
validate_event-is_accepted (array vs) = refl
