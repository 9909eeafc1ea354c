-- ===== src/Validation/Consistent.antt =====
-- An outcome is invalid exactly when it has errors.
use trust_flow_chain_of_cust.Prelude.Dict.{Dict, lookup, contains, get_or}
use trust_flow_chain_of_cust.Validation.Value.{
  Value, text, array, object, null, boolean, integer, minus, float, values_of, fields_of,
}
use trust_flow_chain_of_cust.Validation.Outcome.{
  Error, not_a_dict, no_type, type_not_text, unknown_type, missing, wrong_type, empty_field,
  bad_hash, missing_all, empty_recipients, recipient_not_text, recipient_empty, threshold_low,
  ttl_low, time_negative, Outcome, valid, add_error, merge, report,
}
use trust_flow_chain_of_cust.Validation.Formats.{is_blank}
use trust_flow_chain_of_cust.Validation.Event.{
  required_fields, alternative_fields, string_fields, hash_fields, field_kind, has_kind, has_any,
  is_blank_text, is_low, is_bad_hash, check_required, check_alternatives, check_kinds,
  check_strings, check_each_recipient, check_list, check_recipients, check_hashes,
  validate_field_values, validate_typed, validate_type, validate_event,
}
use trust_flow_chain_of_cust.Prelude.{
  Bool-cases, Text, codes, is_empty, ℕ, ◌+◌, ◌≡◌, refl, sym, ◌∙◌, inl, inr, Bool, true, false, not,
  Option, none, some, List, [], ◌∷◌, ◌++◌,
}

abbrev pub IsConsistent : Outcome → Type 0
IsConsistent r = r.is_valid ≡ is_empty r.errors

not_empty : (xs : List Error) (x : Error) → is_empty (xs ++ x ∷ []) ≡ false
not_empty [] x = refl
not_empty (y ∷ xs) x = refl

add_error-IsConsistent : (x : Error) (r : Outcome) → IsConsistent (add_error x r)
unfolding add_error
add_error-IsConsistent x r = sym (not_empty r.errors x)

report-IsConsistent :
    (bad : Bool) (x : Error) (r : Outcome) → IsConsistent r → IsConsistent (report bad x r)
unfolding report
report-IsConsistent true x r h = add_error-IsConsistent x r
report-IsConsistent false x r h = h

joined_empty : (xs ys : List Error) → is_empty ys ≡ false → is_empty (xs ++ ys) ≡ false
joined_empty [] ys e = e
joined_empty (x ∷ xs) ys e = refl

merge-IsConsistent :
    (other r : Outcome) → IsConsistent other → IsConsistent r → IsConsistent (merge other r)
merge-IsConsistent other r k h = elim (Bool-cases other.is_valid) [
  | inl good ↦ unfold merge in rw (good) h
  | inr bad ↦ unfold merge in rw (bad) (sym (joined_empty r.errors other.errors (sym k ∙ bad)))
]

check_required-IsConsistent :
    (event : Dict Value) (ks : List Text) (r : Outcome)
    → IsConsistent r
    → IsConsistent (check_required event ks r)
unfolding check_required
check_required-IsConsistent event [] r h = h
check_required-IsConsistent event (k ∷ ks) r h =
    check_required-IsConsistent event ks (report (not (contains k event)) (missing k) r)
      (report-IsConsistent (not (contains k event)) (missing k) r h)

check_strings-IsConsistent :
    (event : Dict Value) (ks : List Text) (r : Outcome)
    → IsConsistent r
    → IsConsistent (check_strings event ks r)
unfolding check_strings
check_strings-IsConsistent event [] r h = h
check_strings-IsConsistent event (k ∷ ks) r h =
    check_strings-IsConsistent event ks (report (is_blank_text (lookup k event)) (empty_field k) r)
      (report-IsConsistent (is_blank_text (lookup k event)) (empty_field k) r h)

check_hashes-IsConsistent :
    (event : Dict Value) (ks : List Text) (r : Outcome)
    → IsConsistent r
    → IsConsistent (check_hashes event ks r)
unfolding check_hashes
check_hashes-IsConsistent event [] r h = h
check_hashes-IsConsistent event (k ∷ ks) r h =
    check_hashes-IsConsistent event ks (report (is_bad_hash (lookup k event)) (bad_hash k) r)
      (report-IsConsistent (is_bad_hash (lookup k event)) (bad_hash k) r h)

check_kinds-IsConsistent :
    (fields : Dict Value) (r : Outcome) → IsConsistent r → IsConsistent (check_kinds fields r)
unfolding check_kinds
check_kinds-IsConsistent [] r h = h
check_kinds-IsConsistent ((k, v) ∷ fields) r h =
    let bad = not (has_kind (field_kind k) v) in
    check_kinds-IsConsistent fields (report bad (wrong_type k) r)
      (report-IsConsistent bad (wrong_type k) r h)

check_alternatives-IsConsistent :
    (event : Dict Value) (group : Option (List Text)) (r : Outcome)
    → IsConsistent r
    → IsConsistent (check_alternatives event group r)
unfolding check_alternatives
check_alternatives-IsConsistent event none r h = h
check_alternatives-IsConsistent event (some g) r h =
    report-IsConsistent (not (has_any event g)) (missing_all g) r h

check_each_recipient-IsConsistent :
    (i : ℕ) (vs : List Value) (r : Outcome)
    → IsConsistent r
    → IsConsistent (check_each_recipient i vs r)
unfolding check_each_recipient
check_each_recipient-IsConsistent i [] r h = h
check_each_recipient-IsConsistent i (text s ∷ vs) r h =
    check_each_recipient-IsConsistent (i + 1) vs (report (is_blank s) (recipient_empty i) r)
      (report-IsConsistent (is_blank s) (recipient_empty i) r h)
check_each_recipient-IsConsistent i (null ∷ vs) r h =
    check_each_recipient-IsConsistent (i + 1) vs (add_error (recipient_not_text i) r)
      (add_error-IsConsistent (recipient_not_text i) r)
check_each_recipient-IsConsistent i (boolean b ∷ vs) r h =
    check_each_recipient-IsConsistent (i + 1) vs (add_error (recipient_not_text i) r)
      (add_error-IsConsistent (recipient_not_text i) r)
check_each_recipient-IsConsistent i (integer n ∷ vs) r h =
    check_each_recipient-IsConsistent (i + 1) vs (add_error (recipient_not_text i) r)
      (add_error-IsConsistent (recipient_not_text i) r)
check_each_recipient-IsConsistent i (minus n ∷ vs) r h =
    check_each_recipient-IsConsistent (i + 1) vs (add_error (recipient_not_text i) r)
      (add_error-IsConsistent (recipient_not_text i) r)
check_each_recipient-IsConsistent i (float b ∷ vs) r h =
    check_each_recipient-IsConsistent (i + 1) vs (add_error (recipient_not_text i) r)
      (add_error-IsConsistent (recipient_not_text i) r)
check_each_recipient-IsConsistent i (array ws ∷ vs) r h =
    check_each_recipient-IsConsistent (i + 1) vs (add_error (recipient_not_text i) r)
      (add_error-IsConsistent (recipient_not_text i) r)
check_each_recipient-IsConsistent i (object fs ∷ vs) r h =
    check_each_recipient-IsConsistent (i + 1) vs (add_error (recipient_not_text i) r)
      (add_error-IsConsistent (recipient_not_text i) r)

check_list-IsConsistent :
    (vs : List Value) (r : Outcome) → IsConsistent r → IsConsistent (check_list vs r)
unfolding check_list
check_list-IsConsistent [] r h = add_error-IsConsistent empty_recipients r
check_list-IsConsistent (v ∷ vs) r h = check_each_recipient-IsConsistent 0 (v ∷ vs) r h

check_recipients-IsConsistent :
    (o : Option Value) (r : Outcome) → IsConsistent r → IsConsistent (check_recipients o r)
unfolding check_recipients
check_recipients-IsConsistent none r h = h
check_recipients-IsConsistent (some (array vs)) r h = check_list-IsConsistent (values_of vs) r h
check_recipients-IsConsistent (some null) r h = h
check_recipients-IsConsistent (some (boolean b)) r h = h
check_recipients-IsConsistent (some (integer n)) r h = h
check_recipients-IsConsistent (some (minus n)) r h = h
check_recipients-IsConsistent (some (float b)) r h = h
check_recipients-IsConsistent (some (text t)) r h = h
check_recipients-IsConsistent (some (object fs)) r h = h

validate_field_values-IsConsistent :
    (event : Dict Value) → IsConsistent (validate_field_values event)
unfolding validate_field_values
validate_field_values-IsConsistent event =
    let low1 = is_low 2 (lookup (codes "threshold") event) in
    let low2 = is_low 1 (lookup (codes "ttl_seconds") event) in
    let low3 = is_low 0 (lookup (codes "time") event) in
    let r1 = check_strings event string_fields valid in
    let r2 = check_recipients (lookup (codes "recipient_ids") event) r1 in
    let r3 = report low1 threshold_low r2 in
    let r4 = report low2 ttl_low r3 in
    let h1 = check_strings-IsConsistent event string_fields valid refl in
    let h2 = check_recipients-IsConsistent (lookup (codes "recipient_ids") event) r1 h1 in
    let h3 = report-IsConsistent low1 threshold_low r2 h2 in
    let h4 = report-IsConsistent low2 ttl_low r3 h3 in
    check_hashes-IsConsistent event hash_fields (report low3 time_negative r4)
      (report-IsConsistent low3 time_negative r4 h4)

validate_typed-IsConsistent :
    (event_type : Text) (event : Dict Value) → IsConsistent (validate_typed event_type event)
unfolding validate_typed
validate_typed-IsConsistent event_type event =
    let required = get_or event_type required_fields [] in
    let group = lookup event_type alternative_fields in
    let r1 = check_required event required valid in
    let h1 = check_required-IsConsistent event required valid refl in
    let h2 = check_alternatives-IsConsistent event group r1 h1 in
    merge-IsConsistent (validate_field_values event)
      (check_kinds event (check_alternatives event group r1))
      (validate_field_values-IsConsistent event)
      (check_kinds-IsConsistent event (check_alternatives event group r1) h2)

validate_type-IsConsistent :
    (o : Option Value) (event : Dict Value) → IsConsistent (validate_type o event)
unfolding validate_type
validate_type-IsConsistent none event = add_error-IsConsistent no_type valid
validate_type-IsConsistent (some (text t)) event = elim (Bool-cases (contains t required_fields)) [
  | inl known ↦ rw (known) (validate_typed-IsConsistent t event)
  | inr unknown ↦ rw (unknown) (add_error-IsConsistent (unknown_type t) valid)
]
validate_type-IsConsistent (some null) event = add_error-IsConsistent type_not_text valid
validate_type-IsConsistent (some (boolean b)) event = add_error-IsConsistent type_not_text valid
validate_type-IsConsistent (some (integer n)) event = add_error-IsConsistent type_not_text valid
validate_type-IsConsistent (some (minus n)) event = add_error-IsConsistent type_not_text valid
validate_type-IsConsistent (some (float b)) event = add_error-IsConsistent type_not_text valid
validate_type-IsConsistent (some (array vs)) event = add_error-IsConsistent type_not_text valid
validate_type-IsConsistent (some (object fs)) event = add_error-IsConsistent type_not_text valid

-- An event is invalid exactly when there is an error to show for it.
pub validate_event-IsConsistent : (v : Value) → IsConsistent (validate_event v)
unfolding validate_event
validate_event-IsConsistent (object fields) =
    validate_type-IsConsistent (lookup (codes "type") (fields_of fields)) (fields_of fields)
validate_event-IsConsistent null = add_error-IsConsistent not_a_dict valid
validate_event-IsConsistent (boolean b) = add_error-IsConsistent not_a_dict valid
validate_event-IsConsistent (integer n) = add_error-IsConsistent not_a_dict valid
validate_event-IsConsistent (minus n) = add_error-IsConsistent not_a_dict valid
validate_event-IsConsistent (float b) = add_error-IsConsistent not_a_dict valid
validate_event-IsConsistent (text t) = add_error-IsConsistent not_a_dict valid
validate_event-IsConsistent (array vs) = add_error-IsConsistent not_a_dict valid
