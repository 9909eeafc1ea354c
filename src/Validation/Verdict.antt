-- ===== src/Validation/Verdict.antt =====
-- Which events are valid.
use trust_flow_chain_of_cust.Prelude.Dict.{Dict, lookup, contains, IsUnique}
use trust_flow_chain_of_cust.Validation.Value.{
  Value, text, array, object, integer, minus, boolean, float, null, fields_of, fields_of-IsUnique,
}
use trust_flow_chain_of_cust.Validation.Event.{
  string_fields, hash_fields, field_kind, has_kind, has_any, is_blank_text, is_low, is_bad_hash,
  validate_event,
}
use trust_flow_chain_of_cust.Validation.Grammar.{
  has_alternative, has_recipients, has_values, is_well_formed, is_accepted_type, is_accepted,
}
use trust_flow_chain_of_cust.Validation.Rules.{
  all_of, any_of, Rule, obeys, rules, shapes, has_one, has_shape, obeys_all, is_typed, is_event,
}
use mathlib.Core.Bool.{and-true}
use trust_flow_chain_of_cust.Validation.Rules.{
  any_of, shapes, has_one, has_shape, obeys_all, is_typed, is_event,
}
use trust_flow_chain_of_cust.Prelude.{
  Text-discrete, ℕ_discrete, elem, codes, not, List, Option-cases, inl, inr,
}
use trust_flow_chain_of_cust.Validation.WellFormed.{validate_event-is_accepted}
use trust_flow_chain_of_cust.Validation.Grammar.{
  has_values, is_well_formed, is_accepted_type, is_accepted, has_alternative, has_recipients,
}
use trust_flow_chain_of_cust.Validation.Tables.{
  rules_agree, Fits, shapes_fit, required_fields_unknown, has_its_kind, has_content, has_hash,
  lists_recipients, is_high,
}
use trust_flow_chain_of_cust.Validation.Tables.{
  kind_ok, passes, rules_agree, field_kind_free, Fits, shapes_fit, required_fields_unknown,
}
use trust_flow_chain_of_cust.Validation.WellFormed.{validate_event-is_accepted}
use trust_flow_chain_of_cust.Prelude.{
  All, elem, if◌then◌else◌, Text, codes, ◌≡◌, refl, sym, ap, ◌∙◌, Bool, true, false, not, ◌&&◌,
  Option, none, some, List, [], ◌∷◌, arith, Text-discrete, ℕ_discrete, Option-cases, inl, inr,
}

-- A test of every name that has a rule, on what a dict has under it.
abbrev tested : (Text → Option Value → Bool) → Dict Value → Dict Rule → Bool
tested p d rs = all_of (λ e. p e.0 (lookup e.0 d)) rs

tested-and :
    (p q : Text → Option Value → Bool) (d : Dict Value) (rs : Dict Rule)
    → tested (λ k o. p k o && q k o) d rs ≡ (tested p d rs && tested q d rs)
unfolding all_of
tested-and p q d [] = refl
tested-and p q d ((k, r) ∷ rs) = ground (arith, tested-and p q d rs)

tested-rules :
    (d : Dict Value) (rs : Dict Rule)
    → All (λ e. (o : Option Value) → obeys e.1 o ≡ passes e.0 o) rs
    → all_of (λ e. obeys e.1 (lookup e.0 d)) rs ≡ tested passes d rs
unfolding all_of
tested-rules d [] a = refl
tested-rules d ((k, r) ∷ rs) a = rw (a.0 (lookup k d), tested-rules d rs a.1) refl

-- One field more.
tested-cons :
    (p : Text → Option Value → Bool) (k : Text) (v : Value) (d : Dict Value) (rs : Dict Rule)
    → ((j : Text) → p j none ≡ true)
    → lookup k d ≡ none
    → tested p ((k, v) ∷ d) rs ≡ ((if contains k rs then p k (some v) else true) && tested p d rs)
unfolding all_of lookup
tested-cons p k v d [] free fresh = refl
tested-cons p k v d ((j, r) ∷ rs) free fresh = elim (Text-discrete j k) [
  | yes same ↦ rw same (ground (arith, tested-cons p k v d rs free fresh, fresh, free k))
  | no other ↦ ground (arith, tested-cons p k v d rs free fresh, fresh, other)
]

tested-nil :
    (p : Text → Option Value → Bool) (rs : Dict Rule)
    → ((j : Text) → p j none ≡ true)
    → tested p [] rs ≡ true
unfolding all_of lookup
tested-nil p [] free = refl
tested-nil p ((j, r) ∷ rs) free = ground (arith, tested-nil p rs free, free j)

-- Testing all fields is testing those that have a rule, if the others pass.
tested-fields :
    (p : Text → Option Value → Bool) (d : Dict Value) (rs : Dict Rule)
    → ((j : Text) → p j none ≡ true)
    → ((k : Text) (v : Value) → contains k rs ≡ false → p k (some v) ≡ true)
    → IsUnique d
    → all_of (λ e. p e.0 (some e.1)) d ≡ tested p d rs
unfolding all_of
tested-fields p [] rs free other u = sym (tested-nil p rs free)
tested-fields p ((k, v) ∷ d) rs free other u = rw (tested-fields p d rs free other u.1) (
    sym
      (tested-cons p k v d rs free u.0 ∙ ap (λ b. b && tested p d rs) (here (contains k rs) refl)))
  where
    here : (b : Bool) → contains k rs ≡ b → (if b then p k (some v) else true) ≡ p k (some v)
    here true e = refl
    here false e = sym (other k v e)

kinds_tested :
    (d : Dict Value)
    → IsUnique d
    → all_of (λ e. has_kind (field_kind e.0) e.1) d
      ≡ tested (λ k o. kind_ok (field_kind k) o) d rules
unfolding kind_ok
kinds_tested d u =
    tested-fields (λ k o. kind_ok (field_kind k) o) d rules (λ j. refl)
      (λ k v h. rw (field_kind_free k h, has_kind) refl) u

strings_tested :
    (d : Dict Value)
    → tested has_content d rules ≡ all_of (λ k. not (is_blank_text (lookup k d))) string_fields
unfolding all_of elem Text-discrete ℕ_discrete
strings_tested d = refl

hashes_tested :
    (d : Dict Value)
    → tested has_hash d rules ≡ all_of (λ k. not (is_bad_hash (lookup k d))) hash_fields
unfolding all_of elem Text-discrete ℕ_discrete
hashes_tested d = refl

recipients_tested :
    (d : Dict Value)
    → tested lists_recipients d rules ≡ has_recipients (lookup (codes "recipient_ids") d)
unfolding all_of Text-discrete ℕ_discrete
recipients_tested d = and-true (has_recipients (lookup (codes "recipient_ids") d))

threshold_tested :
    (d : Dict Value)
    → tested (is_high (codes "threshold") 2) d rules ≡ not (is_low 2 (lookup (codes "threshold") d))
unfolding all_of Text-discrete ℕ_discrete
threshold_tested d = and-true (not (is_low 2 (lookup (codes "threshold") d)))

ttl_tested :
    (d : Dict Value)
    → tested (is_high (codes "ttl_seconds") 1) d rules
      ≡ not (is_low 1 (lookup (codes "ttl_seconds") d))
unfolding all_of Text-discrete ℕ_discrete
ttl_tested d = and-true (not (is_low 1 (lookup (codes "ttl_seconds") d)))

time_tested :
    (d : Dict Value)
    → tested (is_high (codes "time") 0) d rules ≡ not (is_low 0 (lookup (codes "time") d))
unfolding all_of Text-discrete ℕ_discrete
time_tested d = and-true (not (is_low 0 (lookup (codes "time") d)))

abbrev high2 : Text → Option Value → Bool
high2 = is_high (codes "threshold") 2

abbrev high1 : Text → Option Value → Bool
high1 = is_high (codes "ttl_seconds") 1

abbrev high0 : Text → Option Value → Bool
high0 = is_high (codes "time") 0

-- The rules hold just when the checks of the values pass.
obeys_all-eq :
    (d : Dict Value)
    → IsUnique d
    → obeys_all d ≡ (all_of (λ e. has_kind (field_kind e.0) e.1) d && has_values d)
unfolding obeys_all has_values
obeys_all-eq d u =
    tested-rules d rules rules_agree
    ∙ tested-and has_its_kind
        (λ k o.
          has_content k o
          && (lists_recipients k o && (high2 k o && (high1 k o && (high0 k o && has_hash k o)))))
        d rules
    ∙ ap (λ b. tested has_its_kind d rules && b)
        (tested-and has_content
            (λ k o.
              lists_recipients k o && (high2 k o && (high1 k o && (high0 k o && has_hash k o))))
            d rules
          ∙ ap (λ b. tested has_content d rules && b)
              (tested-and lists_recipients
                  (λ k o. high2 k o && (high1 k o && (high0 k o && has_hash k o))) d rules
                ∙ ap (λ b. tested lists_recipients d rules && b)
                    (tested-and high2 (λ k o. high1 k o && (high0 k o && has_hash k o)) d rules
                      ∙ ap (λ b. tested high2 d rules && b)
                          (tested-and high1 (λ k o. high0 k o && has_hash k o) d rules
                            ∙ ap (λ b. tested high1 d rules && b)
                                (tested-and high0 has_hash d rules)))))
    ∙ rw
        (
          kinds_tested d u,
          strings_tested d,
          recipients_tested d,
          threshold_tested d,
          ttl_tested d,
          time_tested d,
          hashes_tested d,
        )
        (regrouped (tested has_its_kind d rules)
          (all_of (λ k. not (is_blank_text (lookup k d))) string_fields)
          (has_recipients (lookup (codes "recipient_ids") d))
          (not (is_low 2 (lookup (codes "threshold") d)))
          (not (is_low 1 (lookup (codes "ttl_seconds") d)))
          (not (is_low 0 (lookup (codes "time") d)))
          (all_of (λ k. not (is_bad_hash (lookup k d))) hash_fields))
  where
    regrouped :
        (k s r l t i h : Bool)
        → (k && (s && (r && (l && (t && (i && h)))))) ≡ (k && (s && r && l && t && i && h))
    regrouped k s r l t i h = ground arith

has_any-any_of : (d : Dict Value) (ks : List Text) → has_any d ks ≡ any_of (λ k. contains k d) ks
unfolding has_any any_of
has_any-any_of d [] = refl
has_any-any_of d (k ∷ ks) = rw (has_any-any_of d ks) refl

has_alternative-has_one :
    (d : Dict Value) (o : Option (List Text)) → has_alternative d o ≡ has_one d o
unfolding has_alternative has_one
has_alternative-has_one d none = refl
has_alternative-has_one d (some ks) = has_any-any_of d ks

lookup-All :
    {A : Type 0} (P : Text → A → Type 0) (k : Text) (v : A) (d : Dict A)
    → All (λ e. P e.0 e.1) d
    → lookup k d ≡ some v
    → P k v
unfolding lookup
lookup-All P k v [] a h = cc
lookup-All P k v ((j, w) ∷ d) a h = elim (Text-discrete k j) [
  | yes same ↦ found (ground (arith, h, same)) same
  | no other ↦ lookup-All P k v d a.1 (ground (arith, h, other))
]
  where
    found : w ≡ v → k ≡ j → P k v
    found e same = rw (same, sym e) a.0

is_accepted_type-is_typed :
    (o : Option Value) (d : Dict Value) → IsUnique d → is_accepted_type o d ≡ is_typed o d
unfolding is_accepted_type is_typed
is_accepted_type-is_typed none d u = refl
is_accepted_type-is_typed (some null) d u = refl
is_accepted_type-is_typed (some (boolean b)) d u = refl
is_accepted_type-is_typed (some (integer n)) d u = refl
is_accepted_type-is_typed (some (minus n)) d u = refl
is_accepted_type-is_typed (some (float b)) d u = refl
is_accepted_type-is_typed (some (array vs)) d u = refl
is_accepted_type-is_typed (some (object fs)) d u = refl
is_accepted_type-is_typed (some (text t)) d u = elim (Option-cases (lookup t shapes)) [
  | inl unknown ↦ rw (required_fields_unknown t unknown, unknown, is_typed) refl
  | inr (shape, known) ↦
      let (required, needs, group) = lookup-All Fits t shape shapes shapes_fit known in
      rw (required, known, is_typed)
        (unfold is_well_formed has_shape in
          (rw (needs, group, has_alternative-has_one d shape.one_of, obeys_all-eq d u)
            (and_assoc (all_of (λ k. contains k d) shape.needs) (has_one d shape.one_of)
              (all_of (λ e. has_kind (field_kind e.0) e.1) d) (has_values d))))
]
  where
    and_assoc : (a b c e : Bool) → (a && b && c && e) ≡ (a && b && (c && e))
    and_assoc a b c e = ground arith

-- An event passes the validator exactly when it is a dict whose type names one of eleven
-- shapes, which has the fields that the shape needs and one of its alternatives, and in which
-- each of twenty named fields, where it is there, obeys one rule: to be a text with a
-- character that is no space, such a text of 64 hexadecimal digits and at most a line end, any
-- text, a list, a list of texts with content that is not empty, or an integer that is not
-- below a bound.
pub validate_event-is_event : (v : Value) → (validate_event v).is_valid ≡ is_event v
unfolding is_accepted is_event
validate_event-is_event (object fields) =
    validate_event-is_accepted (object fields)
    ∙ is_accepted_type-is_typed (lookup (codes "type") (fields_of fields)) (fields_of fields)
        (fields_of-IsUnique fields)
validate_event-is_event null = validate_event-is_accepted null
validate_event-is_event (boolean b) = validate_event-is_accepted (boolean b)
validate_event-is_event (integer n) = validate_event-is_accepted (integer n)
validate_event-is_event (minus n) = validate_event-is_accepted (minus n)
validate_event-is_event (float b) = validate_event-is_accepted (float b)
validate_event-is_event (text t) = validate_event-is_accepted (text t)
validate_event-is_event (array vs) = validate_event-is_accepted (array vs)
