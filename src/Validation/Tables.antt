-- ===== src/Validation/Tables.antt =====
-- The validator's tables and tests of single fields against the rules.
use trust_flow_chain_of_cust.Prelude.Dict.{Dict, lookup, contains, get_or}
use trust_flow_chain_of_cust.Validation.Value.{
  Value, text, array, object, integer, minus, boolean, float, null, values_of, Kind, str, list, int,
  is_int_below,
}
use trust_flow_chain_of_cust.Validation.Formats.{is_blank, is_hex_of, validate_content_hash}
use trust_flow_chain_of_cust.Validation.Event.{
  required_fields, alternative_fields, string_fields, hash_fields, field_kind, has_kind,
  is_blank_text, is_low, is_bad_hash,
}
use trust_flow_chain_of_cust.Validation.Grammar.{is_recipient, has_recipients}
use trust_flow_chain_of_cust.Validation.Rules.{
  all_of, has_ink, is_digest, any_text, word, digest, any_list, recipients, at_least, is_word,
  obeys, rules, Shape, shapes,
}
use trust_flow_chain_of_cust.Prelude.{
  All, elem, if◌then◌else◌, Text, codes, text_eq, ℕ, zero, suc, ◌≡◌, refl, Bool, true, false, not,
  ◌&&◌, ◌||◌, Option, none, some, List, [], ◌∷◌, arith, Text-discrete, ℕ_discrete, ap, map, sym,
  elem-append, ◌∙◌, ◌++◌,
}

abbrev list_fields : List Text
list_fields = codes "recipient_ids" ∷ codes "suspect_ids" ∷ codes "contributor_ids" ∷ []

abbrev int_fields : List Text
int_fields = codes "threshold" ∷ codes "ttl_seconds" ∷ codes "time" ∷ []

has_ink-is_blank : (s : Text) → has_ink s ≡ not (is_blank s)
unfolding has_ink is_blank
has_ink-is_blank [] = refl
has_ink-is_blank (c ∷ s) = ground (arith, has_ink-is_blank s)

is_hex_of-is_digest : (n : ℕ) (s : Text) → is_hex_of n s ≡ is_digest n s
unfolding is_hex_of is_digest all_of
is_hex_of-is_digest zero [] = refl
is_hex_of-is_digest zero (c ∷ []) = refl
is_hex_of-is_digest zero (c ∷ d ∷ s) = refl
is_hex_of-is_digest (suc n) [] = ground arith
is_hex_of-is_digest (suc n) (c ∷ s) = ground (arith, is_hex_of-is_digest n s)

is_word-is_recipient : (v : Value) → is_word v ≡ is_recipient v
unfolding is_word is_recipient
is_word-is_recipient null = refl
is_word-is_recipient (boolean b) = refl
is_word-is_recipient (integer n) = refl
is_word-is_recipient (minus n) = refl
is_word-is_recipient (float b) = refl
is_word-is_recipient (text s) = has_ink-is_blank s
is_word-is_recipient (array vs) = refl
is_word-is_recipient (object fs) = refl

all_of-is_recipient : (vs : List Value) → all_of is_word vs ≡ all_of is_recipient vs
unfolding all_of
all_of-is_recipient [] = refl
all_of-is_recipient (v ∷ vs) = rw (is_word-is_recipient v, all_of-is_recipient vs) refl

unfoldable pub kind_ok : Option Kind → Option Value → Bool
unfolding has_kind
kind_ok kind none = true
kind_ok kind (some v) = has_kind kind v

-- A test of one field, for the others true.
abbrev pub only : Text → Text → Bool → Bool
only name k b = if text_eq k name then b else true

-- The checks, as tests of the value under one name.
abbrev pub has_its_kind : Text → Option Value → Bool
has_its_kind k o = kind_ok (field_kind k) o

abbrev pub has_content : Text → Option Value → Bool
has_content k o = if elem k string_fields then not (is_blank_text o) else true

abbrev pub has_hash : Text → Option Value → Bool
has_hash k o = if elem k hash_fields then not (is_bad_hash o) else true

abbrev pub lists_recipients : Text → Option Value → Bool
lists_recipients k o = only (codes "recipient_ids") k (has_recipients o)

abbrev pub is_high : Text → ℕ → Text → Option Value → Bool
is_high name n k o = only name k (not (is_low n o))

-- What the checks ask of the value under a name, together.
abbrev pub passes : Text → Option Value → Bool
passes k o =
    has_its_kind k o
    && (has_content k o
        && (lists_recipients k o
            && (is_high (codes "threshold") 2 k o
                && (is_high (codes "ttl_seconds") 1 k o
                    && (is_high (codes "time") 0 k o && has_hash k o)))))

word_agrees :
    (o : Option Value) → obeys word o ≡ (kind_ok (some str) o && (not (is_blank_text o) && true))
unfolding obeys kind_ok is_blank_text
word_agrees none = refl
word_agrees (some null) = refl
word_agrees (some (boolean b)) = refl
word_agrees (some (integer n)) = refl
word_agrees (some (minus n)) = refl
word_agrees (some (float b)) = refl
word_agrees (some (text s)) = ground (arith, has_ink-is_blank s)
word_agrees (some (array vs)) = refl
word_agrees (some (object fs)) = refl

digest_agrees :
    (o : Option Value)
    → obeys digest o ≡ (kind_ok (some str) o && (not (is_blank_text o) && not (is_bad_hash o)))
unfolding obeys kind_ok is_blank_text is_bad_hash validate_content_hash
digest_agrees none = refl
digest_agrees (some null) = refl
digest_agrees (some (boolean b)) = refl
digest_agrees (some (integer n)) = refl
digest_agrees (some (minus n)) = refl
digest_agrees (some (float b)) = refl
digest_agrees (some (text s)) = ground (arith, has_ink-is_blank s, is_hex_of-is_digest 64 s)
digest_agrees (some (array vs)) = refl
digest_agrees (some (object fs)) = refl

any_text_agrees : (o : Option Value) → obeys any_text o ≡ (kind_ok (some str) o && true)
unfolding obeys kind_ok
any_text_agrees none = refl
any_text_agrees (some v) = ground arith

any_list_agrees : (o : Option Value) → obeys any_list o ≡ (kind_ok (some list) o && true)
unfolding obeys kind_ok
any_list_agrees none = refl
any_list_agrees (some v) = ground arith

recipients_agree :
    (o : Option Value) → obeys recipients o ≡ (kind_ok (some list) o && (has_recipients o && true))
unfolding obeys kind_ok has_recipients
recipients_agree none = refl
recipients_agree (some null) = refl
recipients_agree (some (boolean b)) = refl
recipients_agree (some (integer n)) = refl
recipients_agree (some (minus n)) = refl
recipients_agree (some (float b)) = refl
recipients_agree (some (text s)) = refl
recipients_agree (some (array vs)) = ground (arith, all_of-is_recipient (values_of vs))
recipients_agree (some (object fs)) = refl

at_least_agrees :
    (n : ℕ) (o : Option Value)
    → obeys (at_least n) o ≡ (kind_ok (some int) o && (not (is_low n o) && true))
unfolding obeys kind_ok is_low is_int_below
at_least_agrees n none = refl
at_least_agrees n (some v) = ground arith

-- Every rule asks what the checks ask of its field.
pub rules_agree : All (λ e. (o : Option Value) → obeys e.1 o ≡ passes e.0 o) rules
unfolding field_kind elem Text-discrete ℕ_discrete
rules_agree = (
  word_agrees,
  (
    word_agrees,
    (
      word_agrees,
      (
        word_agrees,
        (
          word_agrees,
          (
            word_agrees,
            (
              word_agrees,
              (
                digest_agrees,
                (
                  digest_agrees,
                  (
                    word_agrees,
                    (
                      word_agrees,
                      (
                        digest_agrees,
                        (
                          word_agrees,
                          (
                            any_text_agrees,
                            (
                              recipients_agree,
                              (
                                any_list_agrees,
                                (
                                  any_list_agrees,
                                  (at_least_agrees 2, (at_least_agrees 1, (at_least_agrees 0, tt))),
                                ),
                              ),
                            ),
                          ),
                        ),
                      ),
                    ),
                  ),
                ),
              ),
            ),
          ),
        ),
      ),
    ),
  ),
)

contains-elem : {A : Type 0} (k : Text) (d : Dict A) → contains k d ≡ elem k (map (λ e. e.0) d)
unfolding lookup elem
contains-elem k [] = refl
contains-elem k ((j, v) ∷ d) = ground (arith, contains-elem k d)

-- The names of the rules, by the types that the validator's table has for them.
elem-names :
    (k : Text)
    → elem k (map (λ e. e.0) rules) ≡ (
        elem k string_fields
        || (elem k (codes "type" ∷ []) || (elem k list_fields || elem k int_fields)))
elem-names k =
    elem-append k string_fields (codes "type" ∷ list_fields ++ int_fields)
    ∙ ap (λ b. elem k string_fields || b)
        (elem-append k (codes "type" ∷ []) (list_fields ++ int_fields)
          ∙ ap (λ b. elem k (codes "type" ∷ []) || b) (elem-append k list_fields int_fields))

no_kind :
    (a b c d : Bool)
    → (a || ((b || false) || (c || d))) ≡ false
    → (if a || b then some str else if c then some list else if d then some int else none) ≡ none
no_kind a b c d h = ground arith

-- A field without a rule may have any type.
pub field_kind_free : (k : Text) → contains k rules ≡ false → field_kind k ≡ none
unfolding field_kind
field_kind_free k h =
    no_kind (elem k string_fields) (text_eq k (codes "type")) (elem k list_fields)
      (elem k int_fields) (unfold elem in sym (elem-names k) ∙ sym (contains-elem k rules) ∙ h)

-- Every shape is what the validator's tables have for its type.
abbrev pub Fits : Text → Shape → Type 0
Fits t shape =
    (contains t required_fields ≡ true)
    × (get_or t required_fields [] ≡ shape.needs)
    × (lookup t alternative_fields ≡ shape.one_of)

pub shapes_fit : All (λ e. Fits e.0 e.1) shapes
unfolding lookup Text-discrete ℕ_discrete
shapes_fit = (
  (refl, refl, refl),
  (
    (refl, refl, refl),
    (
      (refl, refl, refl),
      (
        (refl, refl, refl),
        (
          (refl, refl, refl),
          (
            (refl, refl, refl),
            (
              (refl, refl, refl),
              (
                (refl, refl, refl),
                ((refl, refl, refl), ((refl, refl, refl), ((refl, refl, refl), tt))),
              ),
            ),
          ),
        ),
      ),
    ),
  ),
)

pub required_fields_unknown :
    (t : Text) → lookup t shapes ≡ none → contains t required_fields ≡ false
unfolding lookup
required_fields_unknown t h = ground (arith, h)
