-- ===== src/Validation/Rules.antt =====
-- What a valid event is: the shapes of the types of events and a rule for each named field. Nothing
-- here is the validator's.
use trust_flow_chain_of_cust.Prelude.Dict.{Dict, lookup, contains}
use trust_flow_chain_of_cust.Strings.Space.{is_space}
use trust_flow_chain_of_cust.Validation.Value.{
  Value, text, array, object, integer, boolean, values_of, fields_of,
}
use trust_flow_chain_of_cust.Prelude.{
  ltb, leb, ◌==◌, Text, codes, is_empty, Bool, true, false, not, ◌&&◌, ◌||◌, Option, none, some,
  List, [], ◌∷◌, ℕ, length, take, drop, if◌then◌else◌,
}

unfoldable pub all_of {ℓ} : {A : Type ℓ} → (A → Bool) → List A → Bool
all_of p [] = true
all_of p (x ∷ xs) = p x && all_of p xs

unfoldable pub any_of {ℓ} : {A : Type ℓ} → (A → Bool) → List A → Bool
any_of p [] = false
any_of p (x ∷ xs) = p x || any_of p xs

-- A text with a character that is not a space.
unfoldable pub has_ink : Text → Bool
has_ink [] = false
has_ink (c ∷ s) = not (is_space c) || has_ink s

-- 0 to 9, A to F and a to f
unfoldable pub is_hex : ℕ → Bool
is_hex c = (ltb 47 c && ltb c 58) || (ltb 64 c && ltb c 71) || (ltb 96 c && ltb c 103)

-- Nothing, or one line end.
unfoldable pub is_end : Text → Bool
is_end [] = true
is_end (c ∷ []) = c == 10
is_end (c ∷ d ∷ s) = false

-- As many hexadecimal digits, and the end.
unfoldable pub is_digest : ℕ → Text → Bool
unfolding is_hex is_end
is_digest n s = (length (take n s) == n) && all_of is_hex (take n s) && is_end (drop n s)

-- What a field may be asked: to be any text, a text with ink, a hash, a list, a list of texts with
-- ink that is not empty, or an integer that is not below a bound.
pub data Rule : Type 0 where
  any_text word digest any_list recipients : Rule
  at_least : ℕ → Rule

unfoldable pub is_word : Value → Bool
unfolding has_ink
is_word (text s) = has_ink s
is_word _ = false

unfoldable pub obeys_value : Rule → Value → Bool
unfolding is_word is_digest
obeys_value any_text (text s) = true
obeys_value word (text s) = has_ink s
obeys_value digest (text s) = has_ink s && is_digest 64 s
obeys_value any_list (array vs) = true
obeys_value recipients (array vs) = not (is_empty (values_of vs)) && all_of is_word (values_of vs)
obeys_value (at_least n) (boolean b) = leb n (if b then 1 else 0)
obeys_value (at_least n) (integer m) = leb n m
obeys_value _ _ = false

-- A field that is not there obeys its rule.
unfoldable pub obeys : Rule → Option Value → Bool
unfolding obeys_value
obeys rule none = true
obeys rule (some v) = obeys_value rule v

abbrev pub rules : Dict Rule
rules =
    (codes "originator_id", word)
    ∷ (codes "sender_id", word)
    ∷ (codes "peer_id", word)
    ∷ (codes "requester_id", word)
    ∷ (codes "investigator_id", word)
    ∷ (codes "content", word)
    ∷ (codes "leaked_content", word)
    ∷ (codes "node_hash", digest)
    ∷ (codes "parent_node_hash", digest)
    ∷ (codes "message_id", word)
    ∷ (codes "parent_message_id", word)
    ∷ (codes "content_hash", digest)
    ∷ (codes "lock_id", word)
    ∷ (codes "type", any_text)
    ∷ (codes "recipient_ids", recipients)
    ∷ (codes "suspect_ids", any_list)
    ∷ (codes "contributor_ids", any_list)
    ∷ (codes "threshold", at_least 2)
    ∷ (codes "ttl_seconds", at_least 1)
    ∷ (codes "time", at_least 0)
    ∷ []

-- The fields that an event of a type needs, and those of which it needs one, where it does.
pub record Shape : Type 0 where
  pub needs : List Text
  pub one_of : Option (List Text)

abbrev simple : List Text → Shape
simple needs = record { needs = needs; one_of = none }

abbrev either : List Text → Text → Text → Shape
either needs a b = record { needs = needs; one_of = some (a ∷ b ∷ []) }

abbrev pub shapes : Dict Shape
shapes =
    (
      codes "CREATE_MESSAGE",
      simple (codes "originator_id" ∷ codes "recipient_ids" ∷ codes "content" ∷ []),
    )
    ∷ (
      codes "FORWARD_MESSAGE",
      either (codes "sender_id" ∷ codes "recipient_ids" ∷ []) (codes "parent_message_id")
          (codes "parent_node_hash"),
    )
    ∷ (
      codes "DELETE_MESSAGE",
      either (codes "originator_id" ∷ []) (codes "message_id") (codes "node_hash"),
    )
    ∷ (codes "PEER_ONLINE", simple (codes "peer_id" ∷ []))
    ∷ (codes "PEER_OFFLINE", simple (codes "peer_id" ∷ []))
    ∷ (
      codes "DISTRIBUTE_SHARES",
      simple (
          codes "originator_id" ∷ codes "content" ∷ codes "recipient_ids" ∷ codes "threshold" ∷ []),
    )
    ∷ (codes "RECONSTRUCT_SECRET", simple (codes "requester_id" ∷ codes "content_hash" ∷ []))
    ∷ (
      codes "TIMELOCK_CONTENT",
      simple (codes "originator_id" ∷ codes "content" ∷ codes "ttl_seconds" ∷ []),
    )
    ∷ (codes "DESTROY_TIMELOCK", simple (codes "peer_id" ∷ codes "lock_id" ∷ []))
    ∷ (
      codes "WATERMARK_FORWARD",
      either (codes "sender_id" ∷ codes "recipient_ids" ∷ []) (codes "parent_message_id")
          (codes "parent_node_hash"),
    )
    ∷ (codes "DETECT_LEAK", simple (codes "investigator_id" ∷ codes "leaked_content" ∷ []))
    ∷ []

unfoldable pub has_one : Dict Value → Option (List Text) → Bool
has_one event none = true
has_one event (some ks) = any_of (λ k. contains k event) ks

unfoldable pub has_shape : Dict Value → Shape → Bool
unfolding has_one
has_shape event shape = all_of (λ k. contains k event) shape.needs && has_one event shape.one_of

unfoldable pub obeys_all : Dict Value → Bool
obeys_all event = all_of (λ e. obeys e.1 (lookup e.0 event)) rules

-- The type of the event is a text that names a shape; the event has it, and obeys the rules.
unfoldable pub is_typed : Option Value → Dict Value → Bool
unfolding has_shape obeys_all
is_typed (some (text t)) event = elim (lookup t shapes) [
  | none ↦ false
  | some shape ↦ has_shape event shape && obeys_all event
]
is_typed _ event = false

unfoldable pub is_event : Value → Bool
unfolding is_typed
is_event (object fields) = is_typed (lookup (codes "type") (fields_of fields)) (fields_of fields)
is_event _ = false
