-- ===== src/Gossip/Envelope.antt =====
-- `GossipEnvelope`. JSON, the text of a time and the reading of a payload are not this file's code.
-- A time is in microseconds.
use trust_flow_chain_of_cust.Crypto.{Crypto, sign_message, verify_signature}
use trust_flow_chain_of_cust.Clock.{seconds}
use trust_flow_chain_of_cust.Strings.Hex.{Bytes, to_hex, from_hex}
use trust_flow_chain_of_cust.Strings.Join.{join}
use trust_flow_chain_of_cust.Prelude.{
  ltb, if◌then◌else◌, Text, codes, is_empty, ℕ, ◌+◌, ◌-◌, Bool, true, false, none, some, List, [],
  ◌∷◌, ◌++◌,
}

-- What the protocol takes from outside, for payloads of any type.
pub record Wire (P : Type 0) : Type 0 where
  pub crypto : Crypto
  -- `json.dumps(payload, sort_keys=True)`
  pub dumps : P → Text
  -- the text of `time.time()`
  pub show_time : ℕ → Text
  -- whether `deserialize_message(payload)` returns, rather than raises
  pub is_message : P → Bool
  -- `message.msg_id`
  pub message_id : P → Text

-- A `ttl` below zero acts as zero does.
pub record Envelope (P : Type 0) : Type 0 where
  pub msg_id : Text
  pub payload : P
  pub origin_id : Text
  pub ttl : ℕ
  pub timestamp : ℕ
  pub path : List Text
  pub signature : Text

abbrev pub default_fanout : ℕ
default_fanout = 3

abbrev pub default_ttl : ℕ
default_ttl = 10

-- `MESSAGE_MAX_AGE_SECONDS` and `MESSAGE_MAX_FUTURE_SECONDS`
abbrev pub max_age : ℕ
max_age = seconds 300

abbrev pub max_future : ℕ
max_future = seconds 60

module _ {P : Type 0} where
  unfoldable pub decrement_ttl : Envelope P → Bool × Envelope P
  decrement_ttl e = (ltb 0 (e.ttl - 1), record e { ttl = e.ttl - 1 })

  unfoldable pub add_to_path : Text → Envelope P → Envelope P
  add_to_path peer_id e = record e { path = e.path ++ peer_id ∷ [] }

  unfoldable pub get_signing_data : Wire P → Envelope P → Text
  get_signing_data w e =
      join (codes "|") (
        e.origin_id ∷ w.show_time e.timestamp ∷ e.msg_id ∷ w.crypto.sha256 (w.dumps e.payload) ∷ [])

  unfoldable pub sign : Wire P → Bytes → Envelope P → Envelope P
  unfolding get_signing_data
  sign w signing_key e = record e {
    signature = to_hex (sign_message w.crypto signing_key (get_signing_data w e));
  }

  unfoldable pub verify : Wire P → Bytes → Envelope P → Bool
  unfolding get_signing_data
  verify w verify_key e = if is_empty e.signature then false else elim (from_hex e.signature) [
    | none ↦ false
    | some signature ↦ verify_signature w.crypto verify_key (get_signing_data w e) signature
  ]

  -- `validate_timestamp`, without the text of the error
  unfoldable pub validate_timestamp : ℕ → Envelope P → Bool
  validate_timestamp now e =
      if ltb (e.timestamp + max_age) now
      then false
      else if ltb (now + max_future) e.timestamp
      then false
      else true
