-- ===== src/Deletion/Token.antt =====
-- `DeletionToken` and `DeletionReceipt`: what they sign, when they run out.
use trust_flow_chain_of_cust.Clock.{TimeFormat, parse_time, seconds}
use trust_flow_chain_of_cust.Crypto.{Crypto, sign_message, verify_signature, IsSignature}
use trust_flow_chain_of_cust.Strings.Hex.{to_hex, Bytes, from_hex, from_hex-to_hex, to_hex-ne_nil}
use trust_flow_chain_of_cust.Strings.Join.{join}
use trust_flow_chain_of_cust.Prelude.{
  ltb, if◌then◌else◌, Text, codes, is_empty, ℕ, ◌+◌, ◌≡◌, Bool, true, false, Option, none, some, [],
  ◌∷◌,
}

abbrev pub token_validity_seconds : ℕ
token_validity_seconds = 300

-- The signature is the hexadecimal text, empty before `sign`.
pub record DeletionToken : Type 0 where
  pub node_hash : Text
  pub originator_id : Text
  pub nonce : Text
  pub timestamp : Text
  pub signature : Text

unfoldable pub get_signing_data : DeletionToken → Text
get_signing_data t = join (codes "|") (t.node_hash ∷ t.originator_id ∷ t.nonce ∷ t.timestamp ∷ [])

unfoldable pub sign : Crypto → Bytes → DeletionToken → DeletionToken
sign c signing_key t = record t {
  signature = to_hex (sign_message c signing_key (get_signing_data t));
}

-- `DeletionToken(node_hash=…, originator_id=…)`, with the default nonce and time.
unfoldable pub new_token : TimeFormat → ℕ → Text → Text → Text → DeletionToken
new_token f now nonce node_hash originator_id = record {
  node_hash = node_hash;
  originator_id = originator_id;
  nonce = nonce;
  timestamp = f.isoformat now;
  signature = [];
}

unfoldable pub get_hash : Crypto → DeletionToken → Text
get_hash c t =
    c.sha256
      (join (codes "|") (t.node_hash ∷ t.originator_id ∷ t.nonce ∷ t.timestamp ∷ t.signature ∷ []))

-- A timestamp that does not parse counts as expired.
unfoldable pub is_expired : TimeFormat → ℕ → ℕ → DeletionToken → Bool
is_expired f validity_seconds now t = elim (parse_time f t.timestamp) [
  | none ↦ true
  | some time ↦ ltb (time + seconds validity_seconds) now
]

-- The check of a token's signature, where an ill-formed hexadecimal text raises.
unfoldable pub check_signature : Crypto → Bytes → DeletionToken → Option Bool
check_signature c key t = elim (from_hex t.signature) [
  | none ↦ none
  | some bytes ↦ some (verify_signature c key (get_signing_data t) bytes)
]

-- A token that has been signed passes the check under the signer's key, if a signature
-- verifies under its own key.
pub check_signature-sign :
    (c : Crypto) (key : Bytes) (t : DeletionToken)
    → IsSignature c
    → check_signature c (c.public_key key) (sign c key t) ≡ some true
unfolding check_signature sign sign_message verify_signature get_signing_data
check_signature-sign c key t sound = rw (
  from_hex-to_hex (c.sign key (get_signing_data t)) (sound.sign-IsBytes key (get_signing_data t)),
  sound.accepts-sign key (get_signing_data t),
  check_signature,
)

pub record DeletionReceipt : Type 0 where
  pub token_hash : Text
  pub peer_id : Text
  pub timestamp : Text
  pub success : Bool
  pub node_hash : Text
  pub signature : Text
  pub error_message : Option Text

-- `str(b)`
abbrev bool_text : Bool → Text
bool_text true = codes "True"
bool_text false = codes "False"

abbrev error_part : Option Text → Text
error_part none = []
error_part (some e) = e

unfoldable pub get_data_to_sign : DeletionReceipt → Text
get_data_to_sign r = join (codes "|") (
    r.token_hash
    ∷ r.peer_id
    ∷ r.timestamp
    ∷ bool_text r.success
    ∷ r.node_hash
    ∷ error_part r.error_message
    ∷ [])

unfoldable pub sign_receipt : Crypto → Bytes → DeletionReceipt → DeletionReceipt
sign_receipt c signing_key r = record r {
  signature = to_hex (sign_message c signing_key (get_data_to_sign r));
}

-- `DeletionReceipt.verify`: an ill-formed signature is refused, and does not raise.
unfoldable pub verify_receipt : Crypto → Bytes → DeletionReceipt → Bool
verify_receipt c verify_key r =
    if is_empty r.signature then false else elim (from_hex r.signature) [
      | none ↦ false
      | some bytes ↦ verify_signature c verify_key (get_data_to_sign r) bytes
    ]

-- A receipt that has been signed verifies under the signer's key, if a signature verifies
-- under its own key and is not empty.
pub verify_receipt-sign_receipt :
    (c : Crypto) (key : Bytes) (r : DeletionReceipt)
    → IsSignature c
    → verify_receipt c (c.public_key key) (sign_receipt c key r) ≡ true
unfolding verify_receipt sign_receipt sign_message verify_signature get_data_to_sign
verify_receipt-sign_receipt c key r sound = rw (
  to_hex-ne_nil (c.sign key (get_data_to_sign r)) (sound.sign-ne_nil key (get_data_to_sign r)),
  from_hex-to_hex (c.sign key (get_data_to_sign r)) (sound.sign-IsBytes key (get_data_to_sign r)),
  sound.accepts-sign key (get_data_to_sign r),
)
