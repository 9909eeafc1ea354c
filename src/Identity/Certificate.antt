-- ===== src/Identity/Certificate.antt =====
-- `Identity` and `Certificate`. JSON and the constructor of a verify key are not this program's code.
use trust_flow_chain_of_cust.Crypto.{Crypto, sign_message}
use trust_flow_chain_of_cust.Clock.{TimeFormat}
use trust_flow_chain_of_cust.Prelude.Dict.{Dict}
use trust_flow_chain_of_cust.Strings.Hex.{Bytes, IsBytes, to_hex, from_hex, from_hex-to_hex}
use mathlib.Core.Option
use trust_flow_chain_of_cust.Prelude.{
  ltb, leb, if◌then◌else◌, Text, codes, text_eq, ℕ, ◌≡◌, refl, Bool, ◌&&◌, Option, none, some, [],
}

pub record Identity : Type 0 where
  pub peer_id : Text
  pub public_key : Bytes
  pub created_at : Text
  pub metadata : Dict Text

-- The dict form of an identity.
pub record IdentityDict : Type 0 where
  pub peer_id : Text
  pub public_key : Text
  pub created_at : Text
  pub metadata : Option (Dict Text)

-- What the module takes from outside.
pub record Pki : Type 0 where
  pub crypto : Crypto
  pub format : TimeFormat
  -- whether `VerifyKey(public_key)` returns, rather than raises
  pub is_key : Bytes → Bool
  -- `json.dumps` of the identity, issuer, first and last time and serial number, with sorted keys
  pub dumps : IdentityDict → Text → Text → Text → Text → Text

-- `Identity.to_dict`
unfoldable pub identity_to_dict : Identity → IdentityDict
identity_to_dict i = record {
  peer_id = i.peer_id;
  public_key = to_hex i.public_key;
  created_at = i.created_at;
  metadata = some i.metadata;
}

-- `Identity.from_dict`, `none` where the key is not hexadecimal
unfoldable pub identity_from_dict : IdentityDict → Option Identity
identity_from_dict d = elim (from_hex d.public_key) [
  | none ↦ none
  | some key ↦ some (record {
    peer_id = d.peer_id;
    public_key = key;
    created_at = d.created_at;
    metadata = Option.get_or d.metadata [];
  })
]

-- `Identity.get_verify_key`, `none` where it raises
unfoldable pub get_verify_key : Pki → Identity → Option Bytes
get_verify_key k i = if k.is_key i.public_key then some i.public_key else none

-- `Identity.create`
unfoldable pub create : Pki → ℕ → Text → Bytes → Option (Dict Text) → Identity
create k now peer_id verify_key metadata = record {
  peer_id = peer_id;
  public_key = verify_key;
  created_at = k.format.isoformat now;
  metadata = Option.get_or metadata [];
}

pub record Certificate : Type 0 where
  pub identity : Identity
  pub issuer_id : Text
  pub valid_from : Text
  pub valid_until : Text
  pub signature : Text
  pub serial_number : Text

pub record CertificateDict : Type 0 where
  pub identity : IdentityDict
  pub issuer_id : Text
  pub valid_from : Text
  pub valid_until : Text
  pub signature : Text
  pub serial_number : Text

-- `Certificate.to_dict`
unfoldable pub to_dict : Certificate → CertificateDict
unfolding identity_to_dict
to_dict c = record {
  identity = identity_to_dict c.identity;
  issuer_id = c.issuer_id;
  valid_from = c.valid_from;
  valid_until = c.valid_until;
  signature = c.signature;
  serial_number = c.serial_number;
}

-- `Certificate.from_dict`
unfoldable pub from_dict : CertificateDict → Option Certificate
unfolding identity_from_dict
from_dict d = elim (identity_from_dict d.identity) [
  | none ↦ none
  | some identity ↦ some (record {
    identity = identity;
    issuer_id = d.issuer_id;
    valid_from = d.valid_from;
    valid_until = d.valid_until;
    signature = d.signature;
    serial_number = d.serial_number;
  })
]

-- `Certificate.is_expired`, `none` where the time does not parse
unfoldable pub is_expired : Pki → ℕ → Certificate → Option Bool
is_expired k now c = Option.map (λ until. ltb until now) (k.format.fromisoformat c.valid_until)

unfoldable pub is_not_yet_valid : Pki → ℕ → Certificate → Option Bool
is_not_yet_valid k now c = Option.map (λ from. ltb now from) (k.format.fromisoformat c.valid_from)

-- `Certificate.is_valid_time`
unfoldable pub is_valid_time : Pki → ℕ → Certificate → Option Bool
is_valid_time k now c = elim (k.format.fromisoformat c.valid_from) [
  | none ↦ none
  | some from ↦
      Option.map (λ until. leb from now && leb now until) (k.format.fromisoformat c.valid_until)
]

abbrev pub self_issuer : Text
self_issuer = codes "self"

-- `Certificate.is_self_signed`
unfoldable pub is_self_signed : Certificate → Bool
is_self_signed c = text_eq c.issuer_id self_issuer

-- `Certificate.get_signed_data`
unfoldable pub get_signed_data : Pki → Certificate → Text
get_signed_data k c =
    k.dumps (identity_to_dict c.identity) c.issuer_id c.valid_from c.valid_until c.serial_number

-- The signature of a certificate that has been filled in.
unfoldable pub signed_by : Pki → Bytes → Certificate → Certificate
unfolding get_signed_data
signed_by k key c = record c {
  signature = to_hex (sign_message k.crypto key (get_signed_data k c));
}

-- Reading back the dict of a certificate gives the certificate, if its key is bytes.
pub from_dict-to_dict :
    (c : Certificate) → IsBytes c.identity.public_key → from_dict (to_dict c) ≡ some c
unfolding from_dict to_dict
from_dict-to_dict c h = rw (from_hex-to_hex c.identity.public_key h, from_dict) refl
