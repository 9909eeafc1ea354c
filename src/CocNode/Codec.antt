-- ===== src/CocNode/Codec.antt =====
-- `CoCNode.to_dict` and `CoCNode.from_dict`, over the dict as a record of the keys that it may hold.
use trust_flow_chain_of_cust.Prelude.{
  elem, if◌then◌else◌, Text, is_empty, ℕ, ◌≡◌, refl, ◌≢◌, Option, none, some, List, [], ◌∷◌,
}
use trust_flow_chain_of_cust.Prelude.KeySet.{of_list, elem-of_list}
use trust_flow_chain_of_cust.Prelude.Result.{Result, ok, ◌>>=◌, or_raise}
use trust_flow_chain_of_cust.Strings.Hex.{
  Bytes, IsBytes, to_hex, from_hex, from_hex-to_hex, to_hex-ne_nil,
}
use trust_flow_chain_of_cust.Strings.Sort.{IsSorted, sorted-eq_self}
use trust_flow_chain_of_cust.Crypto.{Crypto}
use trust_flow_chain_of_cust.CocNode.{CocNode, init, sign_node}

-- `none` is a key that is missing, or `None` at the keys that may be so.
pub record NodeDict : Type 0 where
  pub schema_version : Option ℕ
  pub node_hash : Option Text
  pub content_hash : Option Text
  pub parent_hash : Option Text
  pub owner_id : Option Text
  pub recipient_ids : Option (List Text)
  pub timestamp : Option Text
  pub children_hashes : Option (List Text)
  pub depth : Option ℕ
  pub signature : Option Text

pub data DictError : Type 0 where
  key_error value_error : DictError

abbrev hex_of : Option Bytes → Option Text
hex_of none = none
hex_of (some s) = if is_empty s then none else some (to_hex s)

unfoldable pub to_dict : CocNode → NodeDict
to_dict n = record {
  schema_version = some n.schema_version;
  node_hash = some n.node_hash;
  content_hash = some n.content_hash;
  parent_hash = n.parent_hash;
  owner_id = some n.owner_id;
  recipient_ids = some n.recipient_ids;
  timestamp = some n.timestamp;
  children_hashes = some n.children_hashes;
  depth = some n.depth;
  signature = hex_of n.signature;
}

-- `data.get(key, default)`
abbrev default {ℓ} : {A : Type ℓ} → Option A → A → A
default none a = a
default (some x) a = x

-- `bytes.fromhex(data["signature"]) if data.get("signature") else None`
signature_of : Option Text → Result DictError (Option Bytes)
signature_of none = ok none
signature_of (some s) =
    if is_empty s then ok none else do bytes ← or_raise (from_hex s) value_error; ok (some bytes)

unfoldable pub from_dict : Crypto → NodeDict → Result DictError CocNode
unfolding signature_of
from_dict c d = do
  content_hash ← or_raise d.content_hash key_error
  owner_id ← or_raise d.owner_id key_error
  node_hash ← or_raise d.node_hash key_error
  signature ← signature_of d.signature
  timestamp ← or_raise d.timestamp key_error
  let node =
      init c [] content_hash owner_id none (default d.recipient_ids []) d.parent_hash
        (default d.depth 0) (default d.schema_version 1)
  ok (record node {
    node_hash = node_hash;
    signature = signature;
    timestamp = timestamp;
    children_hashes = of_list (default d.children_hashes []);
  })

-- What a node that the constructor made satisfies, and `add_child` keeps.
pub record IsWellFormed (n : CocNode) : Type 0 where
  pub ordered : IsSorted n.recipient_ids
  pub signed : (s : Bytes) → n.signature ≡ some s → (s ≢ []) × IsBytes s

-- Two nodes that differ at most in the order of their sets of children.
pub record SameNode (m n : CocNode) : Type 0 where
  pub same_children : (h : Text) → elem h m.children_hashes ≡ elem h n.children_hashes
  pub same_fields : record m { children_hashes = [] } ≡ record n { children_hashes = [] }

signature_of-hex_of :
    (o : Option Bytes)
    → ((s : Bytes) → o ≡ some s → (s ≢ []) × IsBytes s)
    → signature_of (hex_of o) ≡ ok o
unfolding signature_of
signature_of-hex_of none h = refl
signature_of-hex_of (some []) h = absurd ((h [] refl).0 refl)
signature_of-hex_of (some (b ∷ s)) h =
    rw (to_hex-ne_nil (b ∷ s) (h (b ∷ s) refl).0, from_hex-to_hex (b ∷ s) (h (b ∷ s) refl).1)

-- Reading back the dict of a node whose recipients are sorted and whose signature is a
-- non-empty string of bytes gives that node, up to the order of its set of children.
pub from_dict-to_dict :
    (c : Crypto) (n : CocNode)
    → IsWellFormed n
    → (m : CocNode) × (from_dict c (to_dict n) ≡ ok m) × SameNode m n
unfolding from_dict to_dict init sign_node
from_dict-to_dict c n h = (
  record n { children_hashes = of_list n.children_hashes },
  rw (signature_of-hex_of n.signature h.signed, sorted-eq_self n.recipient_ids h.ordered, ◌>>=◌),
  record { same_children = λ a. elem-of_list a n.children_hashes; same_fields = refl },
)
