-- ===== src/Samples.antt =====
-- Concrete libraries and objects that the tests run on.
use trust_flow_chain_of_cust.Crypto.{Crypto, IsSignature}
use trust_flow_chain_of_cust.Clock.{TimeFormat, IsTimeFormat}
use trust_flow_chain_of_cust.Network.World.{Config}
use trust_flow_chain_of_cust.CocNode.{CocNode}
use trust_flow_chain_of_cust.Storage.{Storage, empty, add_node}
use trust_flow_chain_of_cust.Storage.Index.{IsIndexed, add_node-IsIndexed, empty-IsIndexed}
use trust_flow_chain_of_cust.Prelude.Dict.{lookup, insert}
use trust_flow_chain_of_cust.Prelude.{
  length, codes, text_eq, text_eq_refl, ◌+◌, ◌-◌, ◌%◌, ap, none, some, [], ◌∷◌, arith,
  Text-discrete, ℕ_discrete, ◌≡◌, refl,
}

-- A signature is made of the two lengths, and a digest is the text with a mark.
abbrev pub toy_crypto : Crypto
toy_crypto = record {
  public_key = λ k. k;
  sign = λ k m. length k % 256 ∷ length m % 256 ∷ [];
  accepts = λ k m s. text_eq s (length k % 256 ∷ length m % 256 ∷ []);
  sha256 = λ m. b'#' ∷ m;
}

pub toy_crypto-IsSignature : IsSignature toy_crypto
toy_crypto-IsSignature = record {
  accepts-sign = λ k m. text_eq_refl (length k % 256 ∷ length m % 256 ∷ []);
  sign-IsBytes = λ k m. (omega arith, (omega arith, tt));
  sign-ne_nil = λ k m e. cc;
}

-- A time is written as one character beyond the letters.
abbrev pub toy_format : TimeFormat
toy_format = record {
  isoformat = λ t. (t + 128) ∷ [];
  fromisoformat = λ s. elim s [ [] ↦ none | c ∷ _ ↦ some (c - 128) ];
}

pub toy_format-IsTimeFormat : IsTimeFormat toy_format
toy_format-IsTimeFormat = record {
  fromisoformat-isoformat = λ t. ap some (omega arith);
  isoformat-Lacks = λ t. (omega arith, tt);
}

abbrev pub toy_config : Config
toy_config = record {
  crypto = toy_crypto;
  format = toy_format;
  token_hex = λ n. (n + 128) ∷ [];
  token_validity_seconds = 86400;
  tombstone_grace_seconds = 3600;
}

abbrev pub plain_node : CocNode
plain_node = record {
  schema_version = 2;
  content_hash = codes "c1";
  parent_hash = none;
  owner_id = codes "alice";
  recipient_ids = codes "bob" ∷ codes "carol" ∷ [];
  timestamp = codes "t";
  children_hashes = [];
  depth = 0;
  signature = some (1 ∷ 2 ∷ []);
  node_hash = codes "n1";
}

abbrev pub other_node : CocNode
other_node = record plain_node {
  owner_id = codes "bob";
  node_hash = codes "n2";
  parent_hash = some (codes "n1");
}

-- A storage with two nodes of one content.
abbrev pub two_nodes : Storage
two_nodes = add_node other_node (add_node plain_node empty)

pub two_nodes-IsIndexed : IsIndexed two_nodes
two_nodes-IsIndexed =
    add_node-IsIndexed other_node _ (add_node-IsIndexed plain_node empty empty-IsIndexed)

pub two_nodes-other : lookup (codes "n2") two_nodes.nodes ≡ some other_node
unfolding add_node insert lookup Text-discrete ℕ_discrete empty
two_nodes-other = refl
