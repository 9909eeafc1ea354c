-- ===== src/CocNode/Tests.antt =====
-- Nodes and signatures on concrete values.
use trust_flow_chain_of_cust.Samples.{plain_node, other_node, toy_crypto, toy_crypto-IsSignature}
use trust_flow_chain_of_cust.CocNode.{CocNode, init, add_child, verify, get_signing_data}
use trust_flow_chain_of_cust.CocNode.Codec.{SameNode, from_dict, to_dict, from_dict-to_dict}
use trust_flow_chain_of_cust.CocNode.Signing.{
  IsPlain, init-verify, init-IsWellFormed, get_signing_data-injective,
}
use trust_flow_chain_of_cust.Prelude.Result.{ok}
use trust_flow_chain_of_cust.Prelude.{codes, ◌≡◌, refl, true, none, some, [], ◌∷◌, arith}

abbrev fresh_node : CocNode
fresh_node =
    init toy_crypto (codes "t") (codes "c1") (codes "alice") (some (3 ∷ []))
      (codes "carol" ∷ codes "bob" ∷ []) none 0 2

init-verify_example :
    (verify toy_crypto fresh_node (3 ∷ []) ≡ true)
    × (verify toy_crypto (add_child fresh_node other_node).0 (3 ∷ []) ≡ true)
init-verify_example =
    init-verify toy_crypto toy_crypto-IsSignature (codes "t") (codes "c1") (codes "alice") (3 ∷ [])
      (codes "carol" ∷ codes "bob" ∷ []) none 0 2 other_node (omega arith)

from_dict-to_dict_example :
    (m : CocNode) × (from_dict toy_crypto (to_dict fresh_node) ≡ ok m) × SameNode m fresh_node
from_dict-to_dict_example = from_dict-to_dict toy_crypto fresh_node (
    init-IsWellFormed toy_crypto toy_crypto-IsSignature (codes "t") (codes "c1") (codes "alice")
      (some (3 ∷ [])) (codes "carol" ∷ codes "bob" ∷ []) none 0 2)

plain_node-IsPlain : IsPlain plain_node
unfolding trust_flow_chain_of_cust.Strings.Join.join
plain_node-IsPlain = record {
  plain_content = ground arith;
  plain_parent = ground arith;
  plain_owner = ground arith;
  plain_recipients = ground arith;
  plain_timestamp = ground arith;
  some_parent = λ e. cc;
  split_recipients = (((λ e. cc), ground arith), (((λ e. cc), ground arith), tt));
}

-- The node once it has been received under a parent: the depth is not signed.
abbrev deeper_node : CocNode
deeper_node = record plain_node { depth = 4 }

deeper_node-IsPlain : IsPlain deeper_node
unfolding trust_flow_chain_of_cust.Strings.Join.join
deeper_node-IsPlain = record {
  plain_content = ground arith;
  plain_parent = ground arith;
  plain_owner = ground arith;
  plain_recipients = ground arith;
  plain_timestamp = ground arith;
  some_parent = λ e. cc;
  split_recipients = (((λ e. cc), ground arith), (((λ e. cc), ground arith), tt));
}

same_data : get_signing_data plain_node ≡ get_signing_data deeper_node
unfolding get_signing_data
same_data = refl

get_signing_data-injective_example :
    (plain_node.schema_version ≡ deeper_node.schema_version)
    × (plain_node.content_hash ≡ deeper_node.content_hash)
    × (plain_node.parent_hash ≡ deeper_node.parent_hash)
    × (plain_node.owner_id ≡ deeper_node.owner_id)
    × (plain_node.recipient_ids ≡ deeper_node.recipient_ids)
    × (plain_node.timestamp ≡ deeper_node.timestamp)
get_signing_data-injective_example =
    get_signing_data-injective plain_node deeper_node plain_node-IsPlain deeper_node-IsPlain
      same_data
