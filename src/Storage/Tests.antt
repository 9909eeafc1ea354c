-- ===== src/Storage/Tests.antt =====
-- The storage on concrete nodes.
use trust_flow_chain_of_cust.Prelude.Dict.{lookup}
use trust_flow_chain_of_cust.Samples.{plain_node, two_nodes, two_nodes-IsIndexed}
use trust_flow_chain_of_cust.Storage.{Storage, add_node, remove_node, is_content_referenced}
use trust_flow_chain_of_cust.Storage.References.{
  Referenced, ReferencedBesides, is_content_referenced_iff, remove_node-Referenced,
}
use trust_flow_chain_of_cust.Prelude.{codes, ◌≡◌, ◌↔◌, true, none}

-- The node in place of one with another content.
abbrev replaced : Storage
replaced = add_node (record plain_node { content_hash = codes "c2" }) two_nodes

is_content_referenced_iff_example :
    (is_content_referenced (codes "c1") two_nodes ≡ true) ↔ Referenced (codes "c1") two_nodes
is_content_referenced_iff_example =
    is_content_referenced_iff (codes "c1") two_nodes two_nodes-IsIndexed

remove_node-Referenced_example :
    (lookup (codes "n1") (remove_node (codes "n1") two_nodes).nodes ≡ none)
    × ((is_content_referenced (codes "c1") (remove_node (codes "n1") two_nodes) ≡ true)
        ↔ ReferencedBesides (codes "n1") (codes "c1") two_nodes)
remove_node-Referenced_example =
    remove_node-Referenced (codes "n1") (codes "c1") two_nodes two_nodes-IsIndexed
