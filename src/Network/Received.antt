-- ===== src/Network/Received.antt =====
-- What a received node and its content do to the index of a storage.
use trust_flow_chain_of_cust.Storage.Tombstones.{is_tombstoned-in_force, in_force}
use trust_flow_chain_of_cust.Clock.{TimeFormat}
use trust_flow_chain_of_cust.CocNode.{CocNode, add_child}
use trust_flow_chain_of_cust.Prelude.Dict.{insert, lookup-insert, lookup}
use trust_flow_chain_of_cust.Storage.{
  Storage, add_content, get_node, add_node, is_tombstoned, get_content,
}
use trust_flow_chain_of_cust.Storage.Index.{
  IsIndexed, IsIndexed-same, has_content, add_node-IsIndexed,
}
use trust_flow_chain_of_cust.Network.Peers.{store_received}
use trust_flow_chain_of_cust.Prelude.{
  Text, is_empty, ◌+◌, ◌≡◌, refl, ◌∙◌, true, false, Option, none, some, [], ◌∷◌, arith, ℕ, ap, sym,
}

pub add_content-IsIndexed :
    (ch content : Text) (s : Storage) → IsIndexed s → IsIndexed (add_content ch content s)
unfolding add_content
add_content-IsIndexed ch content s inv = IsIndexed-same s _ refl refl inv

-- A child is put into the storage in place of a node with the same hash and content.
replace_node-IsIndexed :
    (n : CocNode) (s : Storage)
    → has_content n.node_hash n.content_hash s.nodes ≡ true
    → IsIndexed s
    → IsIndexed (record s { nodes = insert n.node_hash n s.nodes })
replace_node-IsIndexed n s there inv = record {
  exact = λ ch nh.
      inv.exact ch nh
      ∙ (unfold has_content in ground (arith, lookup-insert n.node_hash nh n s.nodes));
  no_empty = inv.no_empty;
  keyed = λ nh m e. ground (arith, lookup-insert n.node_hash nh n s.nodes, inv.keyed nh m);
}

pub store_received-IsIndexed :
    (node : CocNode) (content : Text) (s : Storage)
    → IsIndexed s
    → IsIndexed (store_received node content s)
store_received-IsIndexed node content s inv = stored node.parent_hash refl
  where
    s' : Storage
    s' = add_content node.content_hash content (add_node node s)

    inv' : IsIndexed s'
    inv' = add_content-IsIndexed node.content_hash content _ (add_node-IsIndexed node s inv)

    there : has_content node.node_hash node.content_hash s'.nodes ≡ true
    there =
        unfold has_content add_content add_node in
        ground (arith, lookup-insert node.node_hash node.node_hash node s.nodes)

    linked :
        (parent : CocNode)
        → IsIndexed (
            add_node
              (add_child parent node).0
              (record s' { nodes = insert node.node_hash (add_child parent node).1 s'.nodes }))
    linked parent = add_node-IsIndexed (add_child parent node).0 _ (
        unfold add_child in
        replace_node-IsIndexed (record node { depth = parent.depth + 1 }) s' there inv')

    found :
        (ph : Text)
        → (o : Option CocNode) → node.parent_hash ≡ some ph
        → is_empty ph ≡ false
        → get_node ph s' ≡ o
        → IsIndexed (store_received node content s)
    found ph none e f g = unfold store_received in rw (e, store_received) (rw f (rw g inv'))
    found ph (some parent) e f g =
        unfold store_received in rw (e, store_received) (rw f (rw g (linked parent)))

    stored : (o : Option Text) → node.parent_hash ≡ o → IsIndexed (store_received node content s)
    stored none e = unfold store_received in rw (e, store_received) inv'
    stored (some []) e = unfold store_received in rw (e, store_received) inv'
    stored (some (c ∷ ph)) e = found (c ∷ ph) (get_node (c ∷ ph) s') e refl refl

store_received-stores :
    (node : CocNode) (content : Text) (s : Storage)
    → ((store_received node content s).content ≡ insert node.content_hash content s.content)
      × ((store_received node content s).tombstones ≡ s.tombstones)
unfolding store_received add_content add_node add_child
store_received-stores node content s = (ground arith, ground arith)

-- A received node's content is stored although a tombstone for that content is in force, and
-- the tombstone stays in force.
pub store_received_tombstoned :
    (node : CocNode) (content : Text) (f : TimeFormat) (now : ℕ) (s : Storage)
    → (is_tombstoned f now node.content_hash s).0 ≡ true
    → ((is_tombstoned f now node.content_hash (store_received node content s)).0 ≡ true)
      × (get_content node.content_hash (store_received node content s) ≡ some content)
store_received_tombstoned node content f now s e =
    let same = store_received-stores node content s in
    (
      is_tombstoned-in_force f now node.content_hash (store_received node content s)
          ∙ ap (λ d. in_force f now (lookup node.content_hash d)) same.1
          ∙ sym (is_tombstoned-in_force f now node.content_hash s)
          ∙ e,
      unfold get_content in
          rw (same.0)
            (ground (arith, lookup-insert node.content_hash node.content_hash content s.content)),
    )
