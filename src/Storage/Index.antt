-- ===== src/Storage/Index.antt =====
-- The index of content references is exact after every operation on the storage.
use trust_flow_chain_of_cust.Prelude.{
  elem, Bool-cases, Option-cases, Text, text_eq, ◌≡◌, refl, ◌≢◌, inl, inr, Bool, false, not, ◌&&◌,
  ◌||◌, none, some, List, [], arith,
}
use trust_flow_chain_of_cust.Prelude.Dict.{
  Dict, lookup, get_or, lookup-insert, lookup-erase, erase, contains,
}
use trust_flow_chain_of_cust.Prelude.KeySet.{add, add-ne_nil, discard, elem-add, elem-discard}
use trust_flow_chain_of_cust.CocNode.{CocNode}
use trust_flow_chain_of_cust.Storage.{
  Storage, drop_ref, add_ref, add_node, empty, forget_ref, remove_node,
}

-- Whether the node under `nh` is there and has the content `ch`.
unfoldable pub has_content : Text → Text → Dict CocNode → Bool
has_content nh ch nodes = elim (lookup nh nodes) [
  | none ↦ false
  | some n ↦ text_eq n.content_hash ch
]

abbrev pub refs_of : Text → Dict (List Text) → List Text
refs_of ch refs = get_or ch refs []

-- Each content hash leads to just the nodes with that content, no entry is empty, and each node
-- stands under its own hash.
pub record IsIndexed (s : Storage) : Type 0 where
  pub exact : (ch nh : Text) → elem nh (refs_of ch s.content_refs) ≡ has_content nh ch s.nodes
  pub no_empty : (ch : Text) → lookup ch s.content_refs ≢ some []
  pub keyed : (nh : Text) (n : CocNode) → lookup nh s.nodes ≡ some n → n.node_hash ≡ nh

pub elem-drop_ref :
    (ch nh c h : Text) (refs : Dict (List Text))
    → elem h (refs_of c (drop_ref ch nh refs))
      ≡ (elem h (refs_of c refs) && not (text_eq c ch && text_eq h nh))
unfolding drop_ref elem
elem-drop_ref ch nh c h refs = elim (Option-cases (lookup ch refs)) [
  | inl e ↦ ground arith
  | inr (hashes, e) ↦ ground (
    arith,
    lookup-insert ch c (discard nh hashes) refs,
    lookup-erase ch c refs,
    elem-discard nh h hashes,
  )
]

pub elem-add_ref :
    (ch nh c h : Text) (refs : Dict (List Text))
    → elem h (refs_of c (add_ref ch nh refs))
      ≡ (elem h (refs_of c refs) || (text_eq c ch && text_eq h nh))
unfolding add_ref
elem-add_ref ch nh c h refs =
    ground
      (arith, lookup-insert ch c (add nh (refs_of ch refs)) refs, elem-add nh h (refs_of ch refs))

elem-forget_ref :
    (nh c h : Text) (s : Storage)
    → IsIndexed s
    → elem h (refs_of c (forget_ref nh s)) ≡ (has_content h c s.nodes && not (text_eq h nh))
unfolding forget_ref has_content
elem-forget_ref nh c h s inv = elim (Option-cases (lookup nh s.nodes)) [
  | inl e ↦ ground (arith, inv.exact c h)
  | inr (old, e) ↦
      ground (arith, inv.exact c h, elem-drop_ref old.content_hash nh c h s.content_refs)
]

drop_ref-no_empty :
    (ch nh c : Text) (refs : Dict (List Text))
    → lookup c refs ≢ some []
    → lookup c (drop_ref ch nh refs) ≢ some []
unfolding drop_ref
drop_ref-no_empty ch nh c refs h = elim (Option-cases (lookup ch refs)) [
  | inl e ↦ ground arith
  | inr (hashes, e) ↦
      ground (arith, lookup-insert ch c (discard nh hashes) refs, lookup-erase ch c refs)
]

forget_ref-no_empty :
    (nh c : Text) (s : Storage) → IsIndexed s → lookup c (forget_ref nh s) ≢ some []
unfolding forget_ref
forget_ref-no_empty nh c s inv = elim (Option-cases (lookup nh s.nodes)) [
  | inl e ↦ rw (e, forget_ref) (inv.no_empty c)
  | inr (old, e) ↦
      rw (e, forget_ref) (drop_ref-no_empty old.content_hash nh c s.content_refs (inv.no_empty c))
]

add_ref-no_empty :
    (ch nh c : Text) (refs : Dict (List Text))
    → lookup c refs ≢ some []
    → lookup c (add_ref ch nh refs) ≢ some []
unfolding add_ref
add_ref-no_empty ch nh c refs h =
    ground
      (arith, lookup-insert ch c (add nh (refs_of ch refs)) refs, add-ne_nil nh (refs_of ch refs))

-- Adding a node, be it new or in place of another under its hash, keeps the index of contents
-- exact.
pub add_node-IsIndexed : (n : CocNode) (s : Storage) → IsIndexed s → IsIndexed (add_node n s)
unfolding add_node
add_node-IsIndexed n s inv = record {
  exact = λ ch nh.
      unfold has_content in
      ground (
        arith,
        elem-add_ref n.content_hash n.node_hash ch nh (forget_ref n.node_hash s),
        elem-forget_ref n.node_hash ch nh s inv,
        lookup-insert n.node_hash nh n s.nodes,
      );
  no_empty = λ ch.
      add_ref-no_empty n.content_hash n.node_hash ch (forget_ref n.node_hash s)
        (forget_ref-no_empty n.node_hash ch s inv);
  keyed = λ nh m e. ground (arith, lookup-insert n.node_hash nh n s.nodes, inv.keyed nh m);
}

removed :
    (nh : Text) (s : Storage)
    → IsIndexed s
    → IsIndexed (record s { nodes = erase nh s.nodes; content_refs = forget_ref nh s })
removed nh s inv = record {
  exact = λ ch h.
      unfold has_content in
      ground (arith, elem-forget_ref nh ch h s inv, lookup-erase nh h s.nodes);
  no_empty = λ ch. forget_ref-no_empty nh ch s inv;
  keyed = λ h m e. ground (arith, lookup-erase nh h s.nodes, inv.keyed h m);
}

-- Removing a node, or asking to remove one that is not there, keeps the index of contents
-- exact.
pub remove_node-IsIndexed : (nh : Text) (s : Storage) → IsIndexed s → IsIndexed (remove_node nh s)
remove_node-IsIndexed nh s inv = elim (Bool-cases (contains nh s.nodes)) [
  | inl there ↦ unfold remove_node in rw there (removed nh s inv)
  | inr missing ↦ unfold remove_node in rw missing inv
]

-- The empty storage is indexed.
pub empty-IsIndexed : IsIndexed empty
unfolding empty has_content elem lookup
empty-IsIndexed = record { exact = λ ch nh. refl; no_empty = λ ch e. cc; keyed = λ nh n e. cc }

-- The index depends on the nodes and itself alone.
pub IsIndexed-same :
    (s s' : Storage)
    → s'.nodes ≡ s.nodes
    → s'.content_refs ≡ s.content_refs
    → IsIndexed s
    → IsIndexed s'
IsIndexed-same s s' en er inv = record {
  exact = λ ch nh. unfold has_content in ground (arith, inv.exact ch nh);
  no_empty = λ ch e. inv.no_empty ch (ground arith);
  keyed = λ nh n e. inv.keyed nh n (ground arith);
}
