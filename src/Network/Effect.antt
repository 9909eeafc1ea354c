-- ===== src/Network/Effect.antt =====
-- What a deletion does to the storage of the peer that processes it.
use trust_flow_chain_of_cust.Storage.Tombstones.{is_tombstoned-add_tombstone}
use trust_flow_chain_of_cust.Clock.{seconds, IsTimeFormat, parse_time-isoformat}
use trust_flow_chain_of_cust.Network.Engine.{apply_deletion}
use trust_flow_chain_of_cust.Storage.Index.{IsIndexed, IsIndexed-same, remove_node-IsIndexed}
use trust_flow_chain_of_cust.Prelude.Dict.{lookup-erase, lookup}
use trust_flow_chain_of_cust.Storage.References.{
  ReferencedBesides, remove_node-Referenced, lookup-remove_node,
}
use trust_flow_chain_of_cust.CocNode.{CocNode}
use trust_flow_chain_of_cust.Network.World.{Config}
use trust_flow_chain_of_cust.Storage.{
  ContentTombstone, remove_content, Storage, get_content, add_tombstone, is_tombstoned, get_node,
  is_content_referenced, remove_node,
}
use trust_flow_chain_of_cust.Prelude.{
  leb, if◌then◌else◌, Bool-cases, Text, text_eq, ℕ, ◌+◌, ◌≡◌, refl, ap, ◌∙◌, inl, inr, true, false,
  none, arith, Bool-not_true, Bool, ◌⊎◌,
}

-- A node's hash, the times of the tombstone and the storages before and after its deletion: the
-- node is gone and every other one is kept; content and tombstones stay with another node that has
-- the content, and otherwise the content is gone and under a tombstone to the end of the grace
-- period.
abbrev pub DeletedFrom : Config → ℕ → Text → Text → Storage → Storage → Type 0
DeletedFrom cfg now nh ch s s' =
    ((h : Text) → get_node h s' ≡ (if text_eq h nh then none else get_node h s))
    × ((ReferencedBesides nh ch s
          × (get_content ch s' ≡ get_content ch s)
          × (s'.tombstones ≡ s.tombstones))
        ⊎ ((¬ ReferencedBesides nh ch s)
            × (get_content ch s' ≡ none)
            × ((later : ℕ)
                → (is_tombstoned cfg.format later ch s').0
                  ≡ leb later (now + seconds cfg.tombstone_grace_seconds))))

remove_content-nodes :
    (ch : Text) (s : Storage)
    → ((remove_content ch s).nodes ≡ s.nodes)
      × ((remove_content ch s).content_refs ≡ s.content_refs)
      × ((remove_content ch s).tombstones ≡ s.tombstones)
unfolding remove_content
remove_content-nodes ch s = ground arith

get_content-remove_content : (ch : Text) (s : Storage) → get_content ch (remove_content ch s) ≡ none
unfolding remove_content get_content
get_content-remove_content ch s = ground (arith, lookup-erase ch ch s.content)

get_content-add_tombstone :
    (ch : Text) (t : ContentTombstone) (s : Storage)
    → get_content ch (add_tombstone t s) ≡ get_content ch s
unfolding get_content add_tombstone
get_content-add_tombstone ch t s = refl

-- Neither the content nor a tombstone bears on the index.
content-IsIndexed :
    (ch : Text) (t : ContentTombstone) (s : Storage)
    → IsIndexed s
    → IsIndexed (add_tombstone t (remove_content ch s))
unfolding add_tombstone
content-IsIndexed ch t s inv =
    let (en, er, _) = remove_content-nodes ch s in IsIndexed-same s _ en er inv

-- The index stays exact.
pub apply_deletion-IsIndexed :
    (cfg : Config) (now : ℕ) (originator : Text) (node : CocNode) (s : Storage)
    → IsIndexed s
    → IsIndexed (apply_deletion cfg now originator node s)
unfolding apply_deletion
apply_deletion-IsIndexed cfg now originator node s inv =
    let removed = remove_node-IsIndexed node.node_hash s inv in
    elim (Bool-cases (is_content_referenced node.content_hash (remove_node node.node_hash s))) [
      | inl still ↦ rw still removed
      | inr last ↦ rw last (content-IsIndexed node.content_hash _ _ removed)
    ]

remove_node-content :
    (nh : Text) (s : Storage)
    → ((remove_node nh s).content ≡ s.content) × ((remove_node nh s).tombstones ≡ s.tombstones)
unfolding remove_node
remove_node-content nh s = ground arith

-- While another node holds the content, only the node goes.
apply_deletion-referenced :
    (cfg : Config) (now : ℕ) (originator : Text) (node : CocNode) (s : Storage)
    → is_content_referenced node.content_hash (remove_node node.node_hash s) ≡ true
    → apply_deletion cfg now originator node s ≡ remove_node node.node_hash s
unfolding apply_deletion
apply_deletion-referenced cfg now originator node s e = rw e

abbrev tombstone_for : Config → ℕ → Text → CocNode → ContentTombstone
tombstone_for cfg now originator_id node = record {
  content_hash = node.content_hash;
  deleted_at = cfg.format.isoformat now;
  delete_after = cfg.format.isoformat (now + seconds cfg.tombstone_grace_seconds);
  originator_id = originator_id;
  node_hash = node.node_hash;
}

apply_deletion-unreferenced :
    (cfg : Config) (now : ℕ) (originator : Text) (node : CocNode) (s : Storage)
    → is_content_referenced node.content_hash (remove_node node.node_hash s) ≡ false
    → apply_deletion cfg now originator node s
      ≡ add_tombstone
          (tombstone_for cfg now originator node)
          (remove_content node.content_hash (remove_node node.node_hash s))
unfolding apply_deletion
apply_deletion-unreferenced cfg now originator node s e = rw e

apply_deletion-nodes :
    (cfg : Config) (now : ℕ) (originator : Text) (node : CocNode) (s : Storage)
    → (apply_deletion cfg now originator node s).nodes ≡ (remove_node node.node_hash s).nodes
unfolding apply_deletion add_tombstone
apply_deletion-nodes cfg now originator node s =
    ground (arith, remove_content-nodes node.content_hash (remove_node node.node_hash s))

-- In an indexed storage, deleting a node takes out that node and no other.
pub apply_deletion-get_node :
    (cfg : Config) (now : ℕ) (originator : Text) (node : CocNode) (s : Storage) (h : Text)
    → IsIndexed s
    → get_node h (apply_deletion cfg now originator node s)
      ≡ (if text_eq h node.node_hash then none else get_node h s)
apply_deletion-get_node cfg now originator node s h inv =
    unfold get_node in
    rw (apply_deletion-nodes cfg now originator node s) (lookup-remove_node node.node_hash h s)

-- In an indexed storage, if another node has the content of a node, then deleting that node
-- keeps the content and leaves the tombstones as they were.
pub apply_deletion_shared :
    (cfg : Config) (now : ℕ) (originator : Text) (node : CocNode) (s : Storage)
    → IsIndexed s
    → ReferencedBesides node.node_hash node.content_hash s
    → (get_content node.content_hash (apply_deletion cfg now originator node s)
        ≡ get_content node.content_hash s)
      × ((apply_deletion cfg now originator node s).tombstones ≡ s.tombstones)
apply_deletion_shared cfg now originator node s inv r =
    let exactly = (remove_node-Referenced node.node_hash node.content_hash s inv).1 in
    let kept = remove_node-content node.node_hash s in
    rw (apply_deletion-referenced cfg now originator node s (exactly.1 r))
      (unfold get_content in (ap (lookup node.content_hash) kept.0, kept.1))

-- If times read back as they were written, then in an indexed storage, if no other node has
-- the content of a node, deleting that node removes the content and puts it under a tombstone
-- that is in force up to the end of the grace period and no longer.
pub apply_deletion_last :
    (cfg : Config) (now : ℕ) (originator : Text) (node : CocNode) (s : Storage)
    → IsTimeFormat cfg.format
    → IsIndexed s
    → ¬ ReferencedBesides node.node_hash node.content_hash s
    → (get_content node.content_hash (apply_deletion cfg now originator node s) ≡ none)
      × ((later : ℕ)
          → (is_tombstoned cfg.format later node.content_hash
              (apply_deletion cfg now originator node s)).0
            ≡ leb later (now + seconds cfg.tombstone_grace_seconds))
apply_deletion_last cfg now originator node s dates inv none_left =
    let exactly = (remove_node-Referenced node.node_hash node.content_hash s inv).1 in
    let until = now + seconds cfg.tombstone_grace_seconds in
    rw
      (apply_deletion-unreferenced cfg now originator node s
        (Bool-not_true _ (λ e. none_left (exactly.0 e))))
      (
        get_content-add_tombstone node.content_hash _ _
            ∙ get_content-remove_content node.content_hash _,
        λ later.
            is_tombstoned-add_tombstone cfg.format (tombstone_for cfg now originator node) until
              later node.content_hash _ (parse_time-isoformat cfg.format until dates)
            ∙ (ground arith),
      )

-- All of a deletion at once.
pub apply_deletion_effect :
    (cfg : Config) (now : ℕ) (originator : Text) (node : CocNode) (s : Storage)
    → IsTimeFormat cfg.format
    → IsIndexed s
    → DeletedFrom cfg now node.node_hash node.content_hash s
        (apply_deletion cfg now originator node s)
apply_deletion_effect cfg now originator node s dates inv =
    let exactly = (remove_node-Referenced node.node_hash node.content_hash s inv).1 in
    (
      λ h. apply_deletion-get_node cfg now originator node s h inv,
      elim (Bool-cases (is_content_referenced node.content_hash (remove_node node.node_hash s))) [
        | inl still ↦
            let r = exactly.0 still in
            let kept = apply_deletion_shared cfg now originator node s inv r in
            inl (r, kept.0, kept.1)
        | inr last ↦
            let r : ¬ ReferencedBesides node.node_hash node.content_hash s =
              λ r. true_not_false _ (exactly.1 r) last in
            let gone = apply_deletion_last cfg now originator node s dates inv r in
            inr (r, gone.0, gone.1)
      ],
    )
  where
    true_not_false : (b : Bool) → b ≡ true → b ≡ false → ⊥
    true_not_false b t f = cc
