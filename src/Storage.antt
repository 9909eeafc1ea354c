-- ===== src/Storage.antt =====
-- coc_framework/interfaces/storage_backend.py: tombstones and the storage in memory.
-- The clock is an argument `now`; the times of a tombstone are texts, as the code keeps them.
pub mod Index
pub mod References
pub mod Tombstones
mod Tests
use trust_flow_chain_of_cust.Prelude.{
  length, take, drop, replicate, get_last?, All, length-append, length-retain-le, All-retain,
  All-append, elem-append, elem-retain, retain, elem, ltb, leb, ◌==◌, if◌then◌else◌, Bool-cases,
  Option-cases, Text, codes, text_eq, text_eq_refl, is_empty, is_some, Text-discrete, ℕ, zero, suc,
  ◌+◌, ◌-◌, ◌*◌, ◌/◌, ◌%◌, ◌^◌, ◌≤◌, ◌<◌, ◌≡◌, refl, sym, ap, ◌∙◌, ◌≢◌, ◌↔◌, ◌⊎◌, inl, inr, Bool,
  true, false, not, ◌&&◌, ◌||◌, Option, none, some, List, [], ◌∷◌, ◌++◌, map, arith, dec_lt, dec_le,
  ℕ_discrete,
}
use trust_flow_chain_of_cust.Prelude.Dict.{
  Dict, lookup, contains, get_or, insert, erase, filter_values,
}
use trust_flow_chain_of_cust.Prelude.KeySet.{add, discard}
use trust_flow_chain_of_cust.CocNode.{CocNode}
use trust_flow_chain_of_cust.Clock.{TimeFormat, parse_time}

pub record ContentTombstone : Type 0 where
  pub content_hash : Text
  pub deleted_at : Text
  pub delete_after : Text
  pub originator_id : Text
  pub node_hash : Text

-- `ContentTombstone.is_expired`: a text that does not read as a time has expired.
unfoldable pub is_expired : TimeFormat → ℕ → ContentTombstone → Bool
is_expired f now t = elim (parse_time f t.delete_after) [
  | none ↦ true
  | some expiry ↦ ltb expiry now
]

-- `InMemoryStorage`; `content_refs` is the index from a content hash to the hashes of its nodes.
pub record Storage : Type 0 where
  pub nodes : Dict CocNode
  pub content : Dict Text
  pub content_refs : Dict (List Text)
  pub tombstones : Dict ContentTombstone

unfoldable pub empty : Storage
empty = record { nodes = []; content = []; content_refs = []; tombstones = [] }

-- Takes a node hash out of the entry of a content hash, and an entry that this empties out of the
-- index.
unfoldable pub drop_ref : Text → Text → Dict (List Text) → Dict (List Text)
drop_ref ch nh refs = elim (lookup ch refs) [
  | none ↦ refs
  | some hashes ↦
      if is_empty (discard nh hashes) then erase ch refs else insert ch (discard nh hashes) refs
]

-- Adds a node hash to the entry of a content hash.
unfoldable pub add_ref : Text → Text → Dict (List Text) → Dict (List Text)
add_ref ch nh refs = insert ch (add nh (get_or ch refs [])) refs

-- The index without the node that stands under `nh`.
unfoldable pub forget_ref : Text → Storage → Dict (List Text)
forget_ref nh s = elim (lookup nh s.nodes) [
  | none ↦ s.content_refs
  | some old ↦ drop_ref old.content_hash nh s.content_refs
]

unfoldable pub add_node : CocNode → Storage → Storage
unfolding forget_ref add_ref
add_node n s = record s {
  nodes = insert n.node_hash n s.nodes;
  content_refs = add_ref n.content_hash n.node_hash (forget_ref n.node_hash s);
}

unfoldable pub get_node : Text → Storage → Option CocNode
get_node nh s = lookup nh s.nodes

unfoldable pub remove_node : Text → Storage → Storage
unfolding forget_ref
remove_node nh s =
    if contains nh s.nodes
    then record s { nodes = erase nh s.nodes; content_refs = forget_ref nh s }
    else s

unfoldable pub get_all_nodes : Storage → List CocNode
get_all_nodes s = map (λ e. e.1) s.nodes

unfoldable pub add_content : Text → Text → Storage → Storage
add_content ch content s = record s { content = insert ch content s.content }

unfoldable pub get_content : Text → Storage → Option Text
get_content ch s = lookup ch s.content

unfoldable pub remove_content : Text → Storage → Storage
remove_content ch s = if contains ch s.content then record s { content = erase ch s.content } else s

unfoldable pub is_content_referenced : Text → Storage → Bool
is_content_referenced ch s = elim (lookup ch s.content_refs) [
  | none ↦ false
  | some hashes ↦ ltb 0 (length hashes)
]

-- The nodes that stand under the given hashes.
unfoldable pub nodes_of : Dict CocNode → List Text → List CocNode
nodes_of nodes [] = []
nodes_of nodes (h ∷ hs) =
    let rest = nodes_of nodes hs in elim (lookup h nodes) [ none ↦ rest | some n ↦ n ∷ rest ]

unfoldable pub get_nodes_by_content : Text → Storage → List CocNode
unfolding nodes_of
get_nodes_by_content ch s = elim (lookup ch s.content_refs) [
  | none ↦ []
  | some hashes ↦ nodes_of s.nodes hashes
]

unfoldable pub add_tombstone : ContentTombstone → Storage → Storage
add_tombstone t s = record s { tombstones = insert t.content_hash t s.tombstones }

-- An expired tombstone is taken out when it is looked up.
unfoldable pub get_tombstone : TimeFormat → ℕ → Text → Storage → Option ContentTombstone × Storage
unfolding is_expired
get_tombstone f now ch s = elim (lookup ch s.tombstones) [
  | none ↦ (none, s)
  | some t ↦
      if is_expired f now t
      then (none, record s { tombstones = erase ch s.tombstones })
      else (some t, s)
]

unfoldable pub is_tombstoned : TimeFormat → ℕ → Text → Storage → Bool × Storage
unfolding get_tombstone
is_tombstoned f now ch s = let (t, s') = get_tombstone f now ch s in (is_some t, s')

unfoldable pub cleanup_expired_tombstones : TimeFormat → ℕ → Storage → ℕ × Storage
unfolding is_expired
cleanup_expired_tombstones f now s = (
  length (filter_values (is_expired f now) s.tombstones),
  record s { tombstones = filter_values (λ t. not (is_expired f now t)) s.tombstones },
)

unfoldable pub get_all_tombstones : TimeFormat → ℕ → Storage → List ContentTombstone × Storage
unfolding cleanup_expired_tombstones
get_all_tombstones f now s =
    let (_, s') = cleanup_expired_tombstones f now s in (map (λ e. e.1) s'.tombstones, s')
