-- ===== src/Storage/References.antt =====
-- What the storage answers about contents, told from its nodes alone.
use trust_flow_chain_of_cust.CocNode.{CocNode}
use trust_flow_chain_of_cust.Prelude.Dict.{lookup, get_or, lookup-erase, Dict}
use trust_flow_chain_of_cust.Storage.Index.{has_content, IsIndexed, remove_node-IsIndexed}
use trust_flow_chain_of_cust.Storage.{
  Storage, is_content_referenced, get_nodes_by_content, remove_node, nodes_of,
}
use trust_flow_chain_of_cust.Prelude.{
  length, All, elem, ltb, if◌then◌else◌, Option-cases, Text, text_eq, Text-discrete, ◌≡◌, sym, ap,
  ◌∙◌, ◌≢◌, ◌↔◌, inl, inr, true, none, some, List, [], ◌∷◌, arith,
}
use mathlib.Core.List.{Mem, mem-cons_self, mem-cons_of_mem}

-- Some node in the storage has this content.
abbrev pub Referenced : Text → Storage → Type 0
Referenced ch s = (nh : Text) × (n : CocNode) × (lookup nh s.nodes ≡ some n) × (n.content_hash ≡ ch)

has_content-Referenced :
    (ch nh : Text) (s : Storage) → has_content nh ch s.nodes ≡ true → Referenced ch s
unfolding has_content
has_content-Referenced ch nh s h = elim (Option-cases (lookup nh s.nodes)) [
  | inl e ↦ absurd (ground arith)
  | inr (n, e) ↦ (nh, n, e, ground arith)
]

Referenced-of_some :
    (ch : Text) (s : Storage) (hashes : List Text)
    → IsIndexed s
    → lookup ch s.content_refs ≡ some hashes
    → Referenced ch s
Referenced-of_some ch s [] inv e = absurd (inv.no_empty ch e)
Referenced-of_some ch s (h ∷ hs) inv e =
    has_content-Referenced ch h s (sym (inv.exact ch h) ∙ (unfold elem in ground arith))

length-pos_of_elem : (a : Text) (xs : List Text) → elem a xs ≡ true → ltb 0 (length xs) ≡ true
unfolding elem
length-pos_of_elem a [] h = cc
length-pos_of_elem a (x ∷ xs) h = ground arith

is_Referenced_of_elem :
    (ch : Text) (s : Storage) (r : Referenced ch s)
    → IsIndexed s
    → (hashes : List Text) → lookup ch s.content_refs ≡ some hashes
    → ltb 0 (length hashes) ≡ true
unfolding has_content
is_Referenced_of_elem ch s r inv hashes e =
    length-pos_of_elem r.0 hashes (ground (arith, inv.exact ch r.0, r.2, r.3))

-- In an indexed storage a content counts as referenced exactly when some node in the storage
-- has it.
pub is_content_referenced_iff :
    (ch : Text) (s : Storage) → IsIndexed s → (is_content_referenced ch s ≡ true) ↔ Referenced ch s
unfolding is_content_referenced
is_content_referenced_iff ch s inv = (
  λ h. elim (Option-cases (lookup ch s.content_refs)) [
    | inl e ↦ absurd (ground arith)
    | inr (hashes, e) ↦ Referenced-of_some ch s hashes inv e
  ],
  λ r. elim (Option-cases (lookup ch s.content_refs)) [
    | inl e ↦ absurd (unfold has_content elem in ground (arith, inv.exact ch r.0))
    | inr (hashes, e) ↦ rw (e, is_content_referenced) (is_Referenced_of_elem ch s r inv hashes e)
  ],
)

pub lookup-remove_node :
    (nh h : Text) (s : Storage)
    → lookup h (remove_node nh s).nodes ≡ (if text_eq h nh then none else lookup h s.nodes)
unfolding remove_node
lookup-remove_node nh h s = ground (arith, lookup-erase nh h s.nodes)

-- Some other node in the storage has this content.
abbrev pub ReferencedBesides : Text → Text → Storage → Type 0
ReferencedBesides nh ch s =
    (h : Text) × (n : CocNode) × (h ≢ nh) × (lookup h s.nodes ≡ some n) × (n.content_hash ≡ ch)

besides_of_removed :
    (nh ch : Text) (s : Storage) → Referenced ch (remove_node nh s) → ReferencedBesides nh ch s
besides_of_removed nh ch s (h, n, e, c) =
    (h, n, ground (arith, lookup-remove_node nh h s), ground (arith, lookup-remove_node nh h s), c)

removed_of_besides :
    (nh ch : Text) (s : Storage) → ReferencedBesides nh ch s → Referenced ch (remove_node nh s)
removed_of_besides nh ch s (h, n, ne, e, c) = (h, n, ground (arith, lookup-remove_node nh h s), c)

-- In an indexed storage, removing a node drops it, and a content then counts as referenced
-- exactly when another node has it.
pub remove_node-Referenced :
    (nh ch : Text) (s : Storage)
    → IsIndexed s
    → (lookup nh (remove_node nh s).nodes ≡ none)
      × ((is_content_referenced ch (remove_node nh s) ≡ true) ↔ ReferencedBesides nh ch s)
remove_node-Referenced nh ch s inv =
    let exactly =
      is_content_referenced_iff ch (remove_node nh s) (remove_node-IsIndexed nh s inv) in
    (
      ground (arith, lookup-remove_node nh nh s),
      (
        λ h. besides_of_removed nh ch s (exactly.0 h),
        λ b. exactly.1 (removed_of_besides nh ch s b),
      ),
    )

nodes_of_sound :
    (ch : Text) (s : Storage)
    → IsIndexed s
    → (hashes : List Text) → ((h : Text) → elem h hashes ≡ true → has_content h ch s.nodes ≡ true)
    → All
        (λ n. (n.content_hash ≡ ch) × (lookup n.node_hash s.nodes ≡ some n))
        (nodes_of s.nodes hashes)
unfolding nodes_of elem has_content
nodes_of_sound ch s inv [] k = tt
nodes_of_sound ch s inv (h ∷ hs) k =
    let rest = nodes_of_sound ch s inv hs (λ j e. k j (ground arith)) in
    elim (Option-cases (lookup h s.nodes)) [
      | inl e ↦ rw (e, nodes_of) rest
      | inr (n, e) ↦
          rw (e, nodes_of)
            ((ground (arith, k h), ap (λ k. lookup k s.nodes) (inv.keyed h n e) ∙ e), rest)
    ]

-- In an indexed storage the nodes that are found by a content have it and are in the storage.
pub get_nodes_by_content_sound :
    (ch : Text) (s : Storage)
    → IsIndexed s
    → All
        (λ n. (n.content_hash ≡ ch) × (lookup n.node_hash s.nodes ≡ some n))
        (get_nodes_by_content ch s)
unfolding get_nodes_by_content
get_nodes_by_content_sound ch s inv = elim (Option-cases (lookup ch s.content_refs)) [
  | inl e ↦ rw (e, get_nodes_by_content) tt
  | inr (hashes, e) ↦
      rw (e, get_nodes_by_content)
        (nodes_of_sound ch s inv hashes (λ h k. sym (inv.exact ch h) ∙ (ground arith)))
]

nodes_of_complete :
    (nodes : Dict CocNode) (n : CocNode) (hashes : List Text)
    → lookup n.node_hash nodes ≡ some n
    → elem n.node_hash hashes ≡ true
    → Mem n (nodes_of nodes hashes)
unfolding nodes_of elem
nodes_of_complete nodes n [] e k = cc
nodes_of_complete nodes n (h ∷ hs) e k = elim (Text-discrete n.node_hash h) [
  | yes same ↦ rw (← same, e, nodes_of) mem-cons_self
  | no other ↦
      let rest = nodes_of_complete nodes n hs e (ground arith) in
      elim (Option-cases (lookup h nodes)) [
        | inl missing ↦ rw (missing, nodes_of) rest
        | inr (m, found) ↦ rw (found, nodes_of) (mem-cons_of_mem m rest)
      ]
]

-- In an indexed storage each node in the storage is found by its content.
pub get_nodes_by_content_complete :
    (s : Storage) (n : CocNode)
    → IsIndexed s
    → lookup n.node_hash s.nodes ≡ some n
    → Mem n (get_nodes_by_content n.content_hash s)
unfolding get_nodes_by_content
get_nodes_by_content_complete s n inv e =
    let listed : elem n.node_hash (get_or n.content_hash s.content_refs []) ≡ true =
      inv.exact n.content_hash n.node_hash ∙ (unfold has_content in ground arith) in
    elim (Option-cases (lookup n.content_hash s.content_refs)) [
      | inl missing ↦ absurd (unfold elem in ground arith)
      | inr (hashes, found) ↦
          rw (found, get_nodes_by_content) (nodes_of_complete s.nodes n hashes e (ground arith))
    ]
