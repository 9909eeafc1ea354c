-- ===== src/CocNode.antt =====
-- coc_framework/core/coc_node.py: the nodes of the chain of custody.
-- Sets are lists without order; the time of creation is an argument, as is the storage that
-- `get_all_descendants` reads.
pub mod Codec
pub mod Signing
mod Tests
use trust_flow_chain_of_cust.Prelude.{
  length, take, drop, replicate, get_last?, All, length-append, length-retain-le, All-retain,
  All-append, elem-append, elem-retain, retain, elem, ltb, leb, ◌==◌, if◌then◌else◌, Bool-cases,
  Option-cases, Text, codes, text_eq, text_eq_refl, is_empty, is_some, Text-discrete, ℕ, zero, suc,
  ◌+◌, ◌-◌, ◌*◌, ◌/◌, ◌%◌, ◌^◌, ◌≤◌, ◌<◌, ◌≡◌, refl, sym, ap, ◌∙◌, ◌≢◌, ◌↔◌, ◌⊎◌, inl, inr, Bool,
  true, false, not, ◌&&◌, ◌||◌, Option, none, some, List, [], ◌∷◌, ◌++◌, map, arith, dec_lt, dec_le,
  ℕ_discrete,
}
use trust_flow_chain_of_cust.Prelude.KeySet.{add}
use trust_flow_chain_of_cust.Strings.Decimal.{decimal}
use trust_flow_chain_of_cust.Strings.Hex.{Bytes, to_hex}
use trust_flow_chain_of_cust.Strings.Join.{join}
use trust_flow_chain_of_cust.Strings.Sort.{sorted}
use trust_flow_chain_of_cust.Crypto.{Crypto, sign_message, verify_signature, hash_content}

abbrev pub node_schema_version : ℕ
node_schema_version = 2

-- The `node_hash` of a node that has not been signed, `None`, is the empty text.
pub record CocNode : Type 0 where
  pub schema_version : ℕ
  pub content_hash : Text
  pub parent_hash : Option Text
  pub owner_id : Text
  pub recipient_ids : List Text
  pub timestamp : Text
  pub children_hashes : List Text
  pub depth : ℕ
  pub signature : Option Bytes
  pub node_hash : Text

-- `x or ""`
abbrev pub or_empty : Option Text → Text
or_empty none = []
or_empty (some s) = s

unfoldable pub get_signing_data : CocNode → Text
get_signing_data n = join (codes "|") (
    decimal n.schema_version
    ∷ n.content_hash
    ∷ or_empty n.parent_hash
    ∷ n.owner_id
    ∷ join (codes ",") n.recipient_ids
    ∷ n.timestamp
    ∷ [])

-- The signing half of `CoCNode.__init__`.
unfoldable pub sign_node : Crypto → Option Bytes → CocNode → CocNode
sign_node c none n = record n { signature = none; node_hash = [] }
sign_node c (some key) n =
    let signature = sign_message c key (get_signing_data n) in
    record n {
      signature = some signature;
      node_hash = hash_content c (to_hex signature ++ (codes "|" ++ n.content_hash));
    }

-- `CoCNode.__init__`, at the time `now`.
unfoldable pub init :
    Crypto → Text → Text → Text → Option Bytes → List Text → Option Text → ℕ → ℕ → CocNode
init c now content_hash owner_id signing_key recipient_ids parent_hash depth schema_version =
    sign_node c signing_key (record {
      schema_version = schema_version;
      content_hash = content_hash;
      parent_hash = parent_hash;
      owner_id = owner_id;
      recipient_ids = sorted recipient_ids;
      timestamp = now;
      children_hashes = [];
      depth = depth;
      signature = none;
      node_hash = [];
    })

-- `parent.add_child(child)`: the new parent and the new child.
unfoldable pub add_child : CocNode → CocNode → CocNode × CocNode
add_child parent child = (
  record parent { children_hashes = add child.node_hash parent.children_hashes },
  record child { depth = parent.depth + 1 },
)

-- The text that the first format of nodes signed.
unfoldable pub legacy_signing_data : CocNode → Text
legacy_signing_data n =
    n.content_hash
    ++ (or_empty n.parent_hash ++ (n.owner_id ++ (join (codes ",") n.recipient_ids ++ n.timestamp)))

-- `CoCNode.verify_signature`
unfoldable pub verify : Crypto → CocNode → Bytes → Bool
verify c n verify_key = elim n.signature [
  | none ↦ false
  | some signature ↦
      if is_empty signature
      then false
      else if leb 2 n.schema_version
      then verify_signature c verify_key (get_signing_data n) signature
      else verify_signature c verify_key (legacy_signing_data n) signature
]

-- `get_all_descendants`, over the children that `get_node` finds; fuel bounds the depth.
descend : (CocNode → List CocNode) → (Text → Option CocNode) → List Text → List CocNode
descend below get_node [] = []
descend below get_node (h ∷ hs) =
    let rest = descend below get_node hs in
    elim (get_node h) [ none ↦ rest | some child ↦ child ∷ (below child ++ rest) ]

unfoldable pub get_all_descendants : ℕ → (Text → Option CocNode) → CocNode → List CocNode
unfolding descend
get_all_descendants zero get_node n = []
get_all_descendants (suc f) get_node n =
    descend (get_all_descendants f get_node) get_node n.children_hashes
