-- ===== src/CocNode/Signing.antt =====
-- What the signature of a node covers, and that the constructor's signature verifies.
use mathlib.Core.Path.{subst}
use trust_flow_chain_of_cust.Prelude.{
  All, Text, codes, ℕ, ◌≤◌, ◌<◌, ◌≡◌, refl, ◌≢◌, true, Option, none, some, List, [], ◌∷◌, arith,
}
use trust_flow_chain_of_cust.Strings.Decimal.{decimal, decimal-injective, decimal-digits}
use trust_flow_chain_of_cust.Strings.Hex.{Bytes, IsBytes}
use trust_flow_chain_of_cust.Strings.Join.{join, Lacks, join-injective, join-injective_nonempty}
use trust_flow_chain_of_cust.Strings.Sort.{sorted-IsSorted}
use trust_flow_chain_of_cust.Crypto.{Crypto, IsSignature, sign_message, verify_signature}
use trust_flow_chain_of_cust.CocNode.{
  CocNode, get_signing_data, init, sign_node, verify, or_empty, add_child,
}
use trust_flow_chain_of_cust.CocNode.Codec.{IsWellFormed}

verify_signed :
    (c : Crypto) (key : Bytes) (n : CocNode)
    → IsSignature c
    → 2 ≤ n.schema_version
    → n.signature ≡ some (c.sign key (get_signing_data n))
    → verify c n (c.public_key key) ≡ true
unfolding verify verify_signature
verify_signed c key n sound h e =
    ground (
      arith,
      sound.accepts-sign key (get_signing_data n),
      sound.sign-ne_nil key (get_signing_data n),
    )

-- A node that the constructor signed, in version 2 or later, verifies under its signer's key,
-- also once a child has been added to it, if a signature verifies under its own key.
pub init-verify :
    (c : Crypto)
    → IsSignature c
    → (now content_hash owner_id : Text) (key : Bytes) (recipient_ids : List Text)
      (parent_hash : Option Text) (depth version : ℕ) (child : CocNode)
    → 2 ≤ version
    → let n = init c now content_hash owner_id (some key) recipient_ids parent_hash depth version in
      (verify c n (c.public_key key) ≡ true)
      × (verify c (add_child n child).0 (c.public_key key) ≡ true)
unfolding init sign_node sign_message add_child get_signing_data
init-verify c sound now content_hash owner_id key recipient_ids parent_hash depth version child h =
    (verify_signed c key _ sound h refl, verify_signed c key _ sound h refl)

signature_bytes :
    (c : Crypto) (key : Bytes) (m : Text) (s : Bytes)
    → IsSignature c
    → some (c.sign key m) ≡ some s
    → (s ≢ []) × IsBytes s
signature_bytes c key m s sound e =
    let same : c.sign key m ≡ s = cc in
    subst (λ t. (t ≢ []) × IsBytes t) same (sound.sign-ne_nil key m, sound.sign-IsBytes key m)

-- The constructor makes nodes whose recipients are sorted and whose signature, if there is
-- one, is a non-empty string of bytes, if signatures are non-empty strings of bytes.
pub init-IsWellFormed :
    (c : Crypto)
    → IsSignature c
    → (now content_hash owner_id : Text) (key : Option Bytes) (recipient_ids : List Text)
      (parent_hash : Option Text) (depth version : ℕ)
    → IsWellFormed (init c now content_hash owner_id key recipient_ids parent_hash depth version)
unfolding init sign_node sign_message
init-IsWellFormed c sound now content_hash owner_id none recipient_ids parent_hash depth version =
    record { ordered = sorted-IsSorted recipient_ids; signed = λ s e. cc }
init-IsWellFormed c sound now content_hash owner_id (some key) recipient_ids parent_hash depth
      version =
    record {
      ordered = sorted-IsSorted recipient_ids;
      signed = λ s e. signature_bytes c key _ s sound e;
    }

-- No field holds the character that separates the fields, no recipient is empty or holds a comma,
-- and a parent, if there is one, has a hash that is not empty.
pub record IsPlain (n : CocNode) : Type 0 where
  pub plain_content : Lacks b'|' n.content_hash
  pub plain_parent : Lacks b'|' (or_empty n.parent_hash)
  pub plain_owner : Lacks b'|' n.owner_id
  pub plain_recipients : Lacks b'|' (join (codes ",") n.recipient_ids)
  pub plain_timestamp : Lacks b'|' n.timestamp
  pub some_parent : n.parent_hash ≢ some []
  pub split_recipients : All (λ r. (r ≢ []) × Lacks b',' r) n.recipient_ids

decimal-Lacks : (n : ℕ) → Lacks b'|' (decimal n)
decimal-Lacks n = weaken (decimal n) (decimal-digits n)
  where
    weaken : (s : Text) → All (λ c. (48 ≤ c) × (c < 58)) s → Lacks b'|' s
    weaken [] h = tt
    weaken (c ∷ s) h = (omega arith, weaken s h.1)

or_empty-injective :
    (a b : Option Text) → a ≢ some [] → b ≢ some [] → or_empty a ≡ or_empty b → a ≡ b
or_empty-injective none none ha hb e = refl
or_empty-injective none (some b) ha hb e = absurd (hb (cc))
or_empty-injective (some a) none ha hb e = absurd (ha (cc))
or_empty-injective (some a) (some b) ha hb e = cc

abbrev parts : CocNode → List Text
parts n =
    decimal n.schema_version
    ∷ n.content_hash
    ∷ or_empty n.parent_hash
    ∷ n.owner_id
    ∷ join (codes ",") n.recipient_ids
    ∷ n.timestamp
    ∷ []

parts-Lacks : (n : CocNode) → IsPlain n → All (Lacks b'|') (parts n)
parts-Lacks n h = (
  decimal-Lacks n.schema_version,
  (
    h.plain_content,
    (h.plain_parent, (h.plain_owner, (h.plain_recipients, (h.plain_timestamp, tt)))),
  ),
)

-- Two nodes with the same signing data agree in schema version, content hash, parent, owner,
-- recipients and timestamp, if no field holds the separator, no recipient is empty or holds a
-- comma, and a parent hash is not empty.
pub get_signing_data-injective :
    (m n : CocNode)
    → IsPlain m
    → IsPlain n
    → get_signing_data m ≡ get_signing_data n
    → (m.schema_version ≡ n.schema_version)
      × (m.content_hash ≡ n.content_hash)
      × (m.parent_hash ≡ n.parent_hash)
      × (m.owner_id ≡ n.owner_id)
      × (m.recipient_ids ≡ n.recipient_ids)
      × (m.timestamp ≡ n.timestamp)
unfolding get_signing_data
get_signing_data-injective m n hm hn e =
    let same : parts m ≡ parts n =
      join-injective b'|' (parts m) (parts n) refl (parts-Lacks m hm) (parts-Lacks n hn) e in
    (
      decimal-injective m.schema_version n.schema_version (cc same),
      cc same,
      or_empty-injective m.parent_hash n.parent_hash hm.some_parent hn.some_parent (cc same),
      cc same,
      join-injective_nonempty b',' m.recipient_ids n.recipient_ids hm.split_recipients
          hn.split_recipients (cc same),
      cc same,
    )
