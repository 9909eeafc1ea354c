-- ===== src/Network/Authority.antt =====
-- When `process_token` deletes, and for whom.
use trust_flow_chain_of_cust.Clock.{IsTimeFormat}
use trust_flow_chain_of_cust.Network.Effect.{
  apply_deletion_effect, apply_deletion-get_node, DeletedFrom,
}
use trust_flow_chain_of_cust.CocNode.{CocNode}
use trust_flow_chain_of_cust.Storage.Index.{IsIndexed}
use trust_flow_chain_of_cust.Crypto.{IsSignature}
use trust_flow_chain_of_cust.Deletion.Token.{DeletionToken, sign, check_signature-sign}
use trust_flow_chain_of_cust.Storage.{Storage, get_node}
use trust_flow_chain_of_cust.Deletion.Replay.{admitted}
use trust_flow_chain_of_cust.Prelude.Result.{ok, Result, err}
use trust_flow_chain_of_cust.Prelude.Dict.{Dict, lookup}
use trust_flow_chain_of_cust.Network.Engine.{
  process_token, delete_node, admit_token, verify_token, apply_deletion,
}
use trust_flow_chain_of_cust.Network.Process.{
  PeersKeyed, verdict_of, IsSigned, Holds, Deleted, admit_token-peers, admit_token-verdict,
  verify_token-peers, IsSigned-peers, delete_node_effect, verify_token-ok, verify_token-IsSigned,
  Holds-peers, delete_node-Holds, delete_node_refused,
}
use trust_flow_chain_of_cust.Network.Frame.{storage_of, SameStorages}
use trust_flow_chain_of_cust.Network.World.{Config, World, Peer, Error, ◌>>=◌}
use trust_flow_chain_of_cust.Prelude.{
  if◌then◌else◌, Text, text_eq, ℕ, ◌≡◌, refl, sym, ap, ◌∙◌, ◌≢◌, Bool, true, false, Option, none,
  some, arith,
}

storage_of-peers :
    (v w : World) → v.peers ≡ w.peers → (pid : Text) → storage_of pid v ≡ storage_of pid w
storage_of-peers v w e pid = ap (λ ps. storage_in pid ps) e
  where
    storage_in : Text → Dict Peer → Option Storage
    storage_in a ps = elim (lookup a ps) [ none ↦ none | some p ↦ some p.storage ]

module _ (cfg : Config) (now : ℕ) (pid : Text) (token : DeletionToken) (w : World) where
  -- The state after the tests for replay and expiry, and the one after the check of the signature.
  abbrev tested : World
  tested = (admit_token cfg now pid token w).1

  abbrev checked : World
  checked = (verify_token cfg pid token tested).1

  checked-peers : checked.peers ≡ w.peers
  checked-peers = verify_token-peers cfg pid token tested ∙ admit_token-peers cfg now pid token w

  -- The three ways out of `process_token`, and the way on to the deletion.
  data Course : Type 0 where
    stopped :
        (x : Error)
        → (admit_token cfg now pid token w).0 ≡ err x
        → process_token cfg now pid token w ≡ (err x, tested)
        → Course
    failed :
        (x : Error)
        → (admit_token cfg now pid token w).0 ≡ ok tt
        → (verify_token cfg pid token tested).0 ≡ err x
        → process_token cfg now pid token w ≡ (err x, checked)
        → Course
    unsigned :
        (admit_token cfg now pid token w).0 ≡ ok tt
        → (verify_token cfg pid token tested).0 ≡ ok false
        → process_token cfg now pid token w ≡ (ok false, checked)
        → Course
    signed :
        (admit_token cfg now pid token w).0 ≡ ok tt
        → (verify_token cfg pid token tested).0 ≡ ok true
        → process_token cfg now pid token w ≡ delete_node cfg now pid token checked
        → Course

  signed_course :
      (r : Result Error Bool)
      → (admit_token cfg now pid token w).0 ≡ ok tt
      → (verify_token cfg pid token tested).0 ≡ r
      → Course
  unfolding process_token
  signed_course (err x) a v = failed x a v (rw (a, ◌>>=◌) (rw (v, ◌>>=◌)))
  signed_course (ok false) a v = unsigned a v (rw (a, ◌>>=◌) (rw (v, ◌>>=◌)))
  signed_course (ok true) a v = signed a v (rw (a, ◌>>=◌) (rw (v, ◌>>=◌)))

  course_of : (r : Result Error (Unit {0})) → (admit_token cfg now pid token w).0 ≡ r → Course
  unfolding process_token
  course_of (err x) a = stopped x a (rw (a, ◌>>=◌))
  course_of (ok _) a = signed_course (verify_token cfg pid token tested).0 a refl

  course : Course
  course = course_of (admit_token cfg now pid token w).0 refl

-- Once the token is admitted and its signature is good, the rest is the deletion.
process_token-eq :
    (cfg : Config) (now : ℕ) (pid : Text) (token : DeletionToken) (w : World)
    → verdict_of cfg now pid token w ≡ admitted
    → IsSigned cfg token w
    → process_token cfg now pid token w ≡ delete_node cfg now pid token (tested cfg now pid token w)
process_token-eq cfg now pid token w e s =
    let v = tested cfg now pid token w in
    let fine : (admit_token cfg now pid token w).0 ≡ ok tt =
      (admit_token-verdict cfg now pid token w).1 e in
    let valid : verify_token cfg pid token v ≡ (ok true, v) =
      verify_token-ok cfg pid token v
        (IsSigned-peers cfg token v w (admit_token-peers cfg now pid token w) s) in
    unfold process_token in
    rw (fine, ◌>>=◌)
      (rw (ap (λ r. r.0) valid, ◌>>=◌) (ap (delete_node cfg now pid token) (ap (λ r. r.1) valid)))

-- `process_token` in terms of the deletion of one node.
process_token-apply_deletion :
    (cfg : Config) (now : ℕ) (pid : Text) (token : DeletionToken) (w : World)
    → PeersKeyed w
    → verdict_of cfg now pid token w ≡ admitted
    → IsSigned cfg token w
    → (h : Holds pid token.node_hash w)
    → ((process_token cfg now pid token w).0 ≡ ok true)
      × Deleted cfg now pid token h.node h.peer.storage w (process_token cfg now pid token w).1
process_token-apply_deletion cfg now pid token w keyed e s h =
    let v = tested cfg now pid token w in
    let same = admit_token-peers cfg now pid token w in
    let d =
      delete_node_effect cfg now pid token v (λ a p q. keyed a p (ground (arith, same)))
        (record {
          peer = h.peer;
          node = h.node;
          present = ground (arith, same, h.present);
          held = h.held;
        }) in
    rw (process_token-eq cfg now pid token w e s) (
      d.0,
      λ other.
          d.1 other
          ∙ ap
              (λ x.
                if text_eq other pid
                then some (apply_deletion cfg now token.originator_id h.node h.peer.storage)
                else x)
              (storage_of-peers v w same other),
    )

-- If peers are listed under their own ids, the receiving peer's storage is indexed and times
-- read back as they were written, then a token that is admitted, carries a valid signature of
-- a known originator, and names a node that the receiving peer holds, is reported as a
-- deletion and changes no other peer's storage. In the receiving peer's storage the node is
-- gone and every other node is kept; if another node has the content, the content and all
-- tombstones stay, and if none has, the content is gone and under a tombstone in force up to
-- the end of the grace period and no longer.
pub process_token_deletes :
    (cfg : Config) (now : ℕ) (pid : Text) (token : DeletionToken) (w : World)
    → IsTimeFormat cfg.format
    → PeersKeyed w
    → verdict_of cfg now pid token w ≡ admitted
    → IsSigned cfg token w
    → (h : Holds pid token.node_hash w) → IsIndexed h.peer.storage
    → ((process_token cfg now pid token w).0 ≡ ok true)
      × ((other : Text)
          → other ≢ pid
          → storage_of other (process_token cfg now pid token w).1 ≡ storage_of other w)
      × ((s : Storage) × (storage_of pid (process_token cfg now pid token w).1 ≡ some s)
          × DeletedFrom cfg now token.node_hash h.node.content_hash h.peer.storage s)
process_token_deletes cfg now pid token w dates keyed e signature h inv =
    let d = process_token-apply_deletion cfg now pid token w keyed e signature h in
    let own : h.node.node_hash ≡ token.node_hash =
      inv.keyed token.node_hash h.node (unfold get_node in h.held) in
    (
      d.0,
      λ other apart. other_entry other _ _ _ apart (d.1 other),
      (
        apply_deletion cfg now token.originator_id h.node h.peer.storage,
        own_entry pid _ _ _ (d.1 pid),
        renamed _ _ _ own
            (apply_deletion_effect cfg now token.originator_id h.node h.peer.storage dates inv),
      ),
    )
  where
    own_entry : (a : Text) (q o s : Option Storage) → q ≡ (if text_eq a a then s else o) → q ≡ s
    own_entry a q o s e = ground arith

    other_entry :
        (a : Text) (q o s : Option Storage) → a ≢ pid → q ≡ (if text_eq a pid then s else o) → q ≡ o
    other_entry a q o s apart e = ground arith

    renamed :
        (a b : Text) (s' : Storage)
        → a ≡ b
        → DeletedFrom cfg now a h.node.content_hash h.peer.storage s'
        → DeletedFrom cfg now b h.node.content_hash h.peer.storage s'
    renamed a b s' same x = rw (sym same) x

-- If processing a token reports a deletion, then the token was admitted by the receiving
-- peer's cache and the clock, it carries a valid signature of a known originator, and the
-- receiving peer held the node.
pub process_token_only :
    (cfg : Config) (now : ℕ) (pid : Text) (token : DeletionToken) (w : World)
    → (process_token cfg now pid token w).0 ≡ ok true
    → (verdict_of cfg now pid token w ≡ admitted)
      × IsSigned cfg token w
      × Holds pid token.node_hash w
process_token_only cfg now pid token w e = elim (course cfg now pid token w) [
  | stopped x a q ↦ cc
  | failed x a v q ↦ cc
  | unsigned a v q ↦ cc
  | signed a v q ↦ (
    (admit_token-verdict cfg now pid token w).0 a,
    IsSigned-peers cfg token w (tested cfg now pid token w)
        (sym (admit_token-peers cfg now pid token w))
        (verify_token-IsSigned cfg pid token (tested cfg now pid token w) v),
    Holds-peers pid token.node_hash _ w (checked-peers cfg now pid token w)
        (delete_node-Holds cfg now pid token _ (sym (ap (λ r. r.0) q) ∙ e)),
  )
]

-- If peers are listed under their own ids and processing a token does not report a deletion,
-- be it that it returns false or raises, then no storage of any peer has changed.
pub process_token_refused :
    (cfg : Config) (now : ℕ) (pid : Text) (token : DeletionToken) (w : World)
    → PeersKeyed w
    → (process_token cfg now pid token w).0 ≢ ok true
    → SameStorages (process_token cfg now pid token w).1 w
process_token_refused cfg now pid token w keyed e other =
    let v₁ = tested cfg now pid token w in
    let v₂ = checked cfg now pid token w in
    let same₁ = storage_of-peers v₁ w (admit_token-peers cfg now pid token w) other in
    let same₂ = storage_of-peers v₂ w (checked-peers cfg now pid token w) other in
    elim (course cfg now pid token w) [
      | stopped x a q ↦ ap (λ r. storage_of other r.1) q ∙ same₁
      | failed x a v q ↦ ap (λ r. storage_of other r.1) q ∙ same₂
      | unsigned a v q ↦ ap (λ r. storage_of other r.1) q ∙ same₂
      | signed a v q ↦
          ap (λ r. storage_of other r.1) q
          ∙ delete_node_refused cfg now pid token v₂
              (λ b p l. keyed b p (sym (ap (lookup b) (checked-peers cfg now pid token w)) ∙ l))
              (λ d. e (ap (λ r. r.0) q ∙ d)) other
          ∙ same₂
    ]

-- If signatures verify under their own keys and peers are listed under their own ids, a known
-- peer that does not own a node can delete it at any peer that holds it, in an indexed
-- storage, by a token of its own that is admitted.
pub process_token_any_originator :
    (cfg : Config) (now : ℕ) (pid : Text) (token : DeletionToken) (w : World) (originator : Peer)
    → IsSignature cfg.crypto
    → PeersKeyed w
    → lookup token.originator_id w.peers ≡ some originator
    → verdict_of cfg now pid (sign cfg.crypto originator.signing_key token) w ≡ admitted
    → (h : Holds pid token.node_hash w) → h.node.owner_id ≢ token.originator_id
    → IsIndexed h.peer.storage
    → ((process_token cfg now pid (sign cfg.crypto originator.signing_key token) w).0 ≡ ok true)
      × ((s : Storage) × (storage_of pid
              (process_token cfg now pid (sign cfg.crypto originator.signing_key token) w).1
            ≡ some s)
          × (get_node token.node_hash s ≡ none))
unfolding sign
process_token_any_originator cfg now pid token w originator sound keyed known fresh h other inv =
    let forged = sign cfg.crypto originator.signing_key token in
    let signature : IsSigned cfg forged w = record {
      originator = originator;
      known = known;
      accepted = check_signature-sign cfg.crypto originator.signing_key token sound;
    } in
    let d = process_token-apply_deletion cfg now pid forged w keyed fresh signature h in
    let gone =
      apply_deletion-get_node cfg now token.originator_id h.node h.peer.storage token.node_hash
        inv in
    let own : h.node.node_hash ≡ token.node_hash =
      inv.keyed token.node_hash h.node (unfold get_node in h.held) in
    (
      d.0,
      (
        apply_deletion cfg now token.originator_id h.node h.peer.storage,
        own_entry pid _ _ _ (d.1 pid),
        gone_entry _ (get_node token.node_hash h.peer.storage) token.node_hash h.node.node_hash gone
            (sym own),
      ),
    )
  where
    own_entry : (a : Text) (q o s : Option Storage) → q ≡ (if text_eq a a then s else o) → q ≡ s
    own_entry a q o s e = ground arith

    gone_entry :
        (q g : Option CocNode) (h h' : Text)
        → q ≡ (if text_eq h h' then none else g)
        → h ≡ h'
        → q ≡ none
    gone_entry q g h h' e same = ground arith
