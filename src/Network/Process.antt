-- ===== src/Network/Process.antt =====
-- `process_token`: when it deletes, what it then does, and that it does nothing else.
use mathlib.Core.Path.{subst}
use trust_flow_chain_of_cust.Network.Frame.{
  storage_of, initiate_all-ok, initiate_all-SameStorages, SameStorages,
}
use trust_flow_chain_of_cust.Storage.{get_node, Storage}
use trust_flow_chain_of_cust.CocNode.{CocNode}
use trust_flow_chain_of_cust.Deletion.Replay.{Verdict, admit, admitted}
use trust_flow_chain_of_cust.Prelude.Dict.{lookup, lookup-insert}
use trust_flow_chain_of_cust.Prelude.Result.{ok, err}
use trust_flow_chain_of_cust.Deletion.Token.{DeletionToken, check_signature, get_hash}
use trust_flow_chain_of_cust.Network.World.{
  Config, World, Peer, log_event, update_peer, no_peer, ◌>>=◌, get_peer,
}
use trust_flow_chain_of_cust.Network.Engine.{
  runs_out, admit_token, verify_token, runs_out, get_token_cache, delete_node, own_children,
  apply_deletion, delete_found, node_text, initiate_all,
}
use trust_flow_chain_of_cust.Prelude.{
  Option-cases, Text, ℕ, ◌≡◌, ◌↔◌, inl, inr, true, some, arith, List, none, All, false,
  if◌then◌else◌, text_eq, ◌∷◌, Text-discrete, [], codes, ap, sym, ◌∙◌, ◌≢◌, refl,
}

-- How the cache of the receiving peer and the clock judge a token.
unfoldable pub verdict_of : Config → ℕ → Text → DeletionToken → World → Verdict
verdict_of cfg now pid token w =
    (admit now (get_hash cfg.crypto token) (runs_out cfg token) (get_token_cache cfg now pid w)).0

-- The token carries a valid signature of a known originator.
pub record IsSigned (cfg : Config) (token : DeletionToken) (w : World) : Type 0 where
  pub originator : Peer
  pub known : lookup token.originator_id w.peers ≡ some originator
  pub accepted :
      check_signature cfg.crypto (cfg.crypto.public_key originator.signing_key) token ≡ some true

-- The receiving peer holds the node that the token names.
pub record Holds (pid : Text) (h : Text) (w : World) : Type 0 where
  pub peer : Peer
  pub node : CocNode
  pub present : lookup pid w.peers ≡ some peer
  pub held : get_node h peer.storage ≡ some node

pub admit_token-peers :
    (cfg : Config) (now : ℕ) (pid : Text) (token : DeletionToken) (w : World)
    → (admit_token cfg now pid token w).1.peers ≡ w.peers
unfolding admit_token log_event
admit_token-peers cfg now pid token w = ground arith

pub admit_token-verdict :
    (cfg : Config) (now : ℕ) (pid : Text) (token : DeletionToken) (w : World)
    → ((admit_token cfg now pid token w).0 ≡ ok tt) ↔ (verdict_of cfg now pid token w ≡ admitted)
unfolding admit_token verdict_of
admit_token-verdict cfg now pid token w = ground arith

pub verify_token-peers :
    (cfg : Config) (pid : Text) (token : DeletionToken) (w : World)
    → (verify_token cfg pid token w).1.peers ≡ w.peers
unfolding verify_token log_event
verify_token-peers cfg pid token w = ground arith

pub verify_token-IsSigned :
    (cfg : Config) (pid : Text) (token : DeletionToken) (w : World)
    → (verify_token cfg pid token w).0 ≡ ok true
    → IsSigned cfg token w
unfolding verify_token
verify_token-IsSigned cfg pid token w e = elim (Option-cases (lookup token.originator_id w.peers)) [
  | inl missing ↦ absurd (ground arith)
  | inr (o, known) ↦ record { originator = o; known = known; accepted = ground arith }
]

pub verify_token-ok :
    (cfg : Config) (pid : Text) (token : DeletionToken) (w : World)
    → IsSigned cfg token w
    → verify_token cfg pid token w ≡ (ok true, w)
unfolding verify_token
verify_token-ok cfg pid token w s = ground (arith, s.known, s.accepted)

-- The state after a token has been admitted or refused; the peers are as before.
abbrev after_admission : Config → ℕ → Text → DeletionToken → World → World
after_admission cfg now pid token w = (admit_token cfg now pid token w).1

pub IsSigned-peers :
    (cfg : Config) (token : DeletionToken) (v w : World)
    → v.peers ≡ w.peers
    → IsSigned cfg token w
    → IsSigned cfg token v
IsSigned-peers cfg token v w e s = record {
  originator = s.originator;
  known = ground (arith, s.known);
  accepted = s.accepted;
}

own_children-owned :
    (pid : Text) (s : Storage) (hs : List Text)
    → All (λ n. n.owner_id ≡ pid) (own_children pid s hs)
unfolding own_children
own_children-owned pid s [] = tt
own_children-owned pid s (h ∷ hs) = elim (Option-cases (get_node h s)) [
  | inl e ↦ rw (e, own_children) (own_children-owned pid s hs)
  | inr (n, e) ↦ elim (Text-discrete n.owner_id pid) [
    | yes own ↦ rw (e, own_children) (ground (arith, own_children-owned pid s hs))
    | no other ↦ rw (e, own_children) (ground (arith, own_children-owned pid s hs))
  ]
]

-- Each peer is listed under its own id.
abbrev pub PeersKeyed : World → Type 0
PeersKeyed w = (pid : Text) (p : Peer) → lookup pid w.peers ≡ some p → p.peer_id ≡ pid

-- What a successful deletion leaves of the storages.
abbrev pub Deleted : Config → ℕ → Text → DeletionToken → CocNode → Storage → World → World → Type 0
Deleted cfg now pid token node s w w' =
    (other : Text)
    → storage_of other w' ≡ (
        if text_eq other pid
        then some (apply_deletion cfg now token.originator_id node s)
        else storage_of other w)

storage_of-update_peer :
    (pid other : Text) (f : Storage → Storage) (p : Peer) (w : World)
    → lookup pid w.peers ≡ some p
    → storage_of other (update_peer pid (λ q. record q { storage = f q.storage }) w)
      ≡ (if text_eq other pid then some (f p.storage) else storage_of other w)
unfolding update_peer
storage_of-update_peer pid other f p w e =
    ground (arith, lookup-insert pid other (record p { storage = f p.storage }) w.peers)

delete_found_effect :
    (cfg : Config) (now : ℕ) (pid : Text) (token : DeletionToken) (p : Peer) (node : CocNode)
    (w : World)
    → lookup pid w.peers ≡ some p
    → p.peer_id ≡ pid
    → ((delete_found cfg now pid token p node w).0 ≡ ok true)
      × Deleted cfg now pid token node p.storage w (delete_found cfg now pid token p node w).1
delete_found_effect cfg now pid token p node w e own =
    let children = own_children pid p.storage node.children_hashes in
    let v : World = log_event (codes "DELETE_SUCCESS") pid (node_text node.node_hash) [] (
      update_peer pid
        (λ q. record q { storage = apply_deletion cfg now token.originator_id node q.storage })
        w) in
    let issued : (initiate_all cfg now children p v).0 ≡ ok tt =
      initiate_all-ok cfg now children p v (
        subst (λ i. All (λ n. n.owner_id ≡ i) children) (sym own)
          (own_children-owned pid p.storage node.children_hashes)) in
    unfold delete_found in
    rw (issued, ◌>>=◌)
      (
        refl,
        λ other.
            initiate_all-SameStorages cfg now children p v other
            ∙ (unfold log_event in
                storage_of-update_peer pid other (apply_deletion cfg now token.originator_id node) p
                  w e),
      )

pub get_peer-state : (pid : Text) (w : World) → (get_peer pid w).1 ≡ w
unfolding get_peer
get_peer-state pid w = ground arith

pub delete_node-found :
    (cfg : Config) (now : ℕ) (pid : Text) (token : DeletionToken) (w : World)
    → (h : Holds pid token.node_hash w)
    → delete_node cfg now pid token w ≡ delete_found cfg now pid token h.peer h.node w
unfolding delete_node
delete_node-found cfg now pid token w h =
    rw (h.present, ◌>>=◌)
      (rw (h.held) (ap (delete_found cfg now pid token h.peer h.node) (get_peer-state pid w)))

-- The peer holds the node: it is deleted, and no other storage changes.
pub delete_node_effect :
    (cfg : Config) (now : ℕ) (pid : Text) (token : DeletionToken) (w : World)
    → PeersKeyed w
    → (h : Holds pid token.node_hash w)
    → ((delete_node cfg now pid token w).0 ≡ ok true)
      × Deleted cfg now pid token h.node h.peer.storage w (delete_node cfg now pid token w).1
delete_node_effect cfg now pid token w keyed h =
    rw (delete_node-found cfg now pid token w h)
      (delete_found_effect cfg now pid token h.peer h.node w h.present (keyed pid h.peer h.present))

-- The peer does not hold the node: nothing changes.
pub delete_node-missing :
    (cfg : Config) (now : ℕ) (pid : Text) (token : DeletionToken) (w : World) (p : Peer)
    → lookup pid w.peers ≡ some p
    → get_node token.node_hash p.storage ≡ none
    → delete_node cfg now pid token w ≡ (ok false, w)
unfolding delete_node
delete_node-missing cfg now pid token w p e none_there = ground arith

pub delete_node-no_peer :
    (cfg : Config) (now : ℕ) (pid : Text) (token : DeletionToken) (w : World)
    → lookup pid w.peers ≡ none
    → delete_node cfg now pid token w ≡ (err no_peer, w)
unfolding delete_node
delete_node-no_peer cfg now pid token w e = ground arith

pub Holds-peers : (pid h : Text) (v w : World) → v.peers ≡ w.peers → Holds pid h v → Holds pid h w
Holds-peers pid h v w e held = record {
  peer = held.peer;
  node = held.node;
  present = ground (arith, held.present);
  held = held.held;
}

-- A deletion is reported only of a node that was there.
pub delete_node-Holds :
    (cfg : Config) (now : ℕ) (pid : Text) (token : DeletionToken) (w : World)
    → (delete_node cfg now pid token w).0 ≡ ok true
    → Holds pid token.node_hash w
delete_node-Holds cfg now pid token w e = elim (Option-cases (lookup pid w.peers)) [
  | inl away ↦ absurd (ground (arith, delete_node-no_peer cfg now pid token w away))
  | inr (p, present) ↦ elim (Option-cases (get_node token.node_hash p.storage)) [
    | inl missing ↦
        absurd (ground (arith, delete_node-missing cfg now pid token w p present missing))
    | inr (n, held) ↦ record { peer = p; node = n; present = present; held = held }
  ]
]

-- A deletion that is not reported changed no storage.
pub delete_node_refused :
    (cfg : Config) (now : ℕ) (pid : Text) (token : DeletionToken) (w : World)
    → PeersKeyed w
    → (delete_node cfg now pid token w).0 ≢ ok true
    → SameStorages (delete_node cfg now pid token w).1 w
delete_node_refused cfg now pid token w keyed e other = elim (Option-cases (lookup pid w.peers)) [
  | inl away ↦ rw (delete_node-no_peer cfg now pid token w away)
  | inr (p, present) ↦ elim (Option-cases (get_node token.node_hash p.storage)) [
    | inl missing ↦ rw (delete_node-missing cfg now pid token w p present missing)
    | inr (n, held) ↦ absurd (
        e
          (delete_node_effect cfg now pid token w keyed
            (record { peer = p; node = n; present = present; held = held })).0)
  ]
]
