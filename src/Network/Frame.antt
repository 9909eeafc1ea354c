-- ===== src/Network/Frame.antt =====
-- What the steps of a deletion leave alone: sending messages and writing the audit log change no
-- storage and no peer's keys.
use trust_flow_chain_of_cust.Prelude.Result.{ok, Result, err}
use trust_flow_chain_of_cust.Deletion.Token.{DeletionToken}
use trust_flow_chain_of_cust.Storage.{Storage}
use trust_flow_chain_of_cust.Prelude.Dict.{lookup, lookup-insert}
use trust_flow_chain_of_cust.CocNode.{CocNode}
use trust_flow_chain_of_cust.Network.Engine.{issue_token, initiate_all, initiate_deletion}
use trust_flow_chain_of_cust.Network.World.{
  Config, Message, Peer, World, send_all, update_peer, Payload, log_event, route_message,
  send_message, Action, deletion_token, ◌>>=◌, Error, modify,
}
use trust_flow_chain_of_cust.Prelude.{
  All, Bool-cases, Option-cases, Text, ℕ, ◌≡◌, refl, ◌∙◌, inl, inr, Option, none, some, List, [],
  ◌∷◌, ◌++◌, arith,
}

-- The storage of a peer.
abbrev pub storage_of : Text → World → Option Storage
storage_of pid w = elim (lookup pid w.peers) [ none ↦ none | some p ↦ some p.storage ]

-- The two worlds have the same peers with the same storages.
abbrev pub SameStorages : World → World → Type 0
SameStorages v w = (pid : Text) → storage_of pid v ≡ storage_of pid w

update_peer-SameStorages :
    (pid : Text) (f : Peer → Peer) (w : World)
    → ((p : Peer) → (f p).storage ≡ p.storage)
    → SameStorages (update_peer pid f w) w
unfolding update_peer
update_peer-SameStorages pid f w keep a = elim (Option-cases (lookup pid w.peers)) [
  | inl e ↦ ground arith
  | inr (p, e) ↦ ground (arith, lookup-insert pid a (f p) w.peers, keep p)
]

-- A sequence of two actions that each keep the storages keeps them, however the first ends.
pub >>=-SameStorages :
    {A B : Type 0} (m : Action A) (f : A → Action B) (w : World)
    → SameStorages (m w).1 w
    → ((a : A) (v : World) → SameStorages (f a v).1 v)
    → SameStorages ((m >>= f) w).1 w
>>=-SameStorages m f w hm hf pid = go (m w).0 refl
  where
    go : (r : Result Error _) → (m w).0 ≡ r → storage_of pid ((m >>= f) w).1 ≡ storage_of pid w
    go (ok a) e = rw (e, ◌>>=◌) (hf a (m w).1 pid ∙ hm pid)
    go (err x) e = rw (e, ◌>>=◌) (hm pid)

route_message-SameStorages :
    (now : ℕ) (m : Message) (w : World) → SameStorages (route_message now m w) w
unfolding route_message
route_message-SameStorages now m w a = elim (Option-cases (lookup m.recipient_id w.peers)) [
  | inl e ↦ ground arith
  | inr (p, e) ↦ ground (
    arith,
    update_peer-SameStorages m.recipient_id
        (λ q. record q { offline_queue = q.offline_queue ++ (now, m) ∷ [] }) w (λ q. refl) a,
  )
]

send_message-SameStorages :
    (now : ℕ) (p : Peer) (r : Text) (payload : Payload) (w : World)
    → SameStorages (send_message now p r payload w) w
send_message-SameStorages now p r payload w a = elim (Bool-cases p.connected) [
  | inl e ↦ unfold send_message in rw e (route_message-SameStorages now _ w a)
  | inr e ↦ unfold send_message in rw e
]

pub send_all-SameStorages :
    (now : ℕ) (p : Peer) (rs : List Text) (payload : Payload) (w : World)
    → SameStorages (send_all now p rs payload w) w
unfolding send_all
send_all-SameStorages now p [] payload w a = refl
send_all-SameStorages now p (r ∷ rs) payload w a =
    send_all-SameStorages now p rs payload (send_message now p r payload w) a
    ∙ send_message-SameStorages now p r payload w a

issue_token-SameStorages :
    (cfg : Config) (now : ℕ) (n : CocNode) (p : Peer) (w : World)
    → SameStorages (issue_token cfg now n p w).1 w
unfolding issue_token log_event
issue_token-SameStorages cfg now n p w a = ground arith

-- Issuing a deletion of an own node succeeds.
issue_token-ok :
    (cfg : Config) (now : ℕ) (n : CocNode) (p : Peer) (w : World)
    → n.owner_id ≡ p.peer_id
    → (token : DeletionToken) × (w' : World) × (issue_token cfg now n p w ≡ (ok token, w'))
unfolding issue_token
issue_token-ok cfg now n p w e = go (issue_token cfg now n p w) refl
  where
    go :
        (r : Result Error DeletionToken × World)
        → issue_token cfg now n p w ≡ r
        → (token : DeletionToken) × (w' : World) × (issue_token cfg now n p w ≡ (ok token, w'))
    go (ok token, v) q = (token, v, q)
    go (err x, v) q = absurd (ground arith)

initiate_deletion-SameStorages :
    (cfg : Config) (now : ℕ) (n : CocNode) (p : Peer) (w : World)
    → SameStorages (initiate_deletion cfg now n p w).1 w
unfolding initiate_deletion
initiate_deletion-SameStorages cfg now n p w =
    >>=-SameStorages (issue_token cfg now n p)
      (λ token. modify (send_all now p n.recipient_ids (deletion_token token))) w
      (issue_token-SameStorages cfg now n p w)
      (λ token v. send_all-SameStorages now p n.recipient_ids (deletion_token token) v)

pub initiate_all-SameStorages :
    (cfg : Config) (now : ℕ) (ns : List CocNode) (p : Peer) (w : World)
    → SameStorages (initiate_all cfg now ns p w).1 w
unfolding initiate_all
initiate_all-SameStorages cfg now [] p w a = refl
initiate_all-SameStorages cfg now (n ∷ ns) p w a =
    >>=-SameStorages (initiate_deletion cfg now n p) (λ _. initiate_all cfg now ns p) w
      (initiate_deletion-SameStorages cfg now n p w)
      (λ _ v. initiate_all-SameStorages cfg now ns p v) a

-- The deletions of own nodes are all issued.
pub initiate_all-ok :
    (cfg : Config) (now : ℕ) (ns : List CocNode) (p : Peer) (w : World)
    → All (λ n. n.owner_id ≡ p.peer_id) ns
    → (initiate_all cfg now ns p w).0 ≡ ok tt
unfolding initiate_all initiate_deletion
initiate_all-ok cfg now [] p w own = refl
initiate_all-ok cfg now (n ∷ ns) p w own =
    let (token, v, e) = issue_token-ok cfg now n p w own.0 in
    rw (e, ◌>>=◌) (initiate_all-ok cfg now ns p _ own.1)
