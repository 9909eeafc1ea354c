-- ===== src/Network/World.antt =====
-- The state of the simulation, and the monad of its methods. A message that is being delivered is
-- in flight; each delivery is a step of its own, since `route_message` starts a task for it.
use trust_flow_chain_of_cust.Prelude.Result.{Result, err, ok}
use trust_flow_chain_of_cust.Prelude.{if◌then◌else◌, Text, ℕ, Bool, none, some, List, [], ◌∷◌, ◌++◌}
use trust_flow_chain_of_cust.Prelude.Dict.{Dict, lookup, insert}
use trust_flow_chain_of_cust.Crypto.{Crypto}
use trust_flow_chain_of_cust.Clock.{TimeFormat}
use trust_flow_chain_of_cust.CocNode.Codec.{NodeDict, DictError}
use trust_flow_chain_of_cust.Deletion.Token.{DeletionToken}
use trust_flow_chain_of_cust.Deletion.Cache.{TokenCache}
use trust_flow_chain_of_cust.Storage.{Storage}
use trust_flow_chain_of_cust.Strings.Hex.{Bytes}

-- The content of a message with its `message_type`; `receive_message` ignores all but two types.
pub data Payload : Type 0 where
  coc_data : NodeDict → Text → Payload
  deletion_token : DeletionToken → Payload
  unhandled : Text → Payload

pub record Message : Type 0 where
  pub sender_id : Text
  pub recipient_id : Text
  pub payload : Payload

-- A peer with the default handlers; `connected` is whether `network` has been set.
pub record Peer : Type 0 where
  pub peer_id : Text
  pub signing_key : Bytes
  pub online : Bool
  pub storage : Storage
  pub offline_queue : List (ℕ × Message)
  pub message_ttl_hours : ℕ
  pub connected : Bool

-- An entry of the audit log: event type, actor, target, details.
pub record AuditEntry : Type 0 where
  pub event_type : Text
  pub actor : Text
  pub target : Text
  pub details : Text

pub record World : Type 0 where
  pub peers : Dict Peer
  pub in_flight : List Message
  pub processed_tokens : Dict TokenCache
  pub audit : List AuditEntry
  pub next_nonce : ℕ

-- What does not change: the libraries, `secrets.token_hex(16)` of the n-th call, and the engine's
-- two settings.
pub record Config : Type 0 where
  pub crypto : Crypto
  pub format : TimeFormat
  pub token_hex : ℕ → Text
  pub token_validity_seconds : ℕ
  pub tombstone_grace_seconds : ℕ

-- The exceptions; `no_peer` is for a peer object that is not in the table of peers.
pub data Error : Type 0 where
  replay_attack token_expired value_error permission_error no_peer : Error
  dict_error : DictError → Error

-- The state comes back after an exception too.
abbrev pub Action : Type 0 → Type 0
Action A = World → Result Error A × World

abbrev pub pure : {A : Type 0} → A → Action A
pure a w = (ok a, w)

abbrev pub raise : {A : Type 0} → Error → Action A
raise e w = (err e, w)

infixl 5 ◌>>=◌ ◌>>◌
abbrev pub ◌>>=◌ : {A B : Type 0} → Action A → (A → Action B) → Action B
◌>>=◌ m f w = let (r, w') = m w in elim r [ ok a ↦ f a w' | err e ↦ raise e w' ]

abbrev pub ◌>>◌ : {A B : Type 0} → Action A → Action B → Action B
m >> k = m >>= λ _. k

abbrev pub modify : (World → World) → Action (Unit {0})
modify f w = (ok tt, f w)

abbrev pub gets : {A : Type 0} → (World → A) → Action A
gets f w = (ok (f w), w)

-- The peer object with an id.
unfoldable pub get_peer : Text → Action Peer
get_peer pid w = elim (lookup pid w.peers) [ none ↦ (err no_peer, w) | some p ↦ (ok p, w) ]

-- A change of a peer object.
unfoldable pub update_peer : Text → (Peer → Peer) → World → World
update_peer pid f w = elim (lookup pid w.peers) [
  | none ↦ w
  | some p ↦ record w { peers = insert pid (f p) w.peers }
]

-- `audit_log.log_event(event_type, actor, target, details)`
unfoldable pub log_event : Text → Text → Text → Text → World → World
log_event event_type actor target details w = record w {
  audit =
      w.audit
      ++ record { event_type = event_type; actor = actor; target = target; details = details } ∷ [];
}

-- `Network.route_message`: a message to an unknown peer is dropped, one to a peer that is offline
-- waits in its queue.
unfoldable pub route_message : ℕ → Message → World → World
unfolding update_peer
route_message now m w = elim (lookup m.recipient_id w.peers) [
  | none ↦ w
  | some p ↦
      if p.online
      then record w { in_flight = w.in_flight ++ m ∷ [] }
      else update_peer m.recipient_id
          (λ q. record q { offline_queue = q.offline_queue ++ (now, m) ∷ [] }) w
]

-- `Peer.send_message`
unfoldable pub send_message : ℕ → Peer → Text → Payload → World → World
unfolding route_message
send_message now p recipient_id payload w =
    if p.connected
    then route_message now
        (record { sender_id = p.peer_id; recipient_id = recipient_id; payload = payload }) w
    else w

-- The same message to each recipient.
unfoldable pub send_all : ℕ → Peer → List Text → Payload → World → World
unfolding send_message
send_all now p [] payload w = w
send_all now p (r ∷ rs) payload w = send_all now p rs payload (send_message now p r payload w)
