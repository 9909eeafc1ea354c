-- ===== src/Network/Peers.antt =====
-- The methods of `Peer` and `Network`: creating and forwarding nodes, messages, going off and on
-- line. A peer is named by its id.
use trust_flow_chain_of_cust.Network.Engine.{process_token}
use trust_flow_chain_of_cust.CocNode.Codec.{from_dict}
use trust_flow_chain_of_cust.Clock.{seconds}
use trust_flow_chain_of_cust.Crypto.{hash_content}
use trust_flow_chain_of_cust.Prelude.Dict.{insert}
use trust_flow_chain_of_cust.Storage.{Storage, add_content, add_node, get_node}
use trust_flow_chain_of_cust.CocNode.{CocNode, init, node_schema_version, add_child}
use mathlib.Core.Option
use trust_flow_chain_of_cust.Network.World.{
  ◌>>=◌, ◌>>◌, pure, modify, coc_data, deletion_token, unhandled, dict_error, Config, Message, Peer,
  World, get_peer, Action, Payload, update_peer,
}
use trust_flow_chain_of_cust.Prelude.Result.{ok, err}
use trust_flow_chain_of_cust.Prelude.{
  leb, if◌then◌else◌, Text, is_empty, ℕ, zero, suc, ◌+◌, ◌*◌, true, false, Option, none, some, List,
  [], ◌∷◌,
}

-- A change of a peer's storage.
unfoldable pub update_storage : Text → (Storage → Storage) → World → World
update_storage pid f w = update_peer pid (λ p. record p { storage = f p.storage }) w

-- The rest of `create_coc_root` for the peer that was found.
unfoldable pub create_node : Config → ℕ → Text → List Text → Peer → Action CocNode
create_node cfg now content recipient_ids p = do
  let content_hash = hash_content cfg.crypto content
  let node =
      init cfg.crypto (cfg.format.isoformat now) content_hash p.peer_id (some p.signing_key)
        recipient_ids none 0 node_schema_version
  modify (update_storage p.peer_id (λ s. add_content content_hash content (add_node node s)))
  pure node

-- `Peer.create_coc_root`
unfoldable pub create_coc_root : Config → ℕ → Text → Text → List Text → Action CocNode
create_coc_root cfg now pid content recipient_ids =
    get_peer pid >>= create_node cfg now content recipient_ids

-- The rest of `forward_coc_message`: the child and the parent that has it both go into the storage.
unfoldable pub forward_node : Config → ℕ → CocNode → List Text → Peer → Action CocNode
forward_node cfg now parent recipient_ids p = do
  let child =
      init cfg.crypto (cfg.format.isoformat now) parent.content_hash p.peer_id (some p.signing_key)
        recipient_ids (some parent.node_hash) 0 node_schema_version
  let both = add_child parent child
  modify (update_storage p.peer_id (λ s. add_node both.0 (add_node both.1 s)))
  pure both.1

-- `Peer.forward_coc_message`
unfoldable pub forward_coc_message : Config → ℕ → Text → CocNode → List Text → Action CocNode
forward_coc_message cfg now pid parent recipient_ids =
    get_peer pid >>= forward_node cfg now parent recipient_ids

-- A received node goes into the storage with its content, and under its parent if that is there.
unfoldable pub store_received : CocNode → Text → Storage → Storage
store_received node content s =
    let s' = add_content node.content_hash content (add_node node s) in
    elim node.parent_hash [
      | none ↦ s'
      | some parent_hash ↦ if is_empty parent_hash then s' else elim (get_node parent_hash s') [
        | none ↦ s'
        | some parent ↦
            -- the child is one object with the node in the storage, so its depth changes there
            let both = add_child parent node in
            add_node both.0 (record s' { nodes = insert node.node_hash both.1 s'.nodes })
      ]
    ]

-- `Peer.receive_message`
unfoldable pub receive_message : Config → ℕ → Text → Payload → Action (Unit {0})
receive_message cfg now pid (coc_data node_data content) w = elim (from_dict cfg.crypto node_data) [
  | err e ↦ (err (dict_error e), w)
  | ok node ↦ (ok tt, update_storage pid (store_received node content) w)
]
receive_message cfg now pid (deletion_token token) w =
    (process_token cfg now pid token >>= λ _. pure tt) w
receive_message cfg now pid (unhandled _) w = (ok tt, w)

-- `Peer.go_offline`
unfoldable pub go_offline : Text → World → World
go_offline pid w = update_peer pid (λ p. record p { online = false }) w

-- The messages of the queue that are not too old, in order; an exception ends the loop.
unfoldable pub process_queue : Config → ℕ → Text → ℕ → List (ℕ × Message) → Action ℕ
process_queue cfg now pid ttl [] = pure 0
process_queue cfg now pid ttl ((time, m) ∷ ms) =
    let rest = process_queue cfg now pid ttl ms in
    if leb now (time + seconds (3600 * ttl))
    then (do receive_message cfg now pid m.payload; n ← rest; pure (n + 1))
    else rest

-- `Peer.go_online`: the queue is emptied only if no message raised. The number of messages that
-- were processed goes to the notification handler.
unfoldable pub go_online : Config → ℕ → Text → Action ℕ
unfolding get_peer
go_online cfg now pid = do
  modify (update_peer pid (λ p. record p { online = true }))
  p ← get_peer pid
  n ← process_queue cfg now pid p.message_ttl_hours p.offline_queue
  modify (update_peer pid (λ q. record q { offline_queue = [] }))
  pure n

-- `Network.add_peer`, where `register_peer` enters the peer under its id.
unfoldable pub add_peer : Peer → World → World
add_peer p w = record w { peers = insert p.peer_id (record p { connected = true }) w.peers }

-- Takes the i-th message out of those in flight.
unfoldable pub take_out : ℕ → List Message → Option (Message × List Message)
take_out i [] = none
take_out zero (m ∷ ms) = some (m, ms)
take_out (suc i) (m ∷ ms) = Option.map (λ r. (r.0, m ∷ r.1)) (take_out i ms)

-- `Network.deliver_message`: the delays are random, so any message in flight may come next. What
-- the handler raises ends its own task only.
unfoldable pub deliver : Config → ℕ → ℕ → World → World
deliver cfg now i w = elim (take_out i w.in_flight) [
  | none ↦ w
  | some (m, rest) ↦
      (receive_message cfg now m.recipient_id m.payload (record w { in_flight = rest })).1
]
