-- ===== src/Network/Steps.antt =====
-- The simulation as a step relation: its users and the network act in any order, each message in
-- flight is delivered at any time, and every state that can be reached is sound.
use trust_flow_chain_of_cust.Network.Received.{add_content-IsIndexed, store_received-IsIndexed}
use trust_flow_chain_of_cust.Storage.{add_content, add_node}
use trust_flow_chain_of_cust.Crypto.{hash_content}
use trust_flow_chain_of_cust.Network.Engine.{initiate_deletion, process_token, clear_token_cache}
use trust_flow_chain_of_cust.CocNode.{CocNode, add_child, init, node_schema_version}
use trust_flow_chain_of_cust.CocNode.Codec.{DictError, from_dict}
use trust_flow_chain_of_cust.Storage.Index.{IsIndexed, add_node-IsIndexed}
use trust_flow_chain_of_cust.Clock.{seconds}
use trust_flow_chain_of_cust.Network.Peers.{
  go_online, process_queue, receive_message, add_peer, create_coc_root, go_offline,
  forward_coc_message, store_received, deliver, take_out, create_node, forward_node,
}
use trust_flow_chain_of_cust.Network.Reach.{
  Keeps, IsSound, send_all-IsSound, >>=-Keeps, initiate_deletion-Keeps, update_peer-IsSound,
  update_storage-IsSound, get_peer-Keeps, process_token-Keeps, insert_peer-IsSound, IsSound-peers,
}
use trust_flow_chain_of_cust.Network.World.{
  ◌>>=◌, ◌>>◌, pure, modify, coc_data, deletion_token, unhandled, Config, Message, Payload, World,
  Peer, Action, update_peer, get_peer, send_all,
}
use trust_flow_chain_of_cust.Prelude.Result.{Result, ok, err}
use trust_flow_chain_of_cust.Prelude.{
  leb, Text, ℕ, ◌+◌, ◌*◌, ◌≡◌, refl, Bool, true, false, Option, none, some, List, [], ◌∷◌, arith,
}

receive_message-Keeps :
    (cfg : Config) (now : ℕ) (pid : Text) (payload : Payload)
    → Keeps (receive_message cfg now pid payload)
receive_message-Keeps cfg now pid (coc_data d content) w s = received (from_dict cfg.crypto d) refl
  where
    received :
        (r : Result DictError CocNode)
        → from_dict cfg.crypto d ≡ r
        → IsSound (receive_message cfg now pid (coc_data d content) w).1
    received (err e) q = unfold receive_message in rw (q, receive_message) s
    received (ok node) q =
        unfold receive_message in
        rw (q, receive_message)
          (update_storage-IsSound pid (store_received node content) w
            (λ t inv. store_received-IsIndexed node content t inv) s)
receive_message-Keeps cfg now pid (deletion_token token) w s =
    unfold receive_message in
    >>=-Keeps (process_token cfg now pid token) (λ _. pure tt)
      (process_token-Keeps cfg now pid token) (λ _ v t. t) w s
receive_message-Keeps cfg now pid (unhandled _) w s = unfold receive_message in s

process_queue-Keeps :
    (cfg : Config) (now : ℕ) (pid : Text) (ttl : ℕ) (ms : List (ℕ × Message))
    → Keeps (process_queue cfg now pid ttl ms)
process_queue-Keeps cfg now pid ttl [] w s = unfold process_queue in s
process_queue-Keeps cfg now pid ttl ((time, m) ∷ ms) w s =
    pick (leb now (time + seconds (3600 * ttl))) refl (process_queue-Keeps cfg now pid ttl ms)
  where
    pick :
        (b : Bool)
        → leb now (time + seconds (3600 * ttl)) ≡ b
        → Keeps (process_queue cfg now pid ttl ms)
        → IsSound (process_queue cfg now pid ttl ((time, m) ∷ ms) w).1
    pick true e keep =
        unfold process_queue in
        rw e (
          >>=-Keeps (receive_message cfg now pid m.payload)
            (λ _. process_queue cfg now pid ttl ms >>= λ n. pure (n + 1))
            (receive_message-Keeps cfg now pid m.payload)
            (λ _.
              >>=-Keeps (process_queue cfg now pid ttl ms) (λ n. pure (n + 1)) keep (λ _ v t. t))
            w s)
    pick false e keep = unfold process_queue in rw e (keep w s)

go_online-Keeps : (cfg : Config) (now : ℕ) (pid : Text) → Keeps (go_online cfg now pid)
go_online-Keeps cfg now pid w s =
    let v = update_peer pid (λ p. record p { online = true }) w in
    let t : IsSound v =
      update_peer-IsSound pid (λ p. record p { online = true }) w (λ p. refl) (λ p inv. inv) s in
    unfold go_online in
    >>=-Keeps (get_peer pid) (λ p. process_rest p) (get_peer-Keeps pid)
      (λ p.
        >>=-Keeps (process_queue cfg now pid p.message_ttl_hours p.offline_queue) finish
          (process_queue-Keeps cfg now pid p.message_ttl_hours p.offline_queue)
          (λ n u su.
            update_peer-IsSound pid (λ q. record q { offline_queue = [] }) u (λ q. refl)
              (λ q inv. inv) su))
      v t
  where
    finish : ℕ → Action ℕ
    finish n = modify (update_peer pid (λ q. record q { offline_queue = [] })) >> pure n

    process_rest : Peer → Action ℕ
    process_rest p = process_queue cfg now pid p.message_ttl_hours p.offline_queue >>= finish

create_node-Keeps :
    (cfg : Config) (now : ℕ) (content : Text) (rs : List Text) (p : Peer)
    → Keeps (create_node cfg now content rs p)
unfolding create_node
create_node-Keeps cfg now content rs p w s =
    update_storage-IsSound p.peer_id (λ t. add_content h content (add_node node t)) w
      (λ t inv. add_content-IsIndexed h content (add_node node t) (add_node-IsIndexed node t inv)) s
  where
    h : Text
    h = hash_content cfg.crypto content

    node : CocNode
    node =
        init cfg.crypto (cfg.format.isoformat now) h p.peer_id (some p.signing_key) rs none 0
          node_schema_version

create-Keeps :
    (cfg : Config) (now : ℕ) (pid content : Text) (rs : List Text)
    → Keeps (create_coc_root cfg now pid content rs)
unfolding create_coc_root
create-Keeps cfg now pid content rs =
    >>=-Keeps (get_peer pid) (create_node cfg now content rs) (get_peer-Keeps pid)
      (create_node-Keeps cfg now content rs)

forward_node-Keeps :
    (cfg : Config) (now : ℕ) (parent : CocNode) (rs : List Text) (p : Peer)
    → Keeps (forward_node cfg now parent rs p)
unfolding forward_node
forward_node-Keeps cfg now parent rs p w s =
    update_storage-IsSound p.peer_id (λ t. add_node both.0 (add_node both.1 t)) w
      (λ t inv. add_node-IsIndexed both.0 (add_node both.1 t) (add_node-IsIndexed both.1 t inv)) s
  where
    both : CocNode × CocNode
    both = add_child parent (
        init cfg.crypto (cfg.format.isoformat now) parent.content_hash p.peer_id
          (some p.signing_key) rs (some parent.node_hash) 0 node_schema_version)

forward-Keeps :
    (cfg : Config) (now : ℕ) (pid : Text) (n : CocNode) (rs : List Text)
    → Keeps (forward_coc_message cfg now pid n rs)
unfolding forward_coc_message
forward-Keeps cfg now pid n rs =
    >>=-Keeps (get_peer pid) (forward_node cfg now n rs) (get_peer-Keeps pid)
      (forward_node-Keeps cfg now n rs)

deliver-IsSound : (cfg : Config) (now i : ℕ) (w : World) → IsSound w → IsSound (deliver cfg now i w)
deliver-IsSound cfg now i w s = taken (take_out i w.in_flight) refl
  where
    taken :
        (o : Option (Message × List Message))
        → take_out i w.in_flight ≡ o
        → IsSound (deliver cfg now i w)
    taken none e = unfold deliver in rw (e, deliver) s
    taken (some (m, rest)) e =
        unfold deliver in
        rw (e, deliver)
          (receive_message-Keeps cfg now m.recipient_id m.payload (record w { in_flight = rest })
            (IsSound-peers _ w refl s))

clear_token_cache-peers :
    (pid : Option Text) (w : World) → (clear_token_cache pid w).peers ≡ w.peers
unfolding clear_token_cache
clear_token_cache-peers none w = refl
clear_token_cache-peers (some pid) w = ground arith

-- What a user of the simulation or the network does next, each at some time.
pub data Step (cfg : Config) (v : World) : World → Type 0 where
  join : (p : Peer) → IsIndexed p.storage → Step cfg v (add_peer p v)
  create :
      (now : ℕ) (pid content : Text) (rs : List Text)
      → Step cfg v (create_coc_root cfg now pid content rs v).1
  forward :
      (now : ℕ) (pid : Text) (n : CocNode) (rs : List Text)
      → Step cfg v (forward_coc_message cfg now pid n rs v).1
  send :
      (now : ℕ) (p : Peer) (r : Text) (payload : Payload)
      → Step cfg v (send_all now p (r ∷ []) payload v)
  delete : (now : ℕ) (n : CocNode) (p : Peer) → Step cfg v (initiate_deletion cfg now n p v).1
  leave : (pid : Text) → Step cfg v (go_offline pid v)
  return : (now : ℕ) (pid : Text) → Step cfg v (go_online cfg now pid v).1
  arrive : (now i : ℕ) → Step cfg v (deliver cfg now i v)
  forget : (pid : Option Text) → Step cfg v (clear_token_cache pid v)

-- Every step keeps soundness.
Step-IsSound : {cfg : Config} {v w : World} → Step cfg v w → IsSound v → IsSound w
Step-IsSound {cfg} {v} (join p inv) s =
    unfold add_peer in insert_peer-IsSound p.peer_id (record p { connected = true }) v inv refl s
Step-IsSound {cfg} {v} (create now pid content rs) s = create-Keeps cfg now pid content rs v s
Step-IsSound {cfg} {v} (forward now pid n rs) s = forward-Keeps cfg now pid n rs v s
Step-IsSound {cfg} {v} (send now p r payload) s = send_all-IsSound now p (r ∷ []) payload v s
Step-IsSound {cfg} {v} (delete now n p) s = initiate_deletion-Keeps cfg now n p v s
Step-IsSound {cfg} {v} (leave pid) s =
    unfold go_offline in
    update_peer-IsSound pid (λ p. record p { online = false }) v (λ p. refl) (λ p inv. inv) s
Step-IsSound {cfg} {v} (return now pid) s = go_online-Keeps cfg now pid v s
Step-IsSound {cfg} {v} (arrive now i) s = deliver-IsSound cfg now i v s
Step-IsSound {cfg} {v} (forget pid) s =
    IsSound-peers (clear_token_cache pid v) v (clear_token_cache-peers pid v) s

-- The states that a row of steps leads to.
pub data Reach (cfg : Config) (v : World) : World → Type 0 where
  here : Reach cfg v v
  next : {w u : World} → Reach cfg v w → Step cfg w u → Reach cfg v u

-- From a sound state only sound states can be reached by the steps of the simulation: in each,
-- every storage has an exact index and every peer is listed under its own id.
pub Reach-IsSound : {cfg : Config} {v w : World} → IsSound v → Reach cfg v w → IsSound w
Reach-IsSound s here = s
Reach-IsSound s (next r st) = Step-IsSound st (Reach-IsSound s r)
