-- ===== src/Gossip/Node.antt =====
-- `PeerInfo` and `GossipPeer`. Sockets and tasks are not modelled: what is sent and what is handed to
-- the handlers is recorded in order, and a random sample is an argument.
use trust_flow_chain_of_cust.Clock.{seconds}
use trust_flow_chain_of_cust.Gossip.Envelope.{
  Wire, Envelope, default_ttl, decrement_ttl, add_to_path, sign, verify, validate_timestamp,
}
use trust_flow_chain_of_cust.Gossip.Cache.{MessageCache, has_seen, mark_seen}
use trust_flow_chain_of_cust.Prelude.Dict.{Dict, lookup, insert, erase, contains}
use trust_flow_chain_of_cust.Strings.Hex.{Bytes}
use trust_flow_chain_of_cust.Prelude.{
  length, take, retain, elem, ltb, leb, if◌then◌else◌, Text, codes, text_eq, ℕ, ◌+◌, Bool, false,
  not, ◌&&◌, Option, none, some, List, [], ◌∷◌, ◌++◌, map,
}

pub data PeerStatus : Type 0 where
  online offline unknown : PeerStatus

pub record PeerInfo : Type 0 where
  pub peer_id : Text
  pub address : Text
  pub last_seen : ℕ
  pub status : PeerStatus
  pub capabilities : List Text

-- `SocketConfig.HEARTBEAT_TIMEOUT`
abbrev pub heartbeat_timeout : ℕ
heartbeat_timeout = seconds 15

unfoldable pub update_last_seen : ℕ → PeerInfo → PeerInfo
update_last_seen now i = record i { last_seen = now }

unfoldable pub is_stale : ℕ → PeerInfo → Bool
is_stale now i = ltb (i.last_seen + heartbeat_timeout) now

pub record GossipPeer (P : Type 0) : Type 0 where
  pub peer_id : Text
  pub address : Text
  pub fanout : ℕ
  pub max_peers : ℕ
  pub signing_key : Bytes
  pub peers : Dict PeerInfo
  pub peer_keys : Dict Bytes
  pub seen_messages : MessageCache
  -- the payloads that were dispatched, and the envelopes that were sent, each to a peer
  pub dispatched : List P
  pub sent : List (Text × Envelope P)

-- `random.sample(available, count)`
abbrev pub Sampler : Type 0
Sampler = ℕ → List Text → List Text

-- What arrives: an envelope, a protocol message that stands alone, or something that does not parse.
pub data Packet (P : Type 0) : Type 0 where
  envelope : Envelope P → Packet P
  message : P → Packet P
  garbage : Packet P

-- `min(peers, key=lambda p: p.last_seen)`, the first of the oldest
unfoldable pub oldest : PeerInfo → List PeerInfo → PeerInfo
oldest i [] = i
oldest i (j ∷ js) = oldest (if ltb j.last_seen i.last_seen then j else i) js

module _ {P : Type 0} where
  unfoldable pub get_active_peers : ℕ → GossipPeer P → List Text
  unfolding is_stale
  get_active_peers now p =
      map (λ i. i.peer_id) (retain (λ i. not (is_stale now i)) (map (λ e. e.1) p.peers))

  unfoldable pub register_peer_key : Text → Bytes → GossipPeer P → GossipPeer P
  register_peer_key peer_id key p = record p { peer_keys = insert peer_id key p.peer_keys }

  unfoldable pub get_peer_key : Text → GossipPeer P → Option Bytes
  get_peer_key peer_id p = lookup peer_id p.peer_keys

  unfoldable pub remove_peer : Text → GossipPeer P → GossipPeer P
  remove_peer peer_id p = record p {
    peers = erase peer_id p.peers;
    peer_keys = erase peer_id p.peer_keys;
  }

  unfoldable pub evict_oldest_peer : GossipPeer P → GossipPeer P
  unfolding oldest remove_peer
  evict_oldest_peer p = elim p.peers [
    | [] ↦ p
    | e ∷ es ↦ remove_peer (oldest e.1 (map (λ f. f.1) es)).peer_id p
  ]

  -- `add_peer`: a peer does not list itself, and the oldest goes where there is no room.
  unfoldable pub add_peer : ℕ → Text → Text → List Text → Option Bytes → GossipPeer P → GossipPeer P
  unfolding evict_oldest_peer
  add_peer now peer_id address capabilities verify_key p =
      if text_eq peer_id p.peer_id
      then p
      else let p' =
          if leb p.max_peers (length p.peers) && not (contains peer_id p.peers)
          then evict_oldest_peer p
          else p in
        record p' {
          peers =
              insert peer_id
                (record {
                  peer_id = peer_id;
                  address = address;
                  last_seen = now;
                  status = online;
                  capabilities = capabilities;
                })
                p'.peers;
          peer_keys = elim verify_key [
            | none ↦ p'.peer_keys
            | some key ↦ insert peer_id key p'.peer_keys
          ];
        }

  -- `_select_gossip_targets`
  unfoldable pub select_gossip_targets : Sampler → List Text → GossipPeer P → List Text
  select_gossip_targets sample exclude p =
      let available = retain (λ a. not (elem a exclude)) (map (λ e. e.0) p.peers) in
      if leb (length available) p.fanout then available else sample p.fanout available

  -- `_send_to_peers`, to peers that are listed
  unfoldable pub send_to_peers : Envelope P → List Text → GossipPeer P → GossipPeer P
  send_to_peers e targets p = record p { sent = p.sent ++ map (λ t. (t, e)) targets }

  -- `_forward_gossip`
  unfoldable pub forward_gossip : Sampler → Envelope P → List Text → GossipPeer P → GossipPeer P
  unfolding send_to_peers select_gossip_targets
  forward_gossip sample e exclude p = send_to_peers e (select_gossip_targets sample exclude p) p

  -- `_dispatch_message`, for a payload that reads as a message; what a handler raises is caught
  unfoldable pub dispatch_message : Wire P → P → GossipPeer P → GossipPeer P
  dispatch_message w m p =
      if w.is_message m then record p { dispatched = p.dispatched ++ m ∷ [] } else p

  -- Whether an envelope is authentic: its origin's key is known, it verifies, and its time is right.
  unfoldable pub is_authentic : Wire P → ℕ → Envelope P → GossipPeer P → Bool
  is_authentic w now e p = elim (lookup e.origin_id p.peer_keys) [
    | none ↦ false
    | some key ↦ if verify w key e then validate_timestamp now e else false
  ]

  -- The sender of a packet was seen.
  unfoldable pub touch_sender : ℕ → Text → GossipPeer P → GossipPeer P
  unfolding update_last_seen
  touch_sender now sender_id p = elim (lookup sender_id p.peers) [
    | none ↦ p
    | some i ↦ record p { peers = insert sender_id (update_last_seen now i) p.peers }
  ]

  -- The end of `_handle_received`, for an envelope that is new and authentic.
  unfoldable pub accept : Wire P → Sampler → ℕ → Text → Envelope P → GossipPeer P → GossipPeer P
  unfolding dispatch_message decrement_ttl add_to_path forward_gossip
  accept w sample now sender_id e p =
      let marked = record p { seen_messages = mark_seen now e.msg_id p.seen_messages } in
      let p' = dispatch_message w e.payload marked in
      let (alive, e') = decrement_ttl e in
      let e'' = add_to_path p.peer_id e' in
      if alive then forward_gossip sample e'' (e''.path ++ sender_id ∷ e.origin_id ∷ []) p' else p'

  -- The part of `_handle_received` for an envelope.
  unfoldable pub handle_envelope :
      Wire P → Sampler → ℕ → Text → Envelope P → GossipPeer P → GossipPeer P
  unfolding touch_sender accept is_authentic
  handle_envelope w sample now sender_id e p =
      let p' = touch_sender now sender_id p in
      let (seen, cache) = has_seen now e.msg_id p'.seen_messages in
      let checked = record p' { seen_messages = cache } in
      if seen
      then checked
      else if is_authentic w now e checked
      then accept w sample now sender_id e checked
      else checked

  -- `_handle_received`
  unfoldable pub handle_received :
      Wire P → Sampler → ℕ → Text → Packet P → GossipPeer P → GossipPeer P
  unfolding handle_envelope dispatch_message
  handle_received w sample now sender_id (envelope e) p = handle_envelope w sample now sender_id e p
  handle_received w sample now sender_id (message m) p = dispatch_message w m p
  handle_received w sample now sender_id garbage p = p

  -- `gossip`, with the id that the hash of the peer's id, the time and the message's id gives
  unfoldable pub gossip : Wire P → Sampler → ℕ → ℕ → P → GossipPeer P → GossipPeer P
  unfolding sign add_to_path forward_gossip
  gossip w sample named now m p =
      let msg_id = take 32 (
        w.crypto.sha256
          (p.peer_id ++ (codes ":" ++ (w.show_time named ++ (codes ":" ++ w.message_id m))))) in
      let blank : Envelope P = record {
        msg_id = msg_id;
        payload = m;
        origin_id = p.peer_id;
        ttl = default_ttl;
        timestamp = now;
        path = [];
        signature = [];
      } in
      let e = sign w p.signing_key (add_to_path p.peer_id blank) in
      forward_gossip sample e [] (record p { seen_messages = mark_seen now msg_id p.seen_messages })

  unfoldable pub remove_all : List PeerInfo → GossipPeer P → GossipPeer P
  unfolding remove_peer
  remove_all [] p = p
  remove_all (i ∷ is) p = remove_all is (remove_peer i.peer_id p)

  -- One round of `_peer_maintenance_loop`, before its heartbeat.
  unfoldable pub remove_stale : ℕ → GossipPeer P → GossipPeer P
  unfolding is_stale remove_all
  remove_stale now p = remove_all (retain (is_stale now) (map (λ e. e.1) p.peers)) p
