-- ===== src/Gossip/Net.antt =====
-- `GossipNetwork`; which peer broadcasts is random, and an argument.
use trust_flow_chain_of_cust.Gossip.Envelope.{Wire}
use trust_flow_chain_of_cust.Gossip.Cache.{new_cache}
use trust_flow_chain_of_cust.Gossip.Node.{GossipPeer, Sampler, add_peer, gossip}
use trust_flow_chain_of_cust.Prelude.Dict.{Dict, lookup, insert}
use trust_flow_chain_of_cust.Strings.Hex.{Bytes}
use trust_flow_chain_of_cust.Strings.Decimal.{decimal}
use trust_flow_chain_of_cust.Prelude.{
  if◌then◌else◌, Text, codes, text_eq, ℕ, ◌+◌, Option, none, some, List, [], ◌∷◌, ◌++◌, map,
}

pub record GossipNetwork (P : Type 0) : Type 0 where
  pub host : Text
  pub peers : Dict (GossipPeer P)
  pub next_port : ℕ

module _ {P : Type 0} where
  -- `GossipPeer(peer_id, host, port, fanout)`, with the key that is generated for it
  unfoldable pub new_peer : ℕ → Bytes → Text → Text → ℕ → ℕ → GossipPeer P
  new_peer now key peer_id host port fanout = record {
    peer_id = peer_id;
    address = codes "tcp://" ++ (host ++ (codes ":" ++ decimal port));
    fanout = fanout;
    max_peers = 50;
    signing_key = key;
    peers = [];
    peer_keys = [];
    seen_messages = new_cache now;
    dispatched = [];
    sent = [];
  }

  unfoldable pub create_peer : ℕ → Bytes → Text → ℕ → GossipNetwork P → GossipNetwork P
  unfolding new_peer
  create_peer now key peer_id fanout n = record n {
    peers = insert peer_id (new_peer now key peer_id n.host n.next_port fanout) n.peers;
    next_port = n.next_port + 1;
  }

  unfoldable pub get_peer : Text → GossipNetwork P → Option (GossipPeer P)
  get_peer peer_id n = lookup peer_id n.peers

  -- One peer is told of every other.
  unfoldable pub introduce : ℕ → List (GossipPeer P) → GossipPeer P → GossipPeer P
  unfolding add_peer
  introduce now [] p = p
  introduce now (other ∷ others) p = introduce now others (
      if text_eq other.peer_id p.peer_id
      then p
      else add_peer now other.peer_id other.address [] none p)

  -- `start_all`, once the sockets are bound
  unfoldable pub start_all : ℕ → GossipNetwork P → GossipNetwork P
  unfolding introduce
  start_all now n = record n {
    peers = map (λ e. (e.0, introduce now (map (λ f. f.1) n.peers) e.1)) n.peers;
  }

  unfoldable pub broadcast : Wire P → Sampler → ℕ → Text → P → GossipNetwork P → GossipNetwork P
  unfolding gossip
  broadcast w sample now peer_id m n = elim (lookup peer_id n.peers) [
    | none ↦ n
    | some p ↦ record n { peers = insert peer_id (gossip w sample now now m p) n.peers }
  ]
