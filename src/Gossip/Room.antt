-- ===== src/Gossip/Room.antt =====
-- How many peers a peer lists, which, and whom it sends to.
use mathlib.Core.Path.{subst}
use trust_flow_chain_of_cust.Gossip.Node.{
  PeerInfo, GossipPeer, online, oldest, remove_peer, evict_oldest_peer, add_peer,
}
use trust_flow_chain_of_cust.Prelude.Dict.{
  Dict, lookup, insert, erase, contains, lookup-insert, lookup-erase,
}
use trust_flow_chain_of_cust.Strings.Hex.{Bytes}
use trust_flow_chain_of_cust.Prelude.{
  length, All, ltb, leb, if◌then◌else◌, Bool-cases, Text, text_eq, ℕ, ◌+◌, ◌≤◌, ◌<◌, ◌≡◌, refl, sym,
  inl, inr, true, false, not, ◌&&◌, Option, List, [], ◌∷◌, map, arith,
}

-- Each peer is listed under its own id.
abbrev pub IsKeyed : Dict PeerInfo → Type 0
IsKeyed = All (λ e. e.0 ≡ e.1.peer_id)

-- At most `max_peers` peers are listed, each under its own id, and never the peer itself.
pub record IsTidy {P : Type 0} (p : GossipPeer P) : Type 0 where
  pub keyed : IsKeyed p.peers
  pub bounded : length p.peers ≤ p.max_peers
  pub not_self : contains p.peer_id p.peers ≡ false

insert-IsKeyed :
    (k : Text) (i : PeerInfo) (d : Dict PeerInfo)
    → k ≡ i.peer_id
    → IsKeyed d
    → IsKeyed (insert k i d)
unfolding insert
insert-IsKeyed k i [] e h = (e, tt)
insert-IsKeyed k i ((j, o) ∷ d) e h = ground (arith, insert-IsKeyed k i d e h.1)

erase-IsKeyed : (k : Text) (d : Dict PeerInfo) → IsKeyed d → IsKeyed (erase k d)
unfolding erase
erase-IsKeyed k [] h = tt
erase-IsKeyed k ((j, o) ∷ d) h = ground (arith, erase-IsKeyed k d h.1)

length-insert :
    (k : Text) (i : PeerInfo) (d : Dict PeerInfo)
    → length (insert k i d) ≡ (if contains k d then length d else length d + 1)
unfolding insert lookup
length-insert k i [] = refl
length-insert k i ((j, o) ∷ d) = ground (arith, length-insert k i d)

length-erase-le : (k : Text) (d : Dict PeerInfo) → length (erase k d) ≤ length d
unfolding erase
length-erase-le k [] = omega arith
length-erase-le k ((j, o) ∷ d) = ground (arith, length-erase-le k d)

-- Erasing a key that is there makes the dict shorter.
length-erase-lt :
    (k : Text) (d : Dict PeerInfo) → contains k d ≡ true → length (erase k d) < length d
unfolding erase lookup
length-erase-lt k [] h = cc
length-erase-lt k ((j, o) ∷ d) h = ground (arith, length-erase-lt k d, length-erase-le k d)

abbrev IsListed : Dict PeerInfo → PeerInfo → Type 0
IsListed d i = contains i.peer_id d ≡ true

IsListed-cons :
    (k : Text) (o : PeerInfo) (d : Dict PeerInfo) (is : List PeerInfo)
    → All (IsListed d) is
    → All (IsListed ((k, o) ∷ d)) is
unfolding lookup
IsListed-cons k o d [] h = tt
IsListed-cons k o d (i ∷ is) h = (ground (arith, h.0), IsListed-cons k o d is h.1)

All-IsListed : (d : Dict PeerInfo) → IsKeyed d → All (IsListed d) (map (λ e. e.1) d)
unfolding lookup
All-IsListed [] h = tt
All-IsListed ((k, o) ∷ d) h =
    (ground (arith, h.0), IsListed-cons k o d (map (λ e. e.1) d) (All-IsListed d h.1))

-- The oldest of some listed peers is listed.
oldest-IsListed :
    (d : Dict PeerInfo) (i : PeerInfo) (is : List PeerInfo)
    → IsListed d i
    → All (IsListed d) is
    → IsListed d (oldest i is)
unfolding oldest
oldest-IsListed d i [] h k = h
oldest-IsListed d i (j ∷ js) h k =
    oldest-IsListed d (if ltb j.last_seen i.last_seen then j else i) js (ground (arith, h, k.0)) k.1

module _ {P : Type 0} where
  remove_peer-IsTidy : (k : Text) (p : GossipPeer P) → IsTidy p → IsTidy (remove_peer k p)
  unfolding remove_peer
  remove_peer-IsTidy k p h = record {
    keyed = erase-IsKeyed k p.peers h.keyed;
    bounded = omega (arith, h.bounded, length-erase-le k p.peers);
    not_self = ground (arith, lookup-erase k p.peer_id p.peers, h.not_self);
  }

  -- A tidy peer `q`, the same as `p` by name and limit, with room for one more.
  abbrev HasRoom : GossipPeer P → GossipPeer P → Type 0
  HasRoom p q =
      IsTidy q
      × (q.peer_id ≡ p.peer_id)
      × (q.max_peers ≡ p.max_peers)
      × (length q.peers + 1 ≤ p.max_peers)

  remove_peer-HasRoom :
      (k : Text) (p : GossipPeer P)
      → IsTidy p
      → contains k p.peers ≡ true
      → HasRoom p (remove_peer k p)
  unfolding remove_peer
  remove_peer-HasRoom k p h c =
      let tidy = remove_peer-IsTidy k p h in
      (tidy, refl, refl, omega (arith, h.bounded, length-erase-lt k p.peers c))

  -- Taking out the oldest makes room for one.
  evict_oldest_peer-HasRoom :
      (p : GossipPeer P) → IsTidy p → 1 ≤ p.max_peers → HasRoom p (evict_oldest_peer p)
  evict_oldest_peer-HasRoom p h m = go p.peers refl
    where
      go : (d : Dict PeerInfo) → p.peers ≡ d → HasRoom p (evict_oldest_peer p)
      go [] q =
          unfold evict_oldest_peer in rw (q, evict_oldest_peer) (h, refl, refl, ground (arith, q))
      go (e ∷ d) q =
          let listed : All (IsListed (e ∷ d)) (map (λ f. f.1) (e ∷ d)) =
            All-IsListed (e ∷ d) (subst (λ c. IsKeyed c) q h.keyed) in
          let there = oldest-IsListed (e ∷ d) e.1 (map (λ f. f.1) d) listed.0 listed.1 in
          unfold evict_oldest_peer in
          rw (q, evict_oldest_peer)
            (remove_peer-HasRoom (oldest e.1 (map (λ f. f.1) d)).peer_id p h
              (subst (λ c. IsListed c (oldest e.1 (map (λ f. f.1) d))) (sym q) there))

  -- The peer into which `add_peer` writes.
  abbrev widened : Text → GossipPeer P → GossipPeer P
  widened peer_id p =
      if leb p.max_peers (length p.peers) && not (contains peer_id p.peers)
      then evict_oldest_peer p
      else p

  widened-IsTidy :
      (peer_id : Text) (p : GossipPeer P)
      → IsTidy p
      → 1 ≤ p.max_peers
      → IsTidy (widened peer_id p)
        × ((widened peer_id p).peer_id ≡ p.peer_id)
        × ((widened peer_id p).max_peers ≡ p.max_peers)
        × ((i : PeerInfo) → length (insert peer_id i (widened peer_id p).peers) ≤ p.max_peers)
  widened-IsTidy peer_id p h m =
      let e = evict_oldest_peer-HasRoom p h m in
      elim (Bool-cases (leb p.max_peers (length p.peers) && not (contains peer_id p.peers))) [
        | inl full ↦
            rw (full, widened)
              (
                e.0,
                e.1,
                e.2,
                λ i. ground (arith, length-insert peer_id i (evict_oldest_peer p).peers, e.3),
              )
        | inr free ↦
            rw (free, widened)
              (h, refl, refl, λ i. ground (arith, length-insert peer_id i p.peers, h.bounded))
      ]

  -- If a peer lists at most max_peers peers, each under its own id and never itself, and may
  -- list at least one, then it does so after adding any peer.
  pub add_peer-IsTidy :
      (now : ℕ) (peer_id address : Text) (capabilities : List Text) (verify_key : Option Bytes)
      (p : GossipPeer P)
      → IsTidy p
      → 1 ≤ p.max_peers
      → IsTidy (add_peer now peer_id address capabilities verify_key p)
  unfolding add_peer
  add_peer-IsTidy now peer_id address capabilities verify_key p h m =
      elim (Bool-cases (text_eq peer_id p.peer_id)) [
        | inl own ↦ rw (own) h
        | inr other ↦ rw (other) (
            let t = widened-IsTidy peer_id p h m in
            let info : PeerInfo = record {
              peer_id = peer_id;
              address = address;
              last_seen = now;
              status = online;
              capabilities = capabilities;
            } in
            record {
              keyed = insert-IsKeyed peer_id info (widened peer_id p).peers refl t.0.keyed;
              bounded = omega (arith, t.2, t.3 info);
              not_self = ground (
                arith,
                lookup-insert peer_id (widened peer_id p).peer_id info (widened peer_id p).peers,
                t.1,
                t.0.not_self,
                other,
              );
            })
      ]
