-- ===== src/Gossip/Upkeep.antt =====
-- Whom a peer sends to, and which peers its maintenance takes out.
use trust_flow_chain_of_cust.Gossip.Room.{IsKeyed, IsTidy}
use trust_flow_chain_of_cust.Prelude.Dict.{Dict, lookup, IsUnique, lookup-erase, keep_if}
use trust_flow_chain_of_cust.Gossip.Node.{
  PeerInfo, Sampler, remove_all, remove_stale, select_gossip_targets, GossipPeer, is_stale,
  remove_peer,
}
use trust_flow_chain_of_cust.Prelude.{
  length, elem-retain, retain, elem, if◌then◌else◌, Bool-cases, Text, text_eq, ℕ, ◌≤◌, ◌≡◌, refl,
  ◌∙◌, inl, inr, true, false, not, ◌&&◌, ◌||◌, none, List, [], ◌∷◌, map, arith,
}

-- What is relied on of a random sample: its size, and where it is drawn from.
pub record IsSample (sample : Sampler) : Type 0 where
  pub few : (n : ℕ) (ids : List Text) → length (sample n ids) ≤ n
  pub among :
      (n : ℕ) (ids : List Text) (a : Text) → elem a (sample n ids) ≡ true → elem a ids ≡ true

-- At most fanout targets are chosen, and each is a listed peer that is not excluded, if a
-- random sample has at most the size asked for and holds only what it was drawn from.
pub select_gossip_targets-among :
    {P : Type 0} (sample : Sampler) (exclude : List Text) (p : GossipPeer P)
    → IsSample sample
    → (length (select_gossip_targets sample exclude p) ≤ p.fanout)
      × ((a : Text)
          → elem a (select_gossip_targets sample exclude p) ≡ true
          → (elem a (map (λ e. e.0) p.peers) ≡ true) × (elem a exclude ≡ false))
unfolding select_gossip_targets
select_gossip_targets-among sample exclude p s =
    let available = retain (λ a. not (elem a exclude)) (map (λ e. e.0) p.peers) in
    let kept = λ (a : Text). elem-retain a (λ b. not (elem b exclude)) (map (λ e. e.0) p.peers) in
    (
      ground (arith, s.few p.fanout available),
      λ a h. ground (arith, s.among p.fanout available a, kept a, h),
    )

abbrev stale_ids : ℕ → Dict PeerInfo → List Text
stale_ids now d = map (λ i. i.peer_id) (retain (is_stale now) (map (λ e. e.1) d))

elem-stale_ids-cons :
    (now : ℕ) (k j : Text) (i : PeerInfo) (d : Dict PeerInfo)
    → j ≡ i.peer_id
    → elem k (stale_ids now ((j, i) ∷ d))
      ≡ ((is_stale now i && text_eq k j) || elem k (stale_ids now d))
unfolding elem retain
elem-stale_ids-cons now k j i d e = elim (Bool-cases (is_stale now i)) [
  | inl stale ↦ rw (stale, e) refl
  | inr fresh ↦ rw (fresh) refl
]

elem-stale_ids_absent :
    (now : ℕ) (k : Text) (d : Dict PeerInfo)
    → IsKeyed d
    → lookup k d ≡ none
    → elem k (stale_ids now d) ≡ false
unfolding lookup elem
elem-stale_ids_absent now k [] h n = unfold retain in refl
elem-stale_ids_absent now k ((j, i) ∷ d) h n =
    ground (arith, elem-stale_ids-cons now k j i d h.0, elem-stale_ids_absent now k d h.1, n)

-- An id is among those of the stale entries exactly when its entry is stale.
elem-stale_ids :
    (now : ℕ) (k : Text) (d : Dict PeerInfo)
    → IsKeyed d
    → IsUnique d
    → (if elem k (stale_ids now d) then none else lookup k d)
      ≡ keep_if (λ i. not (is_stale now i)) (lookup k d)
unfolding lookup
elem-stale_ids now k [] h u = ground arith
elem-stale_ids now k ((j, i) ∷ d) h u = ground (
  arith,
  elem-stale_ids now k d h.1 u.1,
  elem-stale_ids-cons now k j i d h.0,
  elem-stale_ids_absent now j d h.1 u.0,
)

lookup-remove_all :
    {P : Type 0} (k : Text) (is : List PeerInfo) (p : GossipPeer P)
    → lookup k (remove_all is p).peers
      ≡ (if elem k (map (λ i. i.peer_id) is) then none else lookup k p.peers)
unfolding remove_all remove_peer elem
lookup-remove_all k [] p = refl
lookup-remove_all k (i ∷ is) p =
    ground
      (arith, lookup-remove_all k is (remove_peer i.peer_id p), lookup-erase i.peer_id k p.peers)

-- In a tidy peer whose table has no key twice, one round of maintenance takes out exactly the
-- stale peers.
pub lookup-remove_stale :
    {P : Type 0} (now : ℕ) (k : Text) (p : GossipPeer P)
    → IsTidy p
    → IsUnique p.peers
    → lookup k (remove_stale now p).peers ≡ keep_if (λ i. not (is_stale now i)) (lookup k p.peers)
unfolding remove_stale
lookup-remove_stale now k p h u =
    lookup-remove_all k (retain (is_stale now) (map (λ e. e.1) p.peers)) p
    ∙ elem-stale_ids now k p.peers h.keyed u
