-- ===== src/Gossip/Replay.antt =====
-- A peer that receives packets one after the other, and the same message again.
use trust_flow_chain_of_cust.Gossip.Envelope.{Wire, Envelope, decrement_ttl}
use trust_flow_chain_of_cust.Gossip.Cache.{has_seen, mark_seen}
use trust_flow_chain_of_cust.Gossip.Node.{
  GossipPeer, Sampler, Packet, forward_gossip, dispatch_message, is_authentic, accept,
  handle_envelope, handle_received, envelope, message, garbage,
}
use trust_flow_chain_of_cust.Gossip.Admission.{
  checked, handle_envelope-eq, handle_envelope_rejected,
}
use trust_flow_chain_of_cust.Gossip.Window.{
  Fits, has_seen-Fits, Guard, has_seen-Guard, mark_seen-Guard, mark_seen-starts, has_seen_found,
}
use trust_flow_chain_of_cust.Prelude.{
  Bool-cases, Text, ℕ, suc, ◌+◌, ◌≤◌, ◌≡◌, inl, inr, List, [], ◌∷◌, arith, All, false, length, true,
}

-- What arrives, when and from whom.
abbrev pub Delivery : Type 0 → Type 0
Delivery P = ℕ × (Text × Packet P)

module _ {P : Type 0} (w : Wire P) (sample : Sampler) where
  unfoldable pub receive_all : List (Delivery P) → GossipPeer P → GossipPeer P
  unfolding handle_received
  receive_all [] p = p
  receive_all ((now, (sender, packet)) ∷ ds) p =
      receive_all ds (handle_received w sample now sender packet p)

  accept-seen_messages :
      (now : ℕ) (sender : Text) (e : Envelope P) (p : GossipPeer P)
      → (accept w sample now sender e p).seen_messages ≡ mark_seen now e.msg_id p.seen_messages
  unfolding accept dispatch_message forward_gossip decrement_ttl
  accept-seen_messages now sender e p = ground arith

  module _ (id : Text) (first life : ℕ) where
    abbrev Remembers : ℕ → GossipPeer P → Type 0
    Remembers budget p = Guard id first life budget p.seen_messages

    weaken-Guard : (budget : ℕ) (p : GossipPeer P) → Remembers (suc budget) p → Remembers budget p
    weaken-Guard budget p g = record {
      marked = g.marked;
      since = g.since;
      found = g.found;
      unique = g.unique;
      room = omega (arith, g.room);
      lives = g.lives;
    }

    handle_envelope-Remembers :
        (budget now : ℕ) (sender : Text) (e : Envelope P) (p : GossipPeer P)
        → first ≤ now
        → now ≤ first + life
        → Remembers (suc budget) p
        → Remembers budget (handle_envelope w sample now sender e p)
    handle_envelope-Remembers budget now sender e p l h g =
        let asked : Remembers (suc budget) (checked w sample now sender e p) =
          has_seen-Guard id first life (suc budget) now e.msg_id p.seen_messages h g in
        let weak = weaken-Guard budget (checked w sample now sender e p) asked in
        rw (handle_envelope-eq w sample now sender e p)
          (elim (Bool-cases (has_seen now e.msg_id p.seen_messages).0) [
            | inl seen ↦ rw (seen) weak
            | inr new ↦ rw (new) (elim (Bool-cases (is_authentic w now e p)) [
              | inr bad ↦ rw (bad) weak
              | inl good ↦
                  rw (good, accept-seen_messages now sender e (checked w sample now sender e p))
                    (mark_seen-Guard id first life budget now e.msg_id
                      (checked w sample now sender e p).seen_messages l h asked)
            ])
          ])

    handle_received-Remembers :
        (budget : ℕ) (d : Delivery P) (p : GossipPeer P)
        → first ≤ d.0
        → d.0 ≤ first + life
        → Remembers (suc budget) p
        → Remembers budget (handle_received w sample d.0 d.1.0 d.1.1 p)
    unfolding handle_received
    handle_received-Remembers budget (now, (sender, envelope e)) p l h g =
        handle_envelope-Remembers budget now sender e p l h g
    handle_received-Remembers budget (now, (sender, message m)) p l h g =
        elim (Bool-cases (w.is_message m)) [
          | inl spoken ↦ unfold dispatch_message in rw (spoken) (weaken-Guard budget p g)
          | inr unread ↦ unfold dispatch_message in rw (unread) (weaken-Guard budget p g)
        ]
    handle_received-Remembers budget (now, (sender, garbage)) p l h g = weaken-Guard budget p g

    receive_all-Remembers :
        (ds : List (Delivery P)) (p : GossipPeer P)
        → All (λ d. (first ≤ d.0) × (d.0 ≤ first + life)) ds
        → Remembers (length ds) p
        → Remembers 0 (receive_all ds p)
    unfolding receive_all
    receive_all-Remembers [] p h g = g
    receive_all-Remembers (d ∷ ds) p h g =
        receive_all-Remembers ds (handle_received w sample d.0 d.1.0 d.1.1 p) h.1
          (handle_received-Remembers (length ds) d p h.0.0 h.0.1 g)

  -- Once a peer has accepted an envelope, an envelope with the same id is neither dispatched
  -- nor forwarded again, whatever packets come in between, if all of this happens within the
  -- cache's lifetime from the first time on and the cache, with no key twice, has room for the
  -- ids that come in.
  pub dispatch_once :
      (first last : ℕ) (sender again : Text) (e f : Envelope P) (ds : List (Delivery P))
      (p : GossipPeer P)
      → f.msg_id ≡ e.msg_id
      → (has_seen first e.msg_id p.seen_messages).0 ≡ false
      → is_authentic w first e p ≡ true
      → Fits (suc (length ds)) p.seen_messages.ttl p.seen_messages
      → All (λ d. (first ≤ d.0) × (d.0 ≤ first + p.seen_messages.ttl)) ds
      → last ≤ first + p.seen_messages.ttl
      → let q = receive_all ds (handle_envelope w sample first sender e p) in
        ((handle_envelope w sample last again f q).dispatched ≡ q.dispatched)
        × ((handle_envelope w sample last again f q).sent ≡ q.sent)
  dispatch_once first last sender again e f ds p same new good fits h l =
      let life = p.seen_messages.ttl in
      let asked = has_seen-Fits (suc (length ds)) life first e.msg_id p.seen_messages fits in
      let start : Remembers e.msg_id first life (length ds)
          (handle_envelope w sample first sender e p) =
        rw
          (
            handle_envelope-eq w sample first sender e p,
            new,
            good,
            accept-seen_messages first sender e (checked w sample first sender e p),
          )
          (mark_seen-starts e.msg_id first life (length ds)
            (checked w sample first sender e p).seen_messages asked.lives asked.unique
            (omega (arith, asked.fits))) in
      let q = receive_all ds (handle_envelope w sample first sender e p) in
      let g =
        receive_all-Remembers e.msg_id first life ds (handle_envelope w sample first sender e p) h
          start in
      handle_envelope_rejected w sample last again f q
        (inl (rw (same) (has_seen_found e.msg_id first life 0 last q.seen_messages l g)))
