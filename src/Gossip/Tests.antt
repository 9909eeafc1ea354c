-- ===== src/Gossip/Tests.antt =====
-- Two peers and a message.
use trust_flow_chain_of_cust.Samples.{toy_crypto, toy_crypto-IsSignature}
use trust_flow_chain_of_cust.Clock.{seconds}
use trust_flow_chain_of_cust.Gossip.Envelope.{
  Wire, Envelope, default_ttl, sign, verify, validate_timestamp,
}
use trust_flow_chain_of_cust.Gossip.Cache.{has_seen, maybe_cleanup}
use trust_flow_chain_of_cust.Gossip.Node.{
  GossipPeer, Sampler, message, garbage, add_peer, is_authentic, handle_envelope, handle_received,
  accept, dispatch_message,
}
use trust_flow_chain_of_cust.Gossip.Admission.{verify-sign, handle_envelope-Authentic, Authentic}
use trust_flow_chain_of_cust.Gossip.Replay.{dispatch_once, receive_all, Delivery}
use trust_flow_chain_of_cust.Gossip.Room.{IsTidy, add_peer-IsTidy}
use trust_flow_chain_of_cust.Gossip.Upkeep.{IsSample}
use trust_flow_chain_of_cust.Prelude.Dict.{IsUnique, lookup, insert}
use trust_flow_chain_of_cust.Prelude.{
  length, take, elem, Text, codes, is_empty, Text-discrete, ℕ, zero, suc, ◌+◌, ◌≤◌, ◌≡◌, refl, true,
  false, not, none, List, [], ◌∷◌, arith, ℕ_discrete, inl, ◌≢◌, sym, ◌∙◌,
}

abbrev toy_wire : Wire Text
toy_wire = record {
  crypto = toy_crypto;
  dumps = λ t. t;
  show_time = λ t. (t + 128) ∷ [];
  is_message = λ t. not (is_empty t);
  message_id = λ t. t;
}

abbrev first_of : Sampler
first_of = take

length-take-le : (n : ℕ) (ids : List Text) → length (take n ids) ≤ n
length-take-le zero ids = omega arith
length-take-le (suc n) [] = omega arith
length-take-le (suc n) (a ∷ ids) = omega (arith, length-take-le n ids)

elem-take : (n : ℕ) (ids : List Text) (a : Text) → elem a (take n ids) ≡ true → elem a ids ≡ true
unfolding elem
elem-take zero ids a h = cc
elem-take (suc n) [] a h = h
elem-take (suc n) (b ∷ ids) a h = ground (arith, elem-take n ids a, h)

first_of-IsSample : IsSample first_of
first_of-IsSample = record { few = length-take-le; among = elem-take }

abbrev alone : GossipPeer Text
alone = record {
  peer_id = codes "b";
  address = codes "tcp://b";
  fanout = 1;
  max_peers = 2;
  signing_key = 2 ∷ [];
  peers = [];
  peer_keys = (codes "a", 1 ∷ []) ∷ [];
  seen_messages = record { cache = []; max_size = 10; ttl = seconds 300; last_cleanup = 0 };
  dispatched = [];
  sent = [];
}

alone-IsTidy : IsTidy alone
alone-IsTidy = record { keyed = tt; bounded = omega arith; not_self = unfold lookup in refl }

abbrev news : Envelope Text
news = sign toy_wire (1 ∷ []) (record {
  msg_id = codes "m";
  payload = codes "hello";
  origin_id = codes "a";
  ttl = default_ttl;
  timestamp = 5;
  path = codes "a" ∷ [];
  signature = [];
})

news_verifies : verify toy_wire (1 ∷ []) news ≡ true
news_verifies =
    verify-sign toy_wire (1 ∷ [])
      (record {
        msg_id = codes "m";
        payload = codes "hello";
        origin_id = codes "a";
        ttl = default_ttl;
        timestamp = 5;
        path = codes "a" ∷ [];
        signature = [];
      })
      toy_crypto-IsSignature

news_authentic : is_authentic toy_wire 7 news alone ≡ true
unfolding is_authentic lookup sign validate_timestamp Text-discrete ℕ_discrete
news_authentic = rw news_verifies refl

news_unseen : (has_seen 7 news.msg_id alone.seen_messages).0 ≡ false
unfolding has_seen maybe_cleanup lookup sign
news_unseen = refl

cons_ne_nil : codes "hello" ∷ [] ≢ []
cons_ne_nil e = cc

abbrev later : List (Delivery Text)
later = (8, (codes "c", garbage)) ∷ (9, (codes "c", message (codes "x"))) ∷ []

abbrev informed : GossipPeer Text
informed =
    receive_all toy_wire first_of later (handle_envelope toy_wire first_of 7 (codes "a") news alone)

dispatch_once_example :
    ((handle_envelope toy_wire first_of 20 (codes "c") news informed).dispatched
      ≡ informed.dispatched)
    × ((handle_envelope toy_wire first_of 20 (codes "c") news informed).sent ≡ informed.sent)
dispatch_once_example =
    dispatch_once toy_wire first_of 7 20 (codes "a") (codes "c") news news later alone refl
      news_unseen news_authentic (record { unique = tt; fits = omega arith; lives = refl })
      ((omega arith, omega arith), ((omega arith, omega arith), tt)) (omega arith)

-- The message was dispatched once, and the one that stands alone too.
informed_dispatched : informed.dispatched ≡ codes "hello" ∷ codes "x" ∷ []
unfolding receive_all handle_received handle_envelope has_seen accept is_authentic dispatch_message
    lookup sign validate_timestamp Text-discrete ℕ_discrete
informed_dispatched = rw news_verifies refl

-- What the first delivery dispatches.
dispatched_news :
    (handle_envelope toy_wire first_of 7 (codes "a") news alone).dispatched ≡ codes "hello" ∷ []
unfolding handle_envelope has_seen accept is_authentic dispatch_message lookup sign
    validate_timestamp Text-discrete ℕ_discrete
dispatched_news = rw news_verifies refl

handle_envelope-Authentic_example :
    ((has_seen 7 news.msg_id alone.seen_messages).0 ≡ false) × Authentic toy_wire 7 news alone
handle_envelope-Authentic_example =
    handle_envelope-Authentic toy_wire first_of 7 (codes "a") news alone
      (inl (λ same. cons_ne_nil (sym dispatched_news ∙ same)))

abbrev full : GossipPeer Text
full =
    add_peer 2 (codes "d") (codes "tcp://d") [] none
      (add_peer 1 (codes "c") (codes "tcp://c") [] none alone)

full-IsTidy : IsTidy full
full-IsTidy =
    add_peer-IsTidy 2 (codes "d") (codes "tcp://d") [] none
      (add_peer 1 (codes "c") (codes "tcp://c") [] none alone)
      (add_peer-IsTidy 1 (codes "c") (codes "tcp://c") [] none alone alone-IsTidy (omega arith))
      (unfold add_peer insert lookup Text-discrete ℕ_discrete in omega arith)

-- The third peer takes the place of the first.
add_peer-IsTidy_example : IsTidy (add_peer 3 (codes "e") (codes "tcp://e") [] none full)
add_peer-IsTidy_example =
    add_peer-IsTidy 3 (codes "e") (codes "tcp://e") [] none full full-IsTidy
      (unfold add_peer insert lookup Text-discrete ℕ_discrete in omega arith)

full-IsUnique : IsUnique full.peers
unfolding add_peer insert lookup Text-discrete ℕ_discrete
full-IsUnique = (refl, (refl, tt))
