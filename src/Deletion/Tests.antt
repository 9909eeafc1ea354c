-- ===== src/Deletion/Tests.antt =====
-- Tokens, receipts, caches and the tracker on concrete values.
use trust_flow_chain_of_cust.Prelude.KeySet.{is_subset}
use trust_flow_chain_of_cust.Prelude.Dict.{IsUnique, insert, lookup}
use trust_flow_chain_of_cust.Samples.{toy_crypto}
use trust_flow_chain_of_cust.Deletion.Token.{DeletionToken, get_hash, DeletionReceipt}
use trust_flow_chain_of_cust.Deletion.Cache.{
  TokenCache, new_cache, is_processed, mark_processed, maybe_cleanup, cleanup_interval,
}
use trust_flow_chain_of_cust.Deletion.Replay.{
  Call, after, admit, admit_fresh, admitted, admit_once, admit_twice,
}
use trust_flow_chain_of_cust.Deletion.Tracker.{
  Tracker, new_tracker, add_receipt, is_complete, get_pending_peers, get_receipts, peers_of,
  track_deletion,
}
use trust_flow_chain_of_cust.Deletion.Completion.{
  IsConsistent, new_tracker-IsConsistent, track_deletion-IsConsistent, add_receipt-IsConsistent,
  is_complete_iff,
}
use trust_flow_chain_of_cust.Prelude.{
  elem, Text, codes, ◌+◌, ◌≤◌, ◌≡◌, refl, ◌≢◌, ◌↔◌, true, not, ◌&&◌, none, some, [], ◌∷◌, arith,
}

abbrev token : DeletionToken
token = record {
  node_hash = codes "n1";
  originator_id = codes "alice";
  nonce = codes "x";
  timestamp = codes "t";
  signature = [];
}

abbrev receipt : DeletionReceipt
receipt = record {
  token_hash = get_hash toy_crypto token;
  peer_id = codes "bob";
  timestamp = codes "t";
  success = true;
  node_hash = codes "n1";
  signature = [];
  error_message = none;
}

-- A cache that keeps an entry for 100 seconds, and another call in between.
abbrev cache : TokenCache
cache = new_cache 100 0

abbrev other_call : Call
other_call = record { time = 20; token_hash = codes "h2"; runs_out = some 60 }

cache-IsUnique : IsUnique cache.processed
unfolding new_cache
cache-IsUnique = tt

first_admitted : (admit 10 (codes "h") (some 50) cache).0 ≡ admitted
unfolding admit admit_fresh is_processed maybe_cleanup new_cache lookup
first_admitted = refl

admit_once_example :
    (admit 30
      (codes "h")
      (some 50)
      (after (other_call ∷ []) (admit 10 (codes "h") (some 50) cache).1)).0
    ≢ admitted
admit_once_example =
    admit_once 10 30 50 (codes "h") cache (other_call ∷ []) cache-IsUnique
      (unfold new_cache in omega arith) first_admitted (omega arith, omega arith)

-- A token dated far into the future.
future_admitted : (admit 10 (codes "h") (some 900000000) cache).0 ≡ admitted
unfolding admit admit_fresh is_processed maybe_cleanup new_cache lookup
future_admitted = refl

cleanup_due :
    (admit 10 (codes "h") (some 900000000) cache).1.last_cleanup + cleanup_interval ≤ 200000000
unfolding admit admit_fresh is_processed mark_processed maybe_cleanup new_cache lookup
cleanup_due = omega arith

admit_twice_example :
    (admit 200000000 (codes "h") (some 900000000) (admit 10 (codes "h") (some 900000000) cache).1).0
    ≡ admitted
admit_twice_example =
    admit_twice 10 200000000 900000000 (codes "h") cache cache-IsUnique future_admitted
      (unfold new_cache in omega arith) (omega arith) cleanup_due

-- The tracker once a deletion is tracked.
abbrev hash : Text
hash = get_hash toy_crypto token

abbrev waiting : Tracker
waiting = (track_deletion toy_crypto token (codes "bob" ∷ []) new_tracker).1

waiting-expected : lookup hash waiting.expected_peers ≡ some (codes "bob" ∷ [])
unfolding track_deletion insert lookup new_tracker
waiting-expected = ground arith

is_complete_iff_example :
    ((is_complete hash waiting ≡ true) ↔ (get_pending_peers hash waiting ≡ []))
    × ((p : Text)
        → elem p (get_pending_peers hash waiting)
          ≡ (elem p (codes "bob" ∷ []) && not (elem p (peers_of (get_receipts hash waiting)))))
is_complete_iff_example = is_complete_iff hash waiting waiting-expected

all_received : is_complete hash (add_receipt receipt waiting) ≡ true
unfolding is_complete get_receipts add_receipt track_deletion insert lookup new_tracker is_subset
    elem
all_received = ground arith

add_receipt-IsConsistent_example : IsConsistent (add_receipt receipt waiting)
add_receipt-IsConsistent_example = add_receipt-IsConsistent receipt waiting (
    track_deletion-IsConsistent toy_crypto token (codes "bob" ∷ []) new_tracker
      new_tracker-IsConsistent)
