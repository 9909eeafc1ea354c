-- ===== src/Deletion/Tracker.antt =====
-- `DeletionTracker`: who has acknowledged which deletion.
use trust_flow_chain_of_cust.Prelude.KeySet.{difference, is_subset}
use trust_flow_chain_of_cust.Prelude.{
  length, retain, elem, if◌then◌else◌, Text, is_empty, ℕ, Bool, true, false, not, Option, none,
  some, List, [], ◌∷◌, ◌++◌, map,
}
use trust_flow_chain_of_cust.Prelude.Dict.{Dict, lookup, get_or, insert}
use trust_flow_chain_of_cust.Deletion.Token.{DeletionToken, DeletionReceipt, get_hash}
use trust_flow_chain_of_cust.Crypto.{Crypto}

pub record Tracker : Type 0 where
  pub pending : Dict DeletionToken
  pub receipts : Dict (List DeletionReceipt)
  pub expected_peers : Dict (List Text)

unfoldable pub new_tracker : Tracker
new_tracker = record { pending = []; receipts = []; expected_peers = [] }

unfoldable pub track_deletion : Crypto → DeletionToken → List Text → Tracker → Text × Tracker
track_deletion c token expected t =
    let token_hash = get_hash c token in
    (
      token_hash,
      record {
        pending = insert token_hash token t.pending;
        receipts = insert token_hash [] t.receipts;
        expected_peers = insert token_hash expected t.expected_peers;
      },
    )

-- `{r.peer_id for r in receipts}`
abbrev pub peers_of : List DeletionReceipt → List Text
peers_of = map (λ r. r.peer_id)

unfoldable pub add_receipt : DeletionReceipt → Tracker → Tracker
add_receipt r t = elim (lookup r.token_hash t.receipts) [
  | none ↦ t
  | some old ↦
      if elem r.peer_id (peers_of old)
      then t
      else record t { receipts = insert r.token_hash (old ++ r ∷ []) t.receipts }
]

unfoldable pub get_receipts : Text → Tracker → List DeletionReceipt
get_receipts h t = get_or h t.receipts []

unfoldable pub get_token : Text → Tracker → Option DeletionToken
get_token h t = lookup h t.pending

unfoldable pub is_complete : Text → Tracker → Bool
unfolding get_receipts
is_complete h t = elim (lookup h t.expected_peers) [
  | none ↦ false
  | some expected ↦
      if is_empty expected then true else is_subset expected (peers_of (get_receipts h t))
]

unfoldable pub get_pending_peers : Text → Tracker → List Text
unfolding get_receipts
get_pending_peers h t = elim (lookup h t.expected_peers) [
  | none ↦ []
  | some expected ↦ difference expected (peers_of (get_receipts h t))
]

pub record Status : Type 0 where
  pub token : Option DeletionToken
  pub expected : List Text
  pub received : List DeletionReceipt
  pub pending : List Text
  pub complete : Bool
  pub success_count : ℕ
  pub failure_count : ℕ
  pub total_expected : ℕ
  pub total_received : ℕ

-- `sum(1 for r in receipts if p(r))`
abbrev pub count_if : (DeletionReceipt → Bool) → List DeletionReceipt → ℕ
count_if p rs = length (retain p rs)

unfoldable pub get_deletion_status : Text → Tracker → Status
unfolding get_receipts
get_deletion_status h t = record {
  token = lookup h t.pending;
  expected = get_or h t.expected_peers [];
  received = get_receipts h t;
  pending = get_pending_peers h t;
  complete = is_complete h t;
  success_count = count_if (λ r. r.success) (get_receipts h t);
  failure_count = count_if (λ r. not r.success) (get_receipts h t);
  total_expected = length (get_or h t.expected_peers []);
  total_received = length (get_receipts h t);
}
