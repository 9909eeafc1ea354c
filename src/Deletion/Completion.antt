-- ===== src/Deletion/Completion.antt =====
-- What the tracker keeps about the receipts, and when a deletion is complete.
use trust_flow_chain_of_cust.Deletion.Tracker.{
  Tracker, new_tracker, track_deletion, peers_of, add_receipt, get_receipts, is_complete,
  get_pending_peers, get_deletion_status, count_if,
}
use trust_flow_chain_of_cust.Prelude.KeySet.{difference, is_subset, elem-difference, is_subset_mono}
use trust_flow_chain_of_cust.Prelude.{
  length, All, All-append, retain, elem, Option-cases, Text, text_eq, ◌+◌, ◌≡◌, refl, sym, ◌∙◌, ◌↔◌,
  ◌⊎◌, inl, inr, Bool, true, false, not, ◌&&◌, ◌||◌, some, List, [], ◌∷◌, ◌++◌, arith,
  Text-discrete,
}
use trust_flow_chain_of_cust.Prelude.Dict.{lookup, get_or, lookup-insert}
use trust_flow_chain_of_cust.Deletion.Token.{DeletionToken, DeletionReceipt, get_hash}
use trust_flow_chain_of_cust.Crypto.{Crypto}

-- No peer has two receipts in a list.
abbrev pub OncePerPeer : List DeletionReceipt → Type 0
OncePerPeer [] = Unit {0}
OncePerPeer (r ∷ rs) = (elem r.peer_id (peers_of rs) ≡ false) × OncePerPeer rs

-- Each receipt stands under its own token, and no peer has two for one token.
pub record IsConsistent (t : Tracker) : Type 0 where
  pub once : (h : Text) → OncePerPeer (get_receipts h t)
  pub filed : (h : Text) → All (λ r. r.token_hash ≡ h) (get_receipts h t)

peers_of-append :
    (a : Text) (rs : List DeletionReceipt) (r : DeletionReceipt)
    → elem a (peers_of (rs ++ r ∷ [])) ≡ (elem a (peers_of rs) || text_eq a r.peer_id)
unfolding elem
peers_of-append a [] r = ground arith
peers_of-append a (x ∷ rs) r = ground (arith, peers_of-append a rs r)

OncePerPeer-append :
    (rs : List DeletionReceipt) (r : DeletionReceipt)
    → OncePerPeer rs
    → elem r.peer_id (peers_of rs) ≡ false
    → OncePerPeer (rs ++ r ∷ [])
unfolding elem
OncePerPeer-append [] r o e = (refl, tt)
OncePerPeer-append (x ∷ rs) r o e =
    (ground (arith, peers_of-append x.peer_id rs r), OncePerPeer-append rs r o.1 (ground arith))

get_receipts-add_receipt :
    (h : Text) (r : DeletionReceipt) (t : Tracker)
    → (get_receipts h (add_receipt r t) ≡ get_receipts h t)
      ⊎ ((r.token_hash ≡ h)
          × (elem r.peer_id (peers_of (get_receipts h t)) ≡ false)
          × (get_receipts h (add_receipt r t) ≡ get_receipts h t ++ r ∷ []))
unfolding get_receipts add_receipt
get_receipts-add_receipt h r t = elim (Option-cases (lookup r.token_hash t.receipts)) [
  | inl e ↦ inl (ground arith)
  | inr (old, e) ↦ ground (arith, lookup-insert r.token_hash h (old ++ r ∷ []) t.receipts)
]

-- A receipt, new or repeated, for a known token or not, keeps the tracker consistent: each
-- receipt stands under its own token, and no peer has two for one token.
pub add_receipt-IsConsistent :
    (r : DeletionReceipt) (t : Tracker) → IsConsistent t → IsConsistent (add_receipt r t)
add_receipt-IsConsistent r t inv = record {
  once = λ h. elim (get_receipts-add_receipt h r t) [
    | inl same ↦ rw same (inv.once h)
    | inr (e, new, grown) ↦ rw grown (OncePerPeer-append (get_receipts h t) r (inv.once h) new)
  ];
  filed = λ h. elim (get_receipts-add_receipt h r t) [
    | inl same ↦ rw same (inv.filed h)
    | inr (e, new, grown) ↦ rw grown (All-append _ (get_receipts h t) _ (inv.filed h) (e, tt))
  ];
}

pub new_tracker-IsConsistent : IsConsistent new_tracker
unfolding new_tracker get_receipts lookup
new_tracker-IsConsistent = record { once = λ h. tt; filed = λ h. tt }

get_receipts-track_deletion :
    (c : Crypto) (token : DeletionToken) (expected : List Text) (t : Tracker) (h : Text)
    → (get_receipts h (track_deletion c token expected t).1 ≡ [])
      ⊎ (get_receipts h (track_deletion c token expected t).1 ≡ get_receipts h t)
unfolding get_receipts track_deletion
get_receipts-track_deletion c token expected t h = elim (Text-discrete h (get_hash c token)) [
  | yes same ↦ inl (ground (arith, lookup-insert (get_hash c token) h [] t.receipts))
  | no other ↦ inr (ground (arith, lookup-insert (get_hash c token) h [] t.receipts))
]

-- Tracking a deletion keeps the tracker consistent, also when its token is tracked already.
pub track_deletion-IsConsistent :
    (c : Crypto) (token : DeletionToken) (expected : List Text) (t : Tracker)
    → IsConsistent t
    → IsConsistent (track_deletion c token expected t).1
track_deletion-IsConsistent c token expected t inv = record {
  once = λ h. elim (get_receipts-track_deletion c token expected t h) [
    | inl new ↦ rw new tt
    | inr same ↦ rw same (inv.once h)
  ];
  filed = λ h. elim (get_receipts-track_deletion c token expected t h) [
    | inl new ↦ rw new tt
    | inr same ↦ rw same (inv.filed h)
  ];
}

difference-nil : (s t : List Text) → (is_subset s t ≡ true) ↔ (difference s t ≡ [])
unfolding is_subset difference retain elem
difference-nil [] t = (λ e. refl, λ e. refl)
difference-nil (x ∷ s) t =
    (λ e. ground (arith, (difference-nil s t).0), λ e. ground (arith, (difference-nil s t).1))

is_complete-eq :
    (h : Text) (t : Tracker) (expected : List Text)
    → lookup h t.expected_peers ≡ some expected
    → is_complete h t ≡ is_subset expected (peers_of (get_receipts h t))
is_complete-eq h t [] e = unfold is_complete is_subset in rw (e, is_complete)
is_complete-eq h t (p ∷ ps) e = unfold is_complete in rw (e, is_complete)

get_pending_peers-eq :
    (h : Text) (t : Tracker) (expected : List Text)
    → lookup h t.expected_peers ≡ some expected
    → get_pending_peers h t ≡ difference expected (peers_of (get_receipts h t))
get_pending_peers-eq h t expected e = unfold get_pending_peers in rw (e, get_pending_peers)

-- A tracked deletion is complete exactly when no peer is pending, and the pending peers are
-- those that are expected and have sent no receipt.
pub is_complete_iff :
    (h : Text) (t : Tracker) {expected : List Text}
    → lookup h t.expected_peers ≡ some expected
    → ((is_complete h t ≡ true) ↔ (get_pending_peers h t ≡ []))
      × ((p : Text)
          → elem p (get_pending_peers h t)
            ≡ (elem p expected && not (elem p (peers_of (get_receipts h t)))))
is_complete_iff h t {expected} e =
    let rest = difference-nil expected (peers_of (get_receipts h t)) in
    (
      rw (is_complete-eq h t expected e, get_pending_peers-eq h t expected e) rest,
      λ p. rw (get_pending_peers-eq h t expected e) (elem-difference p expected _),
    )

expected_peers-add_receipt :
    (r : DeletionReceipt) (t : Tracker) (h : Text)
    → lookup h (add_receipt r t).expected_peers ≡ lookup h t.expected_peers
unfolding add_receipt
expected_peers-add_receipt r t h = ground arith

add_receipt-grows :
    (h : Text) (r : DeletionReceipt) (t : Tracker) (a : Text)
    → elem a (peers_of (get_receipts h t)) ≡ true
    → elem a (peers_of (get_receipts h (add_receipt r t))) ≡ true
add_receipt-grows h r t a e = elim (get_receipts-add_receipt h r t) [
  | inl same ↦ rw same e
  | inr (_, _, grown) ↦ rw (grown, peers_of-append a (get_receipts h t) r, e)
]

-- Once complete, a deletion stays complete, whatever receipt comes in.
pub is_complete-add_receipt :
    (h : Text) (r : DeletionReceipt) (t : Tracker)
    → is_complete h t ≡ true
    → is_complete h (add_receipt r t) ≡ true
is_complete-add_receipt h r t e = elim (Option-cases (lookup h t.expected_peers)) [
  | inl missing ↦ absurd (unfold is_complete in ground arith)
  | inr (expected, found) ↦
      rw (is_complete-eq h (add_receipt r t) expected (expected_peers-add_receipt r t h ∙ found)) (
        is_subset_mono expected _ _ (add_receipt-grows h r t)
          (sym (is_complete-eq h t expected found) ∙ e))
]

count_if-not :
    (p : DeletionReceipt → Bool) (rs : List DeletionReceipt)
    → count_if p rs + count_if (λ r. not (p r)) rs ≡ length rs
unfolding retain
count_if-not p [] = omega arith
count_if-not p (r ∷ rs) = ground (arith, count_if-not p rs)

-- The two counts of a deletion's status add up to the number of receipts.
pub get_deletion_status_counts :
    (h : Text) (t : Tracker)
    → let s = get_deletion_status h t in s.success_count + s.failure_count ≡ s.total_received
unfolding get_deletion_status
get_deletion_status_counts h t = count_if-not (λ r. r.success) (get_or h t.receipts [])
