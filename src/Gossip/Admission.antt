-- ===== src/Gossip/Admission.antt =====
-- What a peer dispatches and sends on when a packet arrives.
use trust_flow_chain_of_cust.Prelude.Dict.{lookup}
use trust_flow_chain_of_cust.Crypto.{IsSignature, sign_message, verify_signature}
use trust_flow_chain_of_cust.Gossip.Envelope.{
  Wire, Envelope, sign, verify, get_signing_data, validate_timestamp, max_age, max_future,
}
use trust_flow_chain_of_cust.Gossip.Cache.{has_seen}
use trust_flow_chain_of_cust.Gossip.Node.{
  GossipPeer, Sampler, is_authentic, touch_sender, accept, handle_envelope,
}
use trust_flow_chain_of_cust.Strings.Hex.{Bytes, from_hex-to_hex, to_hex-ne_nil, from_hex}
use trust_flow_chain_of_cust.Prelude.{
  if◌then◌else◌, Text, ℕ, ◌≡◌, refl, ◌⊎◌, true, false, arith, ◌≢◌, Option-cases, inl, some, inr,
  ◌≤◌, Bool-cases, ◌+◌,
}

-- A signed envelope verifies under its signer's key.
pub verify-sign :
    {P : Type 0} (w : Wire P) (key : Bytes) (e : Envelope P)
    → IsSignature w.crypto
    → verify w (w.crypto.public_key key) (sign w key e) ≡ true
unfolding verify sign sign_message verify_signature get_signing_data
verify-sign w key e sound =
    let m = get_signing_data w e in
    rw
      (
        to_hex-ne_nil (w.crypto.sign key m) (sound.sign-ne_nil key m),
        from_hex-to_hex (w.crypto.sign key m) (sound.sign-IsBytes key m),
        verify,
      )
      (sound.accepts-sign key m)

-- The origin of an envelope has a key at the peer, the envelope carries a signature of its data
-- under that key, and its time is neither too old nor too far ahead.
abbrev pub Authentic : {P : Type 0} → Wire P → ℕ → Envelope P → GossipPeer P → Type 0
Authentic w now e p =
    ((key : Bytes) × (lookup e.origin_id p.peer_keys ≡ some key)
      × ((signature : Bytes) × (from_hex e.signature ≡ some signature)
          × (w.crypto.accepts key (get_signing_data w e) signature ≡ true)))
    × (now ≤ e.timestamp + max_age)
    × (e.timestamp ≤ now + max_future)

verify_sound :
    {P : Type 0} (w : Wire P) (key : Bytes) (e : Envelope P)
    → verify w key e ≡ true
    → (signature : Bytes) × (from_hex e.signature ≡ some signature)
      × (w.crypto.accepts key (get_signing_data w e) signature ≡ true)
unfolding verify verify_signature
verify_sound w key e h = elim (Option-cases (from_hex e.signature)) [
  | inl bad ↦ ground (arith, bad, h)
  | inr (signature, read) ↦ (signature, read, ground (arith, read, h))
]

is_authentic_sound :
    {P : Type 0} (w : Wire P) (now : ℕ) (e : Envelope P) (p : GossipPeer P)
    → is_authentic w now e p ≡ true
    → Authentic w now e p
unfolding is_authentic validate_timestamp
is_authentic_sound w now e p h = elim (Option-cases (lookup e.origin_id p.peer_keys)) [
  | inl unknown ↦ ground (arith, unknown, h)
  | inr (key, known) ↦ (
    (key, known, verify_sound w key e (ground (arith, known, h))),
    ground (arith, known, h),
    ground (arith, known, h),
  )
]

module _ {P : Type 0} (w : Wire P) (sample : Sampler) (now : ℕ) (sender : Text) where
  -- The peer once the sender is noted and the cache was asked.
  abbrev pub checked : Envelope P → GossipPeer P → GossipPeer P
  checked e p = record (touch_sender now sender p) {
    seen_messages = (has_seen now e.msg_id p.seen_messages).1;
  }

  touch_sender-keys :
      (p : GossipPeer P)
      → ((touch_sender now sender p).peer_keys ≡ p.peer_keys)
        × ((touch_sender now sender p).seen_messages ≡ p.seen_messages)
        × ((touch_sender now sender p).dispatched ≡ p.dispatched)
        × ((touch_sender now sender p).sent ≡ p.sent)
  unfolding touch_sender
  touch_sender-keys p = (ground arith, ground arith, ground arith, ground arith)

  -- `handle_envelope` in terms of the cache and the keys that the peer had.
  pub handle_envelope-eq :
      (e : Envelope P) (p : GossipPeer P)
      → handle_envelope w sample now sender e p ≡ (
          if (has_seen now e.msg_id p.seen_messages).0
          then checked e p
          else if is_authentic w now e p
          then accept w sample now sender e (checked e p)
          else checked e p)
  unfolding handle_envelope is_authentic
  handle_envelope-eq e p = let t = touch_sender-keys p in rw (t.0, t.1) refl

  -- An envelope that was seen before, or whose origin is unknown, whose signature does not
  -- verify or whose time is out of range, is neither dispatched nor forwarded.
  pub handle_envelope_rejected :
      (e : Envelope P) (p : GossipPeer P)
      → ((has_seen now e.msg_id p.seen_messages).0 ≡ true) ⊎ (is_authentic w now e p ≡ false)
      → ((handle_envelope w sample now sender e p).dispatched ≡ p.dispatched)
        × ((handle_envelope w sample now sender e p).sent ≡ p.sent)
  handle_envelope_rejected e p why =
      let t = touch_sender-keys p in
      (ground (arith, handle_envelope-eq e p, t.2), ground (arith, handle_envelope-eq e p, t.3))

  -- If handling an envelope changes what was dispatched or what was sent, then the envelope
  -- had not been seen, its origin has a key at the peer, its signature is one of its signing
  -- data under that key, and its time is at most the maximal age in the past and at most the
  -- allowed span in the future.
  pub handle_envelope-Authentic :
      (e : Envelope P) (p : GossipPeer P)
      → ((handle_envelope w sample now sender e p).dispatched ≢ p.dispatched)
        ⊎ ((handle_envelope w sample now sender e p).sent ≢ p.sent)
      → ((has_seen now e.msg_id p.seen_messages).0 ≡ false) × Authentic w now e p
  handle_envelope-Authentic e p changed =
      elim (Bool-cases (has_seen now e.msg_id p.seen_messages).0) [
        | inl seen ↦ absurd (untouched changed (handle_envelope_rejected e p (inl seen)))
        | inr unseen ↦ elim (Bool-cases (is_authentic w now e p)) [
          | inl good ↦ (unseen, is_authentic_sound w now e p good)
          | inr bad ↦ absurd (untouched changed (handle_envelope_rejected e p (inr bad)))
        ]
      ]
    where
      untouched :
          ((handle_envelope w sample now sender e p).dispatched ≢ p.dispatched)
            ⊎ ((handle_envelope w sample now sender e p).sent ≢ p.sent)
          → ((handle_envelope w sample now sender e p).dispatched ≡ p.dispatched)
            × ((handle_envelope w sample now sender e p).sent ≡ p.sent)
          → ⊥
      untouched (inl c) same = c same.0
      untouched (inr c) same = c same.1
