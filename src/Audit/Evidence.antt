-- ===== src/Audit/Evidence.antt =====
-- What the chain of hashes shows: appending keeps a log valid, and the last hash fixes the whole log.
use trust_flow_chain_of_cust.Audit.Chain.{
  LogEntry, Digest, content_hash, last_hash, append, verify_from, verify,
}
use mathlib.Core.Path.{subst}
use mathlib.Core.List.{append_assoc, append-nil}
use trust_flow_chain_of_cust.Prelude.{
  Text, Text-discrete, ◌≡◌, refl, sym, ap, ◌∙◌, ◌≢◌, ◌⊎◌, inl, inr, true, List, [], ◌∷◌, ◌++◌,
  arith,
}

-- Two different texts with one hash.
unfoldable pub Collision : {D : Type 0} → Digest D → Type 0
Collision g = (a : Text) × (b : Text) × (a ≢ b) × (g.sha256 a ≡ g.sha256 b)

-- What the program relies on: a hash is 64 digits, and JSON keeps what it writes apart.
pub record IsDigest {D : Type 0} (g : Digest D) : Type 0 where
  pub sha256-ne_nil : (m : Text) → g.sha256 m ≢ []
  pub dumps-injective :
      (d d' : D) (t t' p p' : Text)
      → g.dumps d t p ≡ g.dumps d' t' p'
      → (d ≡ d') × (t ≡ t') × (p ≡ p')

module _ {D : Type 0} (g : Digest D) where
  -- The hash that the entries leave, when the one before them left `prev`.
  unfoldable left_hash : Text → List (LogEntry D) → Text
  left_hash prev [] = prev
  left_hash prev (e ∷ es) = left_hash e.entry_hash es

  last_hash-left :
      (e : LogEntry D) (es : List (LogEntry D)) → last_hash g (e ∷ es) ≡ left_hash e.entry_hash es
  unfolding last_hash left_hash
  last_hash-left e [] = refl
  last_hash-left e (f ∷ es) = last_hash-left f es

  left_hash-last : (es : List (LogEntry D)) → left_hash [] es ≡ last_hash g es
  unfolding last_hash left_hash
  left_hash-last [] = refl
  left_hash-last (e ∷ es) = sym (last_hash-left e es)

  last_hash-snoc :
      (es : List (LogEntry D)) (e : LogEntry D) → last_hash g (es ++ e ∷ []) ≡ e.entry_hash
  unfolding last_hash
  last_hash-snoc [] e = refl
  last_hash-snoc (f ∷ []) e = refl
  last_hash-snoc (f ∷ h ∷ es) e = last_hash-snoc (h ∷ es) e

  verify_from-snoc :
      (prev : Text) (es : List (LogEntry D)) (e : LogEntry D)
      → e.prev_hash ≡ left_hash prev es
      → e.entry_hash ≡ content_hash g e.data_ e.timestamp e.prev_hash
      → verify_from g prev (es ++ e ∷ []) ≡ verify_from g prev es
  unfolding verify_from left_hash
  verify_from-snoc prev [] e linked hashed = ground arith
  verify_from-snoc prev (f ∷ es) e linked hashed =
      ground (arith, verify_from-snoc f.entry_hash es e linked hashed)

  -- A log verifies after an entry is appended exactly when it verified before.
  pub verify-append :
      (timestamp : Text) (d : D) (es : List (LogEntry D))
      → verify g (append g timestamp d es).0 ≡ verify g es
  verify-append timestamp d es =
      unfold append verify in
      verify_from-snoc [] es
        (record {
          data_ = d;
          timestamp = timestamp;
          prev_hash = last_hash g es;
          entry_hash = content_hash g d timestamp (last_hash g es);
        })
        (sym (left_hash-last es)) refl

  -- A log that was built entry by entry, each with its hash.
  data Chain : List (LogEntry D) → Type 0 where
    start : Chain []
    link :
        {es : List (LogEntry D)} (e : LogEntry D)
        → Chain es
        → e.prev_hash ≡ last_hash g es
        → e.entry_hash ≡ content_hash g e.data_ e.timestamp e.prev_hash
        → Chain (es ++ e ∷ [])

  verify_from-head :
      (prev : Text) (f : LogEntry D) (fs : List (LogEntry D))
      → verify_from g prev (f ∷ fs) ≡ true
      → (f.prev_hash ≡ prev)
        × (f.entry_hash ≡ content_hash g f.data_ f.timestamp f.prev_hash)
        × (verify_from g f.entry_hash fs ≡ true)
  unfolding verify_from
  verify_from-head prev f fs v = (ground arith, ground arith, ground arith)

  verify_from-Chain :
      (es fs : List (LogEntry D))
      → Chain es
      → verify_from g (last_hash g es) fs ≡ true
      → Chain (es ++ fs)
  verify_from-Chain es [] c v = subst Chain (sym (append-nil es)) c
  verify_from-Chain es (f ∷ fs) c v =
      let parts = verify_from-head (last_hash g es) f fs v in
      subst Chain (append_assoc es (f ∷ []) fs) (
        verify_from-Chain (es ++ f ∷ []) fs (link f c parts.0 parts.1)
          (ap (λ h. verify_from g h fs) (last_hash-snoc es f) ∙ parts.2))

  verify-Chain : (es : List (LogEntry D)) → verify g es ≡ true → Chain es
  unfolding verify last_hash
  verify-Chain es v = verify_from-Chain [] es start v

  -- Two contents with one hash are the same, or show a collision.
  content_hash-injective :
      IsDigest g
      → (d d' : D) (t t' p p' : Text) → content_hash g d t p ≡ content_hash g d' t' p'
      → ((d ≡ d') × (t ≡ t') × (p ≡ p')) ⊎ Collision g
  unfolding content_hash Collision
  content_hash-injective h d d' t t' p p' e =
      elim (Text-discrete (g.dumps d t p) (g.dumps d' t' p')) [
        | yes same ↦ inl (h.dumps-injective d d' t t' p p' same)
        | no other ↦ inr (g.dumps d t p, g.dumps d' t' p', other, e)
      ]

  Chain-unique :
      IsDigest g
      → (es fs : List (LogEntry D)) → Chain es
      → Chain fs
      → last_hash g es ≡ last_hash g fs
      → (es ≡ fs) ⊎ Collision g
  unfolding content_hash last_hash
  Chain-unique h _ _ start start q = inl refl
  Chain-unique h _ _ start (link {es = fs} f c linked hashed) q =
      absurd (h.sha256-ne_nil _ (sym hashed ∙ sym (last_hash-snoc fs f) ∙ sym q))
  Chain-unique h _ _ (link {es} e c linked hashed) start q =
      absurd (h.sha256-ne_nil _ (sym hashed ∙ sym (last_hash-snoc es e) ∙ q))
  Chain-unique h _ _ (link {es} e c linked hashed) (link {es = fs} f k linked' hashed') q =
      elim (content_hash-injective h e.data_ f.data_ e.timestamp f.timestamp e.prev_hash f.prev_hash
        (sym hashed ∙ same_hash ∙ hashed')) [
          | inr collision ↦ inr collision
          | inl (d, t, p) ↦ elim (Chain-unique h es fs c k (sym linked ∙ p ∙ linked')) [
            | inr collision ↦ inr collision
            | inl same ↦ inl (λ i. same i ++ same_entry d t p i ∷ [])
          ]
        ]
    where
      same_hash : e.entry_hash ≡ f.entry_hash
      same_hash = sym (last_hash-snoc es e) ∙ q ∙ last_hash-snoc fs f

      same_entry : e.data_ ≡ f.data_ → e.timestamp ≡ f.timestamp → e.prev_hash ≡ f.prev_hash → e ≡ f
      same_entry d t p =
          λ i. record { data_ = d i; timestamp = t i; prev_hash = p i; entry_hash = same_hash i }

  -- Two logs that verify and end with one hash are the same, entry by entry, or show two
  -- different texts with one SHA-256, if no hash is empty and JSON keeps what it writes apart.
  pub verify_unique :
      IsDigest g
      → (es fs : List (LogEntry D)) → verify g es ≡ true
      → verify g fs ≡ true
      → last_hash g es ≡ last_hash g fs
      → (es ≡ fs) ⊎ Collision g
  verify_unique h es fs v v' q = Chain-unique h es fs (verify-Chain es v) (verify-Chain fs v') q
