-- ===== src/TimeLock/Life.antt =====
-- The life of a time lock, and what single operations of the engine and of its keys leave of it.
use trust_flow_chain_of_cust.Prelude.Int.{ℤ}
use trust_flow_chain_of_cust.TimeLock.KeyStore.{
  KeyEntry, store_key, get_key, drop_key, drop_keys, secure_wipe, cleanup_expired, expired_ids,
  live_key, lookup-drop_key, live_key-get_key, live_key-cleanup_expired,
}
use trust_flow_chain_of_cust.TimeLock.Engine.{
  Cipher, IsCipher, Engine, EncryptedContent, Fresh, encrypt, decrypt, open_with, encrypt_until,
}
use trust_flow_chain_of_cust.Prelude.Dict.{
  Dict, lookup, insert, lookup-insert, IsUnique, insert-IsUnique, erase-IsUnique,
}
use trust_flow_chain_of_cust.Strings.Hex.{Bytes}
use trust_flow_chain_of_cust.Clock.{TimeFormat, add_seconds}
use trust_flow_chain_of_cust.Prelude.{
  leb, if◌then◌else◌, Option-cases, Text, text_eq_refl, ℕ, ◌≤◌, ◌≡◌, refl, ◌∙◌, ◌≢◌, inl, inr,
  Option, none, some, List, [], ◌∷◌, arith, Text-discrete, sym,
}

-- What is opened depends on the key that is alive.
pub decrypt-live_key :
    (c : Cipher) (noise : Bytes) (now : ℕ) (x : EncryptedContent) (e : Engine)
    → (decrypt c noise now x e).0
      ≡ elim (live_key now x.metadata.lock_id e.keys) [ none ↦ none | some k ↦ open_with c k x ]
unfolding decrypt get_key live_key
decrypt-live_key c noise now x e = ground arith

live_key-store_key :
    (now : ℕ) (id : Text) (key : Bytes) (expiry : ℕ) (ks : Dict KeyEntry)
    → live_key now id (store_key id key expiry ks) ≡ (if leb now expiry then some key else none)
unfolding live_key store_key
live_key-store_key now id key expiry ks =
    ground (arith, lookup-insert id id (record { key = key; expiry = expiry }) ks)

open_with-encrypt_until :
    (c : Cipher) (f : TimeFormat) (r : Fresh) (now expires : ℕ) (content : Text) (ttl_seconds : ℤ)
    (e : Engine)
    → IsCipher c
    → open_with c r.fresh_key (encrypt_until c f r now expires content ttl_seconds e).0
      ≡ some content
unfolding open_with encrypt_until
open_with-encrypt_until c f r now expires content ttl_seconds e sound =
    rw
      (
        sound.unseal-seal r.fresh_key r.fresh_nonce (c.encode content),
        sound.decode-encode content,
        text_eq_refl (c.digest (c.encode content)),
        open_with,
      )
      refl

decrypt-encrypt_until :
    (c : Cipher) (f : TimeFormat) (r : Fresh) (noise : Bytes) (now expires later : ℕ)
    (content : Text) (ttl_seconds : ℤ) (e : Engine)
    → IsCipher c
    → (decrypt c noise later
        (encrypt_until c f r now expires content ttl_seconds e).0
        (encrypt_until c f r now expires content ttl_seconds e).1).0
      ≡ (if leb later expires then some content else none)
decrypt-encrypt_until c f r noise now expires later content ttl_seconds e sound =
    let x = (encrypt_until c f r now expires content ttl_seconds e).0 in
    let e' = (encrypt_until c f r now expires content ttl_seconds e).1 in
    decrypt-live_key c noise later x e'
    ∙ opened (live_key later x.metadata.lock_id e'.keys)
        (open_with-encrypt_until c f r now expires content ttl_seconds e sound)
        (unfold encrypt_until in live_key-store_key later r.fresh_id r.fresh_key expires e.keys)
  where
    opened :
        (o : Option Bytes)
        → open_with c r.fresh_key (encrypt_until c f r now expires content ttl_seconds e).0
          ≡ some content
        → o ≡ (if leb later expires then some r.fresh_key else none)
        → elim o [
          | none ↦ none
          | some k ↦ open_with c k (encrypt_until c f r now expires content ttl_seconds e).0
        ]
          ≡ (if leb later expires then some content else none)
    opened o h q = ground arith

-- For any integer as time to live whose end is a time in range, if the cipher opens what it
-- sealed and UTF-8 reads back, encrypting succeeds, and what it gives opens at any time up to
-- that end, to its content, and later does not open.
pub decrypt-encrypt :
    (c : Cipher) (f : TimeFormat) (r : Fresh) (noise : Bytes) (now expires : ℕ) (content : Text)
    (ttl_seconds : ℤ) (e : Engine)
    → IsCipher c
    → add_seconds now ttl_seconds ≡ some expires
    → (x : EncryptedContent) × (e' : Engine) × (encrypt c f r now content ttl_seconds e
        ≡ some (x, e'))
      × ((later : ℕ)
          → (decrypt c noise later x e').0 ≡ (if leb later expires then some content else none))
decrypt-encrypt c f r noise now expires content ttl_seconds e sound ends = (
  (encrypt_until c f r now expires content ttl_seconds e).0,
  (encrypt_until c f r now expires content ttl_seconds e).1,
  unfold encrypt in rw (ends, encrypt) refl,
  λ later. decrypt-encrypt_until c f r noise now expires later content ttl_seconds e sound,
)

-- What an operation that is not on a lock, or only reads it, keeps of the lock's key; that it stays
-- alive may depend on a condition Q.
pub record Keeps (Q : Type 0) (id : Text) (last : ℕ) (ks ks' : Dict KeyEntry) : Type 0 where
  pub unique : IsUnique ks → IsUnique ks'
  pub absent : lookup id ks ≡ none → lookup id ks' ≡ none
  pub alive :
      Q → (k : Bytes) → IsUnique ks → live_key last id ks ≡ some k → live_key last id ks' ≡ some k

pub same-Keeps : {Q : Type 0} (id : Text) (last : ℕ) (ks : Dict KeyEntry) → Keeps Q id last ks ks
same-Keeps id last ks = record { unique = λ u. u; absent = λ a. a; alive = λ q k u l. l }

pub Keeps-trans :
    {Q : Type 0} (id : Text) (last : ℕ) (a b c : Dict KeyEntry)
    → Keeps Q id last a b
    → Keeps Q id last b c
    → Keeps Q id last a c
Keeps-trans id last a b c p q = record {
  unique = λ u. q.unique (p.unique u);
  absent = λ l. q.absent (p.absent l);
  alive = λ r k u l. q.alive r k (p.unique u) (p.alive r k u l);
}

drop_key-IsUnique :
    (noise : Bytes) (j : Text) (ks : Dict KeyEntry) → IsUnique ks → IsUnique (drop_key noise j ks)
unfolding drop_key secure_wipe
drop_key-IsUnique noise j ks u = elim (Option-cases (lookup j ks)) [
  | inl e ↦ rw (e, secure_wipe) (erase-IsUnique j ks u)
  | inr (k, e) ↦
      rw (e, secure_wipe)
        (erase-IsUnique j (insert j (record k { key = noise }) ks)
          (insert-IsUnique j (record k { key = noise }) ks u))
]

drop_keys-IsUnique :
    (noise : Bytes) (ids : List Text) (ks : Dict KeyEntry)
    → IsUnique ks
    → IsUnique (drop_keys noise ids ks)
unfolding drop_keys
drop_keys-IsUnique noise [] ks u = u
drop_keys-IsUnique noise (j ∷ ids) ks u =
    drop_keys-IsUnique noise ids (drop_key noise j ks) (drop_key-IsUnique noise j ks u)

drop_keys-absent :
    (noise : Bytes) (ids : List Text) (id : Text) (ks : Dict KeyEntry)
    → lookup id ks ≡ none
    → lookup id (drop_keys noise ids ks) ≡ none
unfolding drop_keys
drop_keys-absent noise [] id ks a = a
drop_keys-absent noise (j ∷ ids) id ks a =
    drop_keys-absent noise ids id (drop_key noise j ks)
      (ground (arith, lookup-drop_key noise j id ks))

get_key-IsUnique :
    (noise : Bytes) (now : ℕ) (j : Text) (ks : Dict KeyEntry)
    → IsUnique ks
    → IsUnique (get_key noise now j ks).1
unfolding get_key
get_key-IsUnique noise now j ks u = ground (arith, drop_key-IsUnique noise j ks u)

pub get_key-Keeps :
    {Q : Type 0} (id : Text) (last : ℕ) (noise : Bytes) (now : ℕ) (j : Text) (ks : Dict KeyEntry)
    → now ≤ last
    → Keeps Q id last ks (get_key noise now j ks).1
get_key-Keeps id last noise now j ks h = record {
  unique = get_key-IsUnique noise now j ks;
  absent = λ a. unfold get_key in ground (arith, lookup-drop_key noise j id ks);
  alive = λ q k u l. live_key-get_key noise now last j id ks h ∙ l;
}

live_key-same :
    (id : Text) (last : ℕ) (ks ks' : Dict KeyEntry)
    → lookup id ks' ≡ lookup id ks
    → live_key last id ks' ≡ live_key last id ks
unfolding live_key
live_key-same id last ks ks' same = rw (same, live_key) refl

-- An operation that leaves the lock's own entry as it is.
unchanged-Keeps :
    {Q : Type 0} (id : Text) (last : ℕ) (ks ks' : Dict KeyEntry)
    → (IsUnique ks → IsUnique ks')
    → lookup id ks' ≡ lookup id ks
    → Keeps Q id last ks ks'
unchanged-Keeps id last ks ks' unique same = record {
  unique = unique;
  absent = λ a. same ∙ a;
  alive = λ q k u l. live_key-same id last ks ks' same ∙ l;
}

pub drop_other-Keeps :
    {Q : Type 0} (id : Text) (last : ℕ) (noise : Bytes) (j : Text) (ks : Dict KeyEntry)
    → id ≢ j
    → Keeps Q id last ks (drop_key noise j ks)
drop_other-Keeps id last noise j ks other =
    unchanged-Keeps id last ks _ (drop_key-IsUnique noise j ks)
      (ground (arith, lookup-drop_key noise j id ks))

pub store_other-Keeps :
    {Q : Type 0} (id : Text) (last : ℕ) (j : Text) (key : Bytes) (expiry : ℕ) (ks : Dict KeyEntry)
    → id ≢ j
    → Keeps Q id last ks (store_key j key expiry ks)
unfolding store_key
store_other-Keeps id last j key expiry ks other =
    unchanged-Keeps id last ks _ (insert-IsUnique j (record { key = key; expiry = expiry }) ks)
      (ground (arith, lookup-insert j id (record { key = key; expiry = expiry }) ks))

live_key-prolong :
    (id : Text) (last : ℕ) (old : KeyEntry) (expiry : ℕ) (ks : Dict KeyEntry)
    → old.expiry ≤ expiry
    → lookup id ks ≡ some old
    → (k : Bytes) → live_key last id ks ≡ some k
    → live_key last id (insert id (record { key = old.key; expiry = expiry }) ks) ≡ some k
unfolding live_key
live_key-prolong id last old expiry ks more found k l =
    ground (arith, lookup-insert id id (record { key = old.key; expiry = expiry }) ks)

-- Giving a key that is there another expiry, which is not earlier if the lock is the one that is
-- looked at.
pub prolong-Keeps :
    {Q : Type 0} (id : Text) (last : ℕ) (j : Text) (old : KeyEntry) (expiry : ℕ)
    (ks : Dict KeyEntry)
    → lookup j ks ≡ some old
    → (Q → id ≡ j → old.expiry ≤ expiry)
    → Keeps Q id last ks (store_key j old.key expiry ks)
prolong-Keeps id last j old expiry ks found more = elim (Text-discrete id j) [
  | yes same ↦ record {
    unique = unfold store_key in insert-IsUnique j (record { key = old.key; expiry = expiry }) ks;
    absent = λ a. absurd (clash (lookup j ks) found (rw (sym same) a));
    alive = λ q k u l.
        unfold store_key in
        rw (sym same) (live_key-prolong id last old expiry ks (more q same) (rw same found) k l);
  }
  | no other ↦ store_other-Keeps id last j old.key expiry ks other
]
  where
    clash : (o : Option KeyEntry) → o ≡ some old → o ≡ none → ⊥
    clash o s n = cc

pub cleanup-Keeps :
    {Q : Type 0} (id : Text) (last : ℕ) (noise : Bytes) (now : ℕ) (ks : Dict KeyEntry)
    → now ≤ last
    → Keeps Q id last ks (cleanup_expired noise now ks)
cleanup-Keeps id last noise now ks h = record {
  unique = λ u. unfold cleanup_expired in drop_keys-IsUnique noise (expired_ids now ks) ks u;
  absent = λ a. unfold cleanup_expired in drop_keys-absent noise (expired_ids now ks) id ks a;
  alive = λ q k u l. live_key-cleanup_expired noise now last id ks u h ∙ l;
}
