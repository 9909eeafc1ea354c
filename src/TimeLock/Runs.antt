-- ===== src/TimeLock/Runs.antt =====
-- Rows of operations on the time locks, and what they leave of one lock.
use trust_flow_chain_of_cust.Prelude.Int.{ℤ}
use trust_flow_chain_of_cust.TimeLock.KeyStore.{
  KeyEntry, store_key, get_key, destroy_key, has_key, get_expiry, cleanup_expired, live_key,
  lookup-drop_key,
}
use trust_flow_chain_of_cust.TimeLock.Engine.{
  Cipher, Engine, EncryptedContent, Fresh, encrypt, decrypt, destroy, get_status, extend_ttl,
  encrypt_until,
}
use trust_flow_chain_of_cust.TimeLock.Life.{
  Keeps, same-Keeps, Keeps-trans, get_key-Keeps, drop_other-Keeps, store_other-Keeps, prolong-Keeps,
  cleanup-Keeps, decrypt-live_key,
}
use trust_flow_chain_of_cust.Prelude.Dict.{lookup, contains, IsUnique, Dict}
use trust_flow_chain_of_cust.Strings.Hex.{Bytes}
use trust_flow_chain_of_cust.Clock.{TimeFormat, IsNonNegative, add_seconds, add_seconds-le}
use trust_flow_chain_of_cust.Prelude.{
  ltb, Bool-cases, Option-cases, Text, ℕ, ◌≤◌, ◌≡◌, refl, sym, ap, ◌∙◌, ◌≢◌, ◌⊎◌, inl, inr, Bool,
  true, false, Option, none, some, arith,
}

-- Any extension is allowed.
abbrev pub AnyExtension : ℤ → Type 0
AnyExtension more = Unit {0}

-- What P allows makes no life shorter.
abbrev Prolongs : (ℤ → Type 0) → Type 0
Prolongs P = (more : ℤ) → P more → IsNonNegative more

-- What is done between two looks at a lock: anything to other locks, and to this one all but
-- encrypting under its id again, destroying it or extending its life by what P does not allow;
-- nothing later than `last`.
pub data Step (c : Cipher) (f : TimeFormat) (P : ℤ → Type 0) (id : Text) (last : ℕ) (e : Engine)
    : Engine → Type 0 where
  lock :
      (r : Fresh) (now : ℕ) (content : Text) (ttl : ℤ) (x : EncryptedContent) {u : Engine}
      → id ≢ r.fresh_id
      → encrypt c f r now content ttl e ≡ some (x, u)
      → Step c f P id last e u
  open_lock :
      (noise : Bytes) (now : ℕ) (x : EncryptedContent)
      → now ≤ last
      → Step c f P id last e (decrypt c noise now x e).1
  destroy_other : (noise : Bytes) (j : Text) → id ≢ j → Step c f P id last e (destroy noise j e).1
  ask :
      (noise : Bytes) (now : ℕ) (j : Text)
      → now ≤ last
      → Step c f P id last e (get_status noise now j e).1
  extend :
      (noise : Bytes) (now : ℕ) (j : Text) (more : ℤ)
      → now ≤ last
      → (id ≡ j → P more)
      → Step c f P id last e (extend_ttl f noise now j more e).1
  clean :
      (noise : Bytes) (now : ℕ)
      → now ≤ last
      → Step c f P id last e (record e { keys = cleanup_expired noise now e.keys })

decrypt-Keeps :
    {Q : Type 0} (c : Cipher) (id : Text) (last : ℕ) (noise : Bytes) (now : ℕ)
    (x : EncryptedContent) (e : Engine)
    → now ≤ last
    → Keeps Q id last e.keys (decrypt c noise now x e).1.keys
decrypt-Keeps {Q} c id last noise now x e h =
    carried (get_key noise now x.metadata.lock_id e.keys).0 refl
      (get_key-Keeps id last noise now x.metadata.lock_id e.keys h)
  where
    carried :
        (o : Option Bytes)
        → (get_key noise now x.metadata.lock_id e.keys).0 ≡ o
        → Keeps Q id last e.keys (get_key noise now x.metadata.lock_id e.keys).1
        → Keeps Q id last e.keys (decrypt c noise now x e).1.keys
    carried none q k = unfold decrypt in rw (q, decrypt) k
    carried (some key) q k = unfold decrypt in rw (q, decrypt) k

destroy-Keeps :
    {Q : Type 0} (id : Text) (last : ℕ) (noise : Bytes) (j : Text) (e : Engine)
    → id ≢ j
    → Keeps Q id last e.keys (destroy noise j e).1.keys
destroy-Keeps {Q} id last noise j e other = carried (contains j e.keys) refl
  where
    carried : (b : Bool) → contains j e.keys ≡ b → Keeps Q id last e.keys (destroy noise j e).1.keys
    carried true q =
        unfold destroy destroy_key in
        rw (q, destroy) (drop_other-Keeps id last noise j e.keys other)
    carried false q = unfold destroy destroy_key in rw (q, destroy) (same-Keeps id last e.keys)

get_status-keys :
    (noise : Bytes) (now : ℕ) (j : Text) (e : Engine)
    → ((get_status noise now j e).1.keys ≡ e.keys)
      ⊎ ((get_status noise now j e).1.keys ≡ (get_key noise now j e.keys).1)
unfolding get_status has_key
get_status-keys noise now j e = ground arith

get_status-Keeps :
    {Q : Type 0} (id : Text) (last : ℕ) (noise : Bytes) (now : ℕ) (j : Text) (e : Engine)
    → now ≤ last
    → Keeps Q id last e.keys (get_status noise now j e).1.keys
get_status-Keeps id last noise now j e h = elim (get_status-keys noise now j e) [
  | inl same ↦ rw same (same-Keeps id last e.keys)
  | inr read ↦ rw read (get_key-Keeps id last noise now j e.keys h)
]

-- The keys after `extend_ttl`, whether the lock has no key, an expired one, or one that is alive.
extend_ttl-missing :
    (f : TimeFormat) (noise : Bytes) (now : ℕ) (j : Text) (more : ℤ) (e : Engine)
    → (get_key noise now j e.keys).0 ≡ none
    → (extend_ttl f noise now j more e).1.keys ≡ (get_key noise now j e.keys).1
unfolding extend_ttl
extend_ttl-missing f noise now j more e q = rw (q, extend_ttl) refl

get_key-alive :
    (noise : Bytes) (now : ℕ) (j : Text) (ks : Dict KeyEntry) (old : KeyEntry)
    → lookup j ks ≡ some old
    → ltb old.expiry now ≡ false
    → get_key noise now j ks ≡ (some old.key, ks)
unfolding get_key
get_key-alive noise now j ks old found alive = rw (found, get_key) (rw alive refl)

extend_ttl-raises :
    (f : TimeFormat) (noise : Bytes) (now : ℕ) (j : Text) (more : ℤ) (e : Engine) (old : KeyEntry)
    → lookup j e.keys ≡ some old
    → ltb old.expiry now ≡ false
    → add_seconds old.expiry more ≡ none
    → (extend_ttl f noise now j more e).1.keys ≡ e.keys
unfolding extend_ttl get_expiry
extend_ttl-raises f noise now j more e old found alive out =
    let q = get_key-alive noise now j e.keys old found alive in
    rw (ap (λ r. r.0) q, ap (λ r. r.1) q, extend_ttl)
      (rw (found, get_expiry) (rw (out, extend_ttl) (ap (λ r. r.1) q)))

extend_ttl-alive :
    (f : TimeFormat) (noise : Bytes) (now : ℕ) (j : Text) (more : ℤ) (e : Engine) (old : KeyEntry)
    (expiry : ℕ)
    → lookup j e.keys ≡ some old
    → ltb old.expiry now ≡ false
    → add_seconds old.expiry more ≡ some expiry
    → (extend_ttl f noise now j more e).1.keys ≡ store_key j old.key expiry e.keys
unfolding extend_ttl get_expiry
extend_ttl-alive f noise now j more e old expiry found alive ends =
    let q = get_key-alive noise now j e.keys old found alive in
    rw (ap (λ r. r.0) q, ap (λ r. r.1) q, extend_ttl)
      (rw (found, get_expiry) (rw (ends, extend_ttl) (ap (λ r. store_key j old.key expiry r.1) q)))

-- The life of the lock that is looked at is not made shorter under the condition Q.
extend_ttl-Keeps :
    {Q : Type 0} (f : TimeFormat) (id : Text) (last : ℕ) (noise : Bytes) (now : ℕ) (j : Text)
    (more : ℤ) (e : Engine)
    → now ≤ last
    → (Q → id ≡ j → IsNonNegative more)
    → Keeps Q id last e.keys (extend_ttl f noise now j more e).1.keys
extend_ttl-Keeps f id last noise now j more e h longer = elim (Option-cases (lookup j e.keys)) [
  | inl missing ↦
      rw (extend_ttl-missing f noise now j more e (unfold get_key in rw (missing, get_key) refl))
        (get_key-Keeps id last noise now j e.keys h)
  | inr (old, found) ↦ elim (Bool-cases (ltb old.expiry now)) [
    | inl late ↦
        rw
          (extend_ttl-missing f noise now j more e
            (unfold get_key in rw (found, get_key) (rw late refl)))
          (get_key-Keeps id last noise now j e.keys h)
    | inr alive ↦ elim (Option-cases (add_seconds old.expiry more)) [
      | inl out ↦
          rw (extend_ttl-raises f noise now j more e old found alive out)
            (same-Keeps id last e.keys)
      | inr (expiry, ends) ↦
          rw (extend_ttl-alive f noise now j more e old expiry found alive ends) (
            prolong-Keeps id last j old expiry e.keys found
              (λ q same. add_seconds-le old.expiry more expiry ends (longer q same)))
    ]
  ]
]

encrypt-keys :
    (c : Cipher) (f : TimeFormat) (r : Fresh) (now : ℕ) (content : Text) (ttl : ℤ)
    (x : EncryptedContent) (e u : Engine)
    → encrypt c f r now content ttl e ≡ some (x, u)
    → (expires : ℕ) × (u.keys ≡ store_key r.fresh_id r.fresh_key expires e.keys)
unfolding encrypt encrypt_until
encrypt-keys c f r now content ttl x e u made = elim (Option-cases (add_seconds now ttl)) [
  | inl out ↦ absurd (ground (arith, out, made))
  | inr (expires, ends) ↦ (expires, ground (arith, ends, made))
]

encrypt-Keeps :
    {Q : Type 0} (c : Cipher) (f : TimeFormat) (id : Text) (last : ℕ) (r : Fresh) (now : ℕ)
    (content : Text) (ttl : ℤ) (x : EncryptedContent) (e u : Engine)
    → id ≢ r.fresh_id
    → encrypt c f r now content ttl e ≡ some (x, u)
    → Keeps Q id last e.keys u.keys
encrypt-Keeps c f id last r now content ttl x e u other made =
    let (expires, stored) = encrypt-keys c f r now content ttl x e u made in
    rw stored (store_other-Keeps id last r.fresh_id r.fresh_key expires e.keys other)

Step-Keeps :
    {c : Cipher} {f : TimeFormat} {P : ℤ → Type 0} {id : Text} {last : ℕ} {e e' : Engine}
    → Step c f P id last e e'
    → Keeps (Prolongs P) id last e.keys e'.keys
Step-Keeps {c} {f} {P} {id} {last} {e} (lock r now content ttl x {u} other made) =
    encrypt-Keeps c f id last r now content ttl x e u other made
Step-Keeps {c} {f} {P} {id} {last} {e} (open_lock noise now x h) =
    decrypt-Keeps c id last noise now x e h
Step-Keeps {c} {f} {P} {id} {last} {e} (destroy_other noise j other) =
    destroy-Keeps id last noise j e other
Step-Keeps {c} {f} {P} {id} {last} {e} (ask noise now j h) =
    get_status-Keeps id last noise now j e h
Step-Keeps {c} {f} {P} {id} {last} {e} (extend noise now j more h allowed) =
    extend_ttl-Keeps f id last noise now j more e h (λ q same. q more (allowed same))
Step-Keeps {c} {f} {P} {id} {last} {e} (clean noise now h) =
    cleanup-Keeps id last noise now e.keys h

pub data Run (c : Cipher) (f : TimeFormat) (P : ℤ → Type 0) (id : Text) (last : ℕ) (e : Engine)
    : Engine → Type 0 where
  here : Run c f P id last e e
  next : {u v : Engine} → Run c f P id last e u → Step c f P id last u v → Run c f P id last e v

Run-Keeps :
    {c : Cipher} {f : TimeFormat} {P : ℤ → Type 0} {id : Text} {last : ℕ} {e e' : Engine}
    → Run c f P id last e e'
    → Keeps (Prolongs P) id last e.keys e'.keys
Run-Keeps {c} {f} {P} {id} {last} {e} here = same-Keeps id last e.keys
Run-Keeps {c} {f} {P} {id} {last} {e} (next {u} {v} run st) =
    Keeps-trans id last e.keys u.keys v.keys (Run-Keeps run) (Step-Keeps st)

-- If no key is stored twice and the key of a lock is alive at a time `last`, then opening the
-- lock at that time gives the same before and after any row of operations up to that time that
-- do not destroy the lock, encrypt under its id or extend its life by a negative number.
pub decrypt_until :
    {c : Cipher} {f : TimeFormat} (x : EncryptedContent) (last : ℕ) (noise noise' : Bytes)
    {e e' : Engine} (key : Bytes)
    → IsUnique e.keys
    → live_key last x.metadata.lock_id e.keys ≡ some key
    → Run c f IsNonNegative x.metadata.lock_id last e e'
    → (decrypt c noise last x e').0 ≡ (decrypt c noise' last x e).0
decrypt_until {c} x last noise noise' {e} {e'} key u l run =
    let k = (Run-Keeps run).alive (λ more h. h) key u l in
    decrypt-live_key c noise last x e' ∙ rw (k, l) refl ∙ sym (decrypt-live_key c noise' last x e)

destroyed_absent :
    (noise : Bytes) (id : Text) (e : Engine) → lookup id (destroy noise id e).1.keys ≡ none
destroyed_absent noise id e =
    unfold destroy destroy_key in ground (arith, lookup-drop_key noise id id e.keys)

-- A lock that was destroyed does not open at a time `last`, after any row of operations up to
-- that time that neither encrypt under its id again nor destroy it again; extensions of its
-- life may be by any integer.
pub decrypt-destroy :
    {c : Cipher} {f : TimeFormat} (x : EncryptedContent) (last : ℕ) (noise noise' : Bytes)
    (e : Engine) {e' : Engine}
    → Run c f AnyExtension x.metadata.lock_id last (destroy noise x.metadata.lock_id e).1 e'
    → (decrypt c noise' last x e').0 ≡ none
decrypt-destroy {c} {f} x last noise noise' e {e'} run =
    let a = (Run-Keeps run).absent (destroyed_absent noise x.metadata.lock_id e) in
    decrypt-live_key c noise' last x e' ∙ (unfold live_key in rw a refl)
