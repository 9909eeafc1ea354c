-- ===== src/TimeLock/KeyStore.antt =====
-- `KeyStore`: keys with the time at which they expire. Each method holds the lock of the store, so it
-- is one step. `noise` is what `os.urandom` gives.
use trust_flow_chain_of_cust.Prelude.Dict.{
  Dict, lookup, insert, erase, contains, lookup-insert, lookup-erase, IsUnique,
}
use trust_flow_chain_of_cust.Strings.Hex.{Bytes}
use mathlib.Core.Option
use trust_flow_chain_of_cust.Prelude.{
  ltb, if◌then◌else◌, Option-cases, Text, text_eq, is_some, ℕ, ◌≤◌, ◌≡◌, inl, inr, Bool, true,
  false, Option, none, some, List, [], ◌∷◌, arith, elem, refl,
}

pub record KeyEntry : Type 0 where
  pub key : Bytes
  pub expiry : ℕ

-- `KeyStore._secure_wipe`: the key is overwritten before it is deleted.
unfoldable pub secure_wipe : Bytes → Text → Dict KeyEntry → Dict KeyEntry
secure_wipe noise id keys = elim (lookup id keys) [
  | none ↦ keys
  | some e ↦ insert id (record e { key = noise }) keys
]

-- `self._secure_wipe(lock_id)` and `del self._keys[lock_id]`
unfoldable pub drop_key : Bytes → Text → Dict KeyEntry → Dict KeyEntry
unfolding secure_wipe
drop_key noise id keys = erase id (secure_wipe noise id keys)

unfoldable pub store_key : Text → Bytes → ℕ → Dict KeyEntry → Dict KeyEntry
store_key id key expiry keys = insert id (record { key = key; expiry = expiry }) keys

-- `KeyStore.get_key`: an expired key is deleted on the way.
unfoldable pub get_key : Bytes → ℕ → Text → Dict KeyEntry → Option Bytes × Dict KeyEntry
unfolding drop_key
get_key noise now id keys = elim (lookup id keys) [
  | none ↦ (none, keys)
  | some e ↦ if ltb e.expiry now then (none, drop_key noise id keys) else (some e.key, keys)
]

unfoldable pub destroy_key : Bytes → Text → Dict KeyEntry → Bool × Dict KeyEntry
unfolding drop_key
destroy_key noise id keys =
    if contains id keys then (true, drop_key noise id keys) else (false, keys)

unfoldable pub has_key : Bytes → ℕ → Text → Dict KeyEntry → Bool × Dict KeyEntry
unfolding get_key
has_key noise now id keys = (is_some (get_key noise now id keys).0, (get_key noise now id keys).1)

unfoldable pub get_expiry : Text → Dict KeyEntry → Option ℕ
get_expiry id keys = Option.map (λ e. e.expiry) (lookup id keys)

-- The ids of the keys that have expired.
unfoldable pub expired_ids : ℕ → Dict KeyEntry → List Text
expired_ids now [] = []
expired_ids now ((id, e) ∷ keys) =
    let rest = expired_ids now keys in if ltb e.expiry now then id ∷ rest else rest

unfoldable pub drop_keys : Bytes → List Text → Dict KeyEntry → Dict KeyEntry
unfolding drop_key
drop_keys noise [] keys = keys
drop_keys noise (id ∷ ids) keys = drop_keys noise ids (drop_key noise id keys)

-- `KeyStore._cleanup_expired`
unfoldable pub cleanup_expired : Bytes → ℕ → Dict KeyEntry → Dict KeyEntry
cleanup_expired noise now keys = drop_keys noise (expired_ids now keys) keys

-- The key that an id gives at some time, if it has not expired.
unfoldable pub live_key : ℕ → Text → Dict KeyEntry → Option Bytes
live_key now id keys = elim (lookup id keys) [
  | none ↦ none
  | some e ↦ if ltb e.expiry now then none else some e.key
]

pub lookup-drop_key :
    (noise : Bytes) (id j : Text) (keys : Dict KeyEntry)
    → lookup j (drop_key noise id keys) ≡ (if text_eq j id then none else lookup j keys)
unfolding drop_key secure_wipe
lookup-drop_key noise id j keys = elim (Option-cases (lookup id keys)) [
  | inl e ↦ ground (arith, lookup-erase id j keys)
  | inr (k, e) ↦ ground (
    arith,
    lookup-erase id j (insert id (record k { key = noise }) keys),
    lookup-insert id j (record k { key = noise }) keys,
  )
]

pub get_key-live_key :
    (noise : Bytes) (now : ℕ) (id : Text) (keys : Dict KeyEntry)
    → (get_key noise now id keys).0 ≡ live_key now id keys
unfolding get_key live_key
get_key-live_key noise now id keys = ground arith

-- Reading a key keeps every other key, and its own key as seen from then on.
pub live_key-get_key :
    (noise : Bytes) (now later : ℕ) (id j : Text) (keys : Dict KeyEntry)
    → now ≤ later
    → live_key later j (get_key noise now id keys).1 ≡ live_key later j keys
unfolding get_key live_key
live_key-get_key noise now later id j keys h = ground (arith, lookup-drop_key noise id j keys)

lookup-drop_keys :
    (noise : Bytes) (ids : List Text) (j : Text) (keys : Dict KeyEntry)
    → lookup j (drop_keys noise ids keys) ≡ (if elem j ids then none else lookup j keys)
unfolding drop_keys elem
lookup-drop_keys noise [] j keys = refl
lookup-drop_keys noise (id ∷ ids) j keys =
    ground (
      arith,
      lookup-drop_keys noise ids j (drop_key noise id keys),
      lookup-drop_key noise id j keys,
    )

-- Whether an id is listed as expired, when no id is listed twice.
elem-expired_ids :
    (now : ℕ) (j : Text) (keys : Dict KeyEntry)
    → IsUnique keys
    → elem j (expired_ids now keys)
      ≡ elim (lookup j keys) [ none ↦ false | some e ↦ ltb e.expiry now ]
unfolding expired_ids elem lookup
elem-expired_ids now j [] u = refl
elem-expired_ids now j ((id, e) ∷ keys) u = ground (arith, elem-expired_ids now j keys u.1, u.0)

-- If no key is stored twice, a cleanup changes no key as it is seen from its time on.
pub live_key-cleanup_expired :
    (noise : Bytes) (now later : ℕ) (j : Text) (keys : Dict KeyEntry)
    → IsUnique keys
    → now ≤ later
    → live_key later j (cleanup_expired noise now keys) ≡ live_key later j keys
unfolding cleanup_expired live_key
live_key-cleanup_expired noise now later j keys u h =
    ground
      (arith, lookup-drop_keys noise (expired_ids now keys) j keys, elem-expired_ids now j keys u)
