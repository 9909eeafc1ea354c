-- ===== src/TimeLock/Engine.antt =====
-- `TimeLockMetadata`, `EncryptedContent` and `TimeLockEngine`. AES-GCM and UTF-8 are not this
-- program's code: they are a record of functions. Texts are those that UTF-8 can encode.
use trust_flow_chain_of_cust.Prelude.Int.{ℤ, ◌+ℤ◌}
use trust_flow_chain_of_cust.TimeLock.KeyStore.{
  KeyEntry, store_key, get_key, destroy_key, has_key, get_expiry,
}
use trust_flow_chain_of_cust.Prelude.Dict.{Dict, lookup, insert}
use trust_flow_chain_of_cust.Strings.Hex.{Bytes}
use trust_flow_chain_of_cust.Clock.{TimeFormat, add_seconds}
use mathlib.Core.Option
use trust_flow_chain_of_cust.Prelude.{
  ltb, if◌then◌else◌, Text, text_eq, ℕ, ◌-◌, ◌≡◌, Bool, true, false, Option, none, some,
}

pub record Cipher : Type 0 where
  -- `AESGCM(key).encrypt(nonce, plaintext, None)`
  pub seal : Bytes → Bytes → Bytes → Bytes
  -- `AESGCM(key).decrypt(nonce, ciphertext, None)`, `none` where it raises
  pub unseal : Bytes → Bytes → Bytes → Option Bytes
  -- `content.encode('utf-8')` and `plaintext.decode('utf-8')`
  pub encode : Text → Bytes
  pub decode : Bytes → Option Text
  -- `hashlib.sha256(plaintext).hexdigest()`
  pub digest : Bytes → Text

-- What the program relies on: what was encrypted opens under the same key and nonce.
pub record IsCipher (c : Cipher) : Type 0 where
  pub unseal-seal : (k n p : Bytes) → c.unseal k n (c.seal k n p) ≡ some p
  pub decode-encode : (s : Text) → c.decode (c.encode s) ≡ some s

-- The values of the metadata's `status`.
pub data LockState : Type 0 where
  marked_active marked_expired marked_destroyed : LockState

pub record Metadata : Type 0 where
  pub lock_id : Text
  pub content_hash : Text
  pub created_at : Text
  pub expires_at : Text
  pub ttl_seconds : ℤ
  pub status : LockState

-- `TimeLockMetadata.is_expired`, `none` where the text does not parse
unfoldable pub is_expired : TimeFormat → ℕ → Metadata → Option Bool
is_expired f now m = Option.map (λ expires. ltb expires now) (f.fromisoformat m.expires_at)

pub record EncryptedContent : Type 0 where
  pub ciphertext : Bytes
  pub nonce : Bytes
  pub metadata : Metadata

-- `TimeLockEngine`; its callbacks are kept and never called, and are left out.
pub record Engine : Type 0 where
  pub keys : Dict KeyEntry
  pub metadata_store : Dict Metadata

-- `TimeLockStatus`
pub data Status : Type 0 where
  active expired destroyed : Status

-- The random values of one call of `encrypt`.
pub record Fresh : Type 0 where
  pub fresh_id : Text
  pub fresh_key : Bytes
  pub fresh_nonce : Bytes

-- `encrypt` from the time of expiry on.
unfoldable pub encrypt_until :
    Cipher → TimeFormat → Fresh → ℕ → ℕ → Text → ℤ → Engine → EncryptedContent × Engine
unfolding store_key
encrypt_until c f r now expires content ttl_seconds e =
    let plaintext = c.encode content in
    let metadata : Metadata = record {
      lock_id = r.fresh_id;
      content_hash = c.digest plaintext;
      created_at = f.isoformat now;
      expires_at = f.isoformat expires;
      ttl_seconds = ttl_seconds;
      status = marked_active;
    } in
    (
      record {
        ciphertext = c.seal r.fresh_key r.fresh_nonce plaintext;
        nonce = r.fresh_nonce;
        metadata = metadata;
      },
      record {
        keys = store_key r.fresh_id r.fresh_key expires e.keys;
        metadata_store = insert r.fresh_id metadata e.metadata_store;
      },
    )

-- `encrypt`, for any integer; `none` where the expiry is out of range, which raises
unfoldable pub encrypt :
    Cipher → TimeFormat → Fresh → ℕ → Text → ℤ → Engine → Option (EncryptedContent × Engine)
unfolding encrypt_until
encrypt c f r now content ttl_seconds e = elim (add_seconds now ttl_seconds) [
  | none ↦ none
  | some expires ↦ some (encrypt_until c f r now expires content ttl_seconds e)
]

-- A lock whose key is gone is marked as expired, unless it is marked as destroyed.
unfoldable pub mark_expired : Text → Dict Metadata → Dict Metadata
mark_expired id store = elim (lookup id store) [
  | none ↦ store
  | some m ↦ elim m.status [
    | marked_destroyed ↦ store
    | _ ↦ insert id (record m { status = marked_expired }) store
  ]
]

-- Opening a ciphertext with its key: an exception gives `none`, as does another hash.
unfoldable pub open_with : Cipher → Bytes → EncryptedContent → Option Text
open_with c key x = elim (c.unseal key x.nonce x.ciphertext) [
  | none ↦ none
  | some plaintext ↦ elim (c.decode plaintext) [
    | none ↦ none
    | some content ↦
        if text_eq (c.digest plaintext) x.metadata.content_hash then some content else none
  ]
]

unfoldable pub decrypt : Cipher → Bytes → ℕ → EncryptedContent → Engine → Option Text × Engine
unfolding get_key mark_expired open_with
decrypt c noise now x e =
    let id = x.metadata.lock_id in
    let (found, keys) = get_key noise now id e.keys in
    elim found [
      | none ↦ (none, record { keys = keys; metadata_store = mark_expired id e.metadata_store })
      | some key ↦ (open_with c key x, record e { keys = keys })
    ]

unfoldable pub destroy : Bytes → Text → Engine → Bool × Engine
unfolding destroy_key
destroy noise id e =
    let (success, keys) = destroy_key noise id e.keys in
    (
      success,
      record {
        keys = keys;
        metadata_store =
            if success
            then elim (lookup id e.metadata_store) [
              | none ↦ e.metadata_store
              | some m ↦ insert id (record m { status = marked_destroyed }) e.metadata_store
            ]
            else e.metadata_store;
      },
    )

unfoldable pub get_status : Bytes → ℕ → Text → Engine → Status × Engine
unfolding has_key
get_status noise now id e = elim (lookup id e.metadata_store) [
  | none ↦ (destroyed, e)
  | some m ↦ elim m.status [
    | marked_destroyed ↦ (destroyed, e)
    | _ ↦
        let (alive, keys) = has_key noise now id e.keys in
        (if alive then active else expired, record e { keys = keys })
  ]
]

-- `get_remaining_time`, in microseconds
unfoldable pub get_remaining_time : ℕ → Text → Engine → Option ℕ
get_remaining_time now id e = Option.map (λ expiry. expiry - now) (get_expiry id e.keys)

-- The metadata of a lock whose life was changed.
unfoldable pub mark_extended : TimeFormat → ℕ → ℤ → Metadata → Metadata
mark_extended f expiry additional_seconds m = record m {
  expires_at = f.isoformat expiry;
  ttl_seconds = m.ttl_seconds +ℤ additional_seconds;
}

-- `extend_ttl`, by any integer; the result is `none` where the new expiry is out of range, which
-- raises.
unfoldable pub extend_ttl : TimeFormat → Bytes → ℕ → Text → ℤ → Engine → Option Bool × Engine
unfolding get_key get_expiry store_key
extend_ttl f noise now id additional_seconds e =
    let (found, keys) = get_key noise now id e.keys in
    elim found [
      | none ↦ (some false, record e { keys = keys })
      | some key ↦ elim (get_expiry id keys) [
        | none ↦ (some false, record e { keys = keys })
        | some current_expiry ↦ elim (add_seconds current_expiry additional_seconds) [
          | none ↦ (none, record e { keys = keys })
          | some new_expiry ↦ (
            some true,
            record {
              keys = store_key id key new_expiry keys;
              metadata_store = elim (lookup id e.metadata_store) [
                | none ↦ e.metadata_store
                | some m ↦
                    insert id (mark_extended f new_expiry additional_seconds m) e.metadata_store
              ];
            },
          )
        ]
      ]
    ]
