-- ===== src/TimeLock/Simulated.antt =====
-- `SimulatedTimeLockService`, whose clock is set by hand. Where a lock
-- has no time of creation, or its expiry is out of range, the code raises, and the result is `none` on
-- the outside.
use trust_flow_chain_of_cust.Prelude.Int.{ℤ}
use trust_flow_chain_of_cust.TimeLock.Engine.{Cipher, IsCipher, Fresh}
use trust_flow_chain_of_cust.Prelude.Dict.{Dict, lookup, insert, erase, lookup-insert}
use trust_flow_chain_of_cust.Strings.Hex.{Bytes}
use trust_flow_chain_of_cust.Clock.{add_seconds, shift}
use mathlib.Core.Option
use trust_flow_chain_of_cust.Prelude.{
  ltb, leb, if◌then◌else◌, Text, ℕ, ◌≡◌, refl, Bool, true, Option, none, some, arith,
}

pub record Locked : Type 0 where
  pub key : Bytes
  pub nonce : Bytes
  pub ciphertext : Bytes
  pub ttl : ℤ

pub record Service : Type 0 where
  pub current_time : ℕ
  pub locks : Dict Locked
  pub creation_times : Dict ℕ

unfoldable pub set_time : ℕ → Service → Service
set_time t s = record s { current_time = t }

-- `advance_time`, by microseconds, forwards or backwards; `none` where it raises
unfoldable pub advance_time : ℤ → Service → Option Service
advance_time d s = Option.map (λ t. record s { current_time = t }) (shift s.current_time d)

unfoldable pub put_lock : Cipher → Fresh → Text → ℤ → Service → (Text × Bytes) × Service
put_lock c r content ttl_seconds s =
    let ciphertext = c.seal r.fresh_key r.fresh_nonce (c.encode content) in
    (
      (r.fresh_id, ciphertext),
      record s {
        locks =
            insert r.fresh_id
              (record {
                key = r.fresh_key;
                nonce = r.fresh_nonce;
                ciphertext = ciphertext;
                ttl = ttl_seconds;
              })
              s.locks;
        creation_times = insert r.fresh_id s.current_time s.creation_times;
      },
    )

unfoldable pub open_locked : Cipher → Locked → Option Text
open_locked c l = elim (c.unseal l.key l.nonce l.ciphertext) [
  | none ↦ none
  | some plaintext ↦ c.decode plaintext
]

unfoldable pub take_lock : Cipher → Text → Service → Option (Option Text × Service)
unfolding open_locked
take_lock c id s = elim (lookup id s.locks) [
  | none ↦ some (none, s)
  | some l ↦ elim (lookup id s.creation_times) [
    | none ↦ none
    | some created ↦ elim (add_seconds created l.ttl) [
      | none ↦ none
      | some expiry ↦
          if ltb expiry s.current_time
          then some (
            none,
            record s { locks = erase id s.locks; creation_times = erase id s.creation_times },
          )
          else some (open_locked c l, s)
    ]
  ]
]

-- `SimulatedTimeLockService.is_expired`
unfoldable pub has_expired : Text → Service → Option Bool
has_expired id s = elim (lookup id s.locks) [
  | none ↦ some true
  | some l ↦ elim (lookup id s.creation_times) [
    | none ↦ none
    | some created ↦ Option.map (λ expiry. ltb expiry s.current_time) (add_seconds created l.ttl)
  ]
]

open_locked-seal :
    (c : Cipher) (r : Fresh) (content : Text) (ttl_seconds : ℤ)
    → IsCipher c
    → open_locked c (record {
      key = r.fresh_key;
      nonce = r.fresh_nonce;
      ciphertext = c.seal r.fresh_key r.fresh_nonce (c.encode content);
      ttl = ttl_seconds;
    })
      ≡ some content
unfolding open_locked
open_locked-seal c r content ttl_seconds sound =
    rw
      (
        sound.unseal-seal r.fresh_key r.fresh_nonce (c.encode content),
        sound.decode-encode content,
        open_locked,
      )
      refl

-- In the simulated service, what has just been locked opens at any time up to the end of its
-- time to live, to its content, and later does not open, and `is_expired` agrees, if that end is in
-- range, the cipher opens what it sealed and UTF-8 reads back.
pub take_lock-put_lock :
    (c : Cipher) (r : Fresh) (content : Text) (ttl_seconds : ℤ) (expires t : ℕ) (s : Service)
    → IsCipher c
    → add_seconds s.current_time ttl_seconds ≡ some expires
    → (has_expired r.fresh_id (set_time t (put_lock c r content ttl_seconds s).1)
        ≡ some (ltb expires t))
      × (Option.map
            (λ a. a.0)
            (take_lock c r.fresh_id (set_time t (put_lock c r content ttl_seconds s).1))
          ≡ some (if leb t expires then some content else none))
unfolding take_lock put_lock set_time has_expired
take_lock-put_lock c r content ttl_seconds expires t s sound ends =
    let l : Locked = record {
      key = r.fresh_key;
      nonce = r.fresh_nonce;
      ciphertext = c.seal r.fresh_key r.fresh_nonce (c.encode content);
      ttl = ttl_seconds;
    } in
    let p = lookup-insert r.fresh_id r.fresh_id l s.locks in
    let q = lookup-insert r.fresh_id r.fresh_id s.current_time s.creation_times in
    let o = open_locked-seal c r content ttl_seconds sound in
    (ground (arith, p, q, ends), ground (arith, p, q, o, ends))
