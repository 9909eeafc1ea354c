-- ===== src/TimeLock/Tests.antt =====
-- Time locks with a toy cipher.
use trust_flow_chain_of_cust.Prelude.Int.{pos, negsuc}
use trust_flow_chain_of_cust.TimeLock.KeyStore.{live_key, store_key}
use trust_flow_chain_of_cust.TimeLock.Engine.{
  Cipher, IsCipher, Engine, EncryptedContent, Fresh, encrypt, decrypt, destroy, get_status,
  encrypt_until, extend_ttl,
}
use trust_flow_chain_of_cust.TimeLock.Life.{decrypt-encrypt}
use trust_flow_chain_of_cust.TimeLock.Runs.{here, next, ask, extend, decrypt_until, decrypt-destroy}
use trust_flow_chain_of_cust.TimeLock.Simulated.{Service}
use trust_flow_chain_of_cust.Samples.{toy_format}
use trust_flow_chain_of_cust.Prelude.Dict.{lookup, insert, IsUnique}
use trust_flow_chain_of_cust.Clock.{add_seconds}
use trust_flow_chain_of_cust.Prelude.{
  length, leb, ◌==◌, if◌then◌else◌, codes, ◌≡◌, refl, none, some, [], ◌∷◌, arith, Text, ◌≢◌, ap, ℕ,
}

-- The ciphertext is the length of the key, which is tested, and the plaintext.
abbrev toy_cipher : Cipher
toy_cipher = record {
  seal = λ k n p. length k ∷ p;
  unseal = λ k n x. elim x [ [] ↦ none | l ∷ p ↦ if l == length k then some p else none ];
  encode = λ s. s;
  decode = λ b. some b;
  digest = λ b. b'#' ∷ b;
}

toy_cipher-IsCipher : IsCipher toy_cipher
toy_cipher-IsCipher = record { unseal-seal = λ k n p. ground arith; decode-encode = λ s. refl }

abbrev fresh : Fresh
fresh = record { fresh_id = codes "l1"; fresh_key = 5 ∷ []; fresh_nonce = 6 ∷ [] }

abbrev no_locks : Engine
no_locks = record { keys = []; metadata_store = [] }

-- A lock of ten seconds, made at the time 7.
abbrev locking : EncryptedContent × Engine
locking = encrypt_until toy_cipher toy_format fresh 7 10000007 (codes "text") (pos 10) no_locks

abbrev sealed : EncryptedContent
sealed = locking.0

abbrev locked : Engine
locked = locking.1

ten_seconds : add_seconds 7 (pos 10) ≡ some 10000007
unfolding add_seconds
ten_seconds = refl

decrypt-encrypt_example :
    (x : EncryptedContent) × (e' : Engine) × (encrypt toy_cipher toy_format fresh 7
        (codes "text")
        (pos 10)
        no_locks
      ≡ some (x, e'))
    × ((later : ℕ)
        → (decrypt toy_cipher [] later x e').0
          ≡ (if leb later 10000007 then some (codes "text") else none))
decrypt-encrypt_example =
    decrypt-encrypt toy_cipher toy_format fresh [] 7 10000007 (codes "text") (pos 10) no_locks
      toy_cipher-IsCipher ten_seconds

locked-IsUnique : IsUnique locked.keys
unfolding insert
locked-IsUnique = unfold encrypt_until store_key in (unfold lookup in (refl, tt))

locked-alive : live_key 900 (codes "l1") locked.keys ≡ some (5 ∷ [])
unfolding live_key encrypt_until store_key insert lookup
locked-alive = ground arith

abbrev digit : Text → ℕ
digit [] = 0
digit (_ ∷ []) = 0
digit (_ ∷ c ∷ _) = c

l1_not_l2 : codes "l1" ≢ codes "l2"
l1_not_l2 e = absurd (omega (arith, ap digit e))

-- The life of the lock is extended, and the one of another lock is cut, in between.
abbrev extended : Engine
extended = (extend_ttl toy_format [] 500 (codes "l1") (pos 5) locked).1

decrypt_until_example :
    (decrypt toy_cipher [] 900 sealed
      (extend_ttl toy_format [] 800 (codes "l2") (negsuc 4) extended).1).0
    ≡ (decrypt toy_cipher [] 900 sealed locked).0
unfolding encrypt_until
decrypt_until_example =
    decrypt_until {c = toy_cipher} {f = toy_format} sealed 900 [] [] (5 ∷ []) locked-IsUnique
      locked-alive
      (next (next here (extend [] 500 (codes "l1") (pos 5) (omega arith) (λ same. refl)))
        (extend [] 800 (codes "l2") (negsuc 4) (omega arith) (λ same. absurd (l1_not_l2 same))))

decrypt-destroy_example :
    (decrypt toy_cipher [] 900 sealed
      (get_status [] 800 (codes "l2") (destroy [] sealed.metadata.lock_id locked).1).1).0
    ≡ none
decrypt-destroy_example =
    decrypt-destroy {c = toy_cipher} {f = toy_format} sealed 900 [] [] locked
      (next here (ask [] 800 (codes "l2") (omega arith)))

abbrev service : Service
service = record { current_time = 7; locks = []; creation_times = [] }
