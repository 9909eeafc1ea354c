-- ===== src/Crypto.antt =====
-- coc_framework/core/crypto_core.py. Ed25519 (PyNaCl) and SHA-256 are not this program's code: they
-- are a record of functions, over keys and signatures as bytes, and over messages as texts (the
-- code encodes each message as UTF-8 first).
use trust_flow_chain_of_cust.Prelude.{Text, Bool, true, ◌≡◌, ◌≢◌, []}
use trust_flow_chain_of_cust.Strings.Hex.{Bytes, IsBytes}

pub record Crypto : Type 0 where
  -- `signing_key.verify_key`
  pub public_key : Bytes → Bytes
  -- `signing_key.sign(message).signature`
  pub sign : Bytes → Text → Bytes
  -- whether `verify_key.verify(message, signature)` returns, rather than raises
  pub accepts : Bytes → Text → Bytes → Bool
  -- `hashlib.sha256(message).hexdigest()`
  pub sha256 : Text → Text

-- What the program relies on: an Ed25519 signature verifies under its own key, and is bytes.
pub record IsSignature (c : Crypto) : Type 0 where
  pub accepts-sign : (k : Bytes) (m : Text) → c.accepts (c.public_key k) m (c.sign k m) ≡ true
  pub sign-IsBytes : (k : Bytes) (m : Text) → IsBytes (c.sign k m)
  pub sign-ne_nil : (k : Bytes) (m : Text) → c.sign k m ≢ []

-- `CryptoCore.sign_message`
unfoldable pub sign_message : Crypto → Bytes → Text → Bytes
sign_message c signing_key message = c.sign signing_key message

-- `CryptoCore.verify_signature`: an exception of the library is caught.
unfoldable pub verify_signature : Crypto → Bytes → Text → Bytes → Bool
verify_signature c verify_key message signature = c.accepts verify_key message signature

-- `CryptoCore.hash_content`
unfoldable pub hash_content : Crypto → Text → Text
hash_content c content = c.sha256 content
