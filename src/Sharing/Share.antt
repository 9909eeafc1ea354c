-- ===== src/Sharing/Share.antt =====
-- `Share`, its code of authentication, `split_secret` and `reconstruct_secret`. AES-GCM, UTF-8, SHA-256
-- and HMAC are records of functions; texts are those that UTF-8 can encode.
use trust_flow_chain_of_cust.Strings.Hex.{Bytes, to_hex}
use trust_flow_chain_of_cust.Strings.Decimal.{decimal}
use trust_flow_chain_of_cust.Strings.Join.{join}
use trust_flow_chain_of_cust.Prelude.Result.{Result, ok, err}
use trust_flow_chain_of_cust.TimeLock.Engine.{Cipher}
use trust_flow_chain_of_cust.Sharing.Field.{prime, evaluate_polynomial}
use trust_flow_chain_of_cust.Sharing.Chunks.{bytes_to_int, split_into_chunks}
use trust_flow_chain_of_cust.Prelude.{
  length, ltb, if◌then◌else◌, Text, codes, text_eq, is_empty, ℕ, zero, suc, ◌+◌, Bool, false,
  Option, none, some, List, [], ◌∷◌, ◌++◌, map,
}

pub record Share : Type 0 where
  pub index : ℕ
  pub value : Text
  pub share_id : Text
  pub content_hash : Text
  pub threshold : ℕ
  pub total_shares : ℕ
  pub mac : Text
  pub is_hybrid : Bool
  pub ciphertext : Text
  pub nonce : Text

-- What stands between the parts of a text.
abbrev pub bar : Text
bar = codes "|"

-- What the code takes from libraries.
pub record Tools : Type 0 where
  pub cipher : Cipher
  -- `hmac.new(key, data, hashlib.sha256).hexdigest()`
  pub hmac : Bytes → Text → Text
  -- `hex(n)` and `int(text, 16)`, `none` where it raises; a negative number, which `hex` writes for no
  -- share, is left out
  pub hex : ℕ → Text
  pub int : Text → Option ℕ

-- The random values of one call of `split_secret`; `randbelow` has those of each chunk.
pub record Fresh : Type 0 where
  pub hmac_key : Bytes
  pub aes_key : Bytes
  pub nonce : Bytes
  pub randbelow : ℕ → List ℕ
  pub share_id_base : Text

-- The exceptions that are raised, by their classes.
pub data Error : Type 0 where
  value_error integrity_error index_error overflow_error : Error

-- `_compute_share_mac`
unfoldable pub compute_share_mac : Tools → Text → ℕ → Text → Bytes → Text
compute_share_mac t share_value index content_hash hmac_key =
    t.hmac hmac_key (join bar (decimal index ∷ share_value ∷ content_hash ∷ []))

unfoldable pub verify_share_mac : Tools → Share → Bytes → Bool
unfolding compute_share_mac
verify_share_mac t s hmac_key =
    if is_empty s.mac
    then false
    else text_eq s.mac (compute_share_mac t s.value s.index s.content_hash hmac_key)

abbrev pub hybrid_threshold_bytes : ℕ
hybrid_threshold_bytes = 256

-- The polynomials of the chunks, from the k-th chunk on: the secret and what is random.
unfoldable pub polynomials_from : Fresh → ℕ → List Bytes → List (List ℕ)
polynomials_from r k [] = []
polynomials_from r k (chunk ∷ chunks) =
    (bytes_to_int chunk ∷ r.randbelow k) ∷ polynomials_from r (k + 1) chunks

-- The value of the share with an index: that of each polynomial.
unfoldable pub combined_value : Tools → List (List ℕ) → ℕ → Text
combined_value t polynomials x =
    join bar (map (λ cs. t.hex (evaluate_polynomial cs x prime)) polynomials)

-- What all shares of one content have in common.
pub record Common : Type 0 where
  pub hash : Text
  pub needed : ℕ
  pub total : ℕ
  pub hybrid : Bool
  pub sealed : Text
  pub sealed_nonce : Text

unfoldable pub make_share : Tools → Fresh → Common → List (List ℕ) → ℕ → Share
unfolding combined_value compute_share_mac
make_share t r c polynomials x =
    let combined = combined_value t polynomials x in
    record {
      index = x;
      value = combined;
      share_id = r.share_id_base ++ (codes "_" ++ decimal x);
      content_hash = c.hash;
      threshold = c.needed;
      total_shares = c.total;
      mac = compute_share_mac t combined x c.hash r.hmac_key;
      is_hybrid = c.hybrid;
      ciphertext = c.sealed;
      nonce = c.sealed_nonce;
    }

-- The shares with indices from `x` on, as many as asked for.
unfoldable pub shares_from : Tools → Fresh → Common → List (List ℕ) → ℕ → ℕ → List Share
unfolding make_share
shares_from t r c polynomials x zero = []
shares_from t r c polynomials x (suc n) =
    make_share t r c polynomials x ∷ shares_from t r c polynomials (x + 1) n

-- What is shared out by polynomials: the content, or the key that it is encrypted under.
unfoldable pub secret_of : Tools → Fresh → Text → Bytes
secret_of t r content =
    let content_bytes = t.cipher.encode content in
    if ltb hybrid_threshold_bytes (length content_bytes) then r.aes_key else content_bytes

unfoldable pub common_of : Tools → Fresh → Text → ℕ → ℕ → Common
common_of t r content threshold num_shares =
    let content_bytes = t.cipher.encode content in
    let use_hybrid = ltb hybrid_threshold_bytes (length content_bytes) in
    record {
      hash = t.cipher.digest content_bytes;
      needed = threshold;
      total = num_shares;
      hybrid = use_hybrid;
      sealed = if use_hybrid then to_hex (t.cipher.seal r.aes_key r.nonce content_bytes) else [];
      sealed_nonce = if use_hybrid then to_hex r.nonce else [];
    }

-- `split_secret` once its arguments are checked
unfoldable pub share_out : Tools → Fresh → Text → ℕ → ℕ → Result Error (List Share × Bytes)
unfolding split_into_chunks secret_of common_of polynomials_from shares_from
share_out t r content threshold num_shares = elim (split_into_chunks (secret_of t r content)) [
  | none ↦ err overflow_error
  | some chunks ↦ ok (
    shares_from t r (common_of t r content threshold num_shares) (polynomials_from r 0 chunks) 1
        num_shares,
    r.hmac_key,
  )
]

unfoldable pub split_secret : Tools → Fresh → Text → ℕ → ℕ → Result Error (List Share × Bytes)
unfolding share_out
split_secret t r content threshold num_shares =
    if ltb num_shares threshold
    then err value_error
    else if ltb threshold 2
    then err value_error
    else if ltb num_shares 2
    then err value_error
    else share_out t r content threshold num_shares
