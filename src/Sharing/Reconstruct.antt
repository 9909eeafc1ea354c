-- ===== src/Sharing/Reconstruct.antt =====
-- `reconstruct_secret`.
use trust_flow_chain_of_cust.Strings.Hex.{Bytes, from_hex}
use trust_flow_chain_of_cust.Strings.Split.{split}
use trust_flow_chain_of_cust.Prelude.Result.{Result, ok, err, ◌>>=◌, or_raise}
use trust_flow_chain_of_cust.Sharing.Field.{prime, lagrange_interpolation}
use trust_flow_chain_of_cust.Sharing.Chunks.{int_to_bytes, join_chunks, chunk_size}
use trust_flow_chain_of_cust.Sharing.Share.{
  bar, Share, Tools, Error, value_error, integrity_error, index_error, overflow_error,
  verify_share_mac,
}
use trust_flow_chain_of_cust.Prelude.{
  length, take, ltb, ◌==◌, if◌then◌else◌, Text, text_eq, ℕ, zero, suc, ◌+◌, Bool, true, false, not,
  Option, none, some, List, [], ◌∷◌,
}

-- The loop that compares every share with the first and checks its code.
unfoldable pub check_shares : Tools → Share → Option Bytes → List Share → Result Error Bool
unfolding verify_share_mac
check_shares t head hmac_key [] = ok true
check_shares t head hmac_key (s ∷ shares) =
    let rest = check_shares t head hmac_key shares in
    let is_authentic : Bool = elim hmac_key [ none ↦ true | some key ↦ verify_share_mac t s key ] in
    if not (text_eq s.content_hash head.content_hash)
    then err value_error
    else if not (s.threshold == head.threshold)
    then err value_error
    else if not (same_flag s.is_hybrid head.is_hybrid)
    then err value_error
    else if not is_authentic
    then err integrity_error
    else rest
  where
    same_flag : Bool → Bool → Bool
    same_flag true b = b
    same_flag false b = not b

-- `values[i]`, `none` where it raises
unfoldable pub get_elem? : List Text → ℕ → Option Text
get_elem? [] i = none
get_elem? (v ∷ vs) zero = some v
get_elem? (v ∷ vs) (suc i) = get_elem? vs i

-- The points of the shares for one chunk.
unfoldable pub points : Tools → ℕ → List Share → Result Error (List (ℕ × ℕ))
unfolding get_elem?
points t chunk_idx [] = ok []
points t chunk_idx (s ∷ shares) = do
  v ← or_raise (get_elem? (split bar s.value) chunk_idx) index_error
  y ← or_raise (t.int v) value_error
  ps ← points t chunk_idx shares
  ok ((s.index, y) ∷ ps)

-- The chunks with indices from `chunk_idx` on, as many as asked for.
unfoldable pub reconstruct_chunks : Tools → List Share → ℕ → ℕ → Result Error (List Bytes)
unfolding points int_to_bytes
reconstruct_chunks t shares chunk_idx zero = ok []
reconstruct_chunks t shares chunk_idx (suc n) = do
  ps ← points t chunk_idx shares
  chunk ← or_raise (int_to_bytes (lagrange_interpolation ps prime) chunk_size) overflow_error
  chunks ← reconstruct_chunks t shares (chunk_idx + 1) n
  ok (chunk ∷ chunks)

-- The content of a hybrid share under the key that was shared, and else what was shared itself.
unfoldable pub open_content : Tools → Share → Bytes → Result Error (Option Bytes)
open_content t head secret_bytes =
    let opened : Result Error (Option Bytes) = (do
      ciphertext ← or_raise (from_hex head.ciphertext) value_error
      nonce ← or_raise (from_hex head.nonce) value_error
      ok (t.cipher.unseal secret_bytes nonce ciphertext)) in
    if head.is_hybrid then opened else ok (some secret_bytes)

-- The text of the content, if it has the hash that the shares name.
unfoldable pub checked_content : Tools → Share → Option Bytes → Option Text
checked_content t head none = none
checked_content t head (some content_bytes) = elim (t.cipher.decode content_bytes) [
  | none ↦ none
  | some content ↦
      if text_eq (t.cipher.digest content_bytes) head.content_hash then some content else none
]

-- `reconstruct_secret` once there are enough shares
unfoldable pub reconstruct_checked :
    Tools → Share → List Share → Option Bytes → Result Error (Option Text)
unfolding check_shares reconstruct_chunks open_content checked_content
reconstruct_checked t head shares hmac_key = do
  _ ← check_shares t head hmac_key shares
  chunks ← reconstruct_chunks t (take head.threshold shares) 0 (length (split bar head.value))
  opened ← open_content t head (join_chunks chunks)
  ok (checked_content t head opened)

unfoldable pub reconstruct_secret : Tools → List Share → Option Bytes → Result Error (Option Text)
unfolding reconstruct_checked
reconstruct_secret t [] hmac_key = err value_error
reconstruct_secret t (head ∷ shares) hmac_key =
    if ltb (length (head ∷ shares)) head.threshold
    then err value_error
    else reconstruct_checked t head (head ∷ shares) hmac_key
