-- ===== src/Validation/Hashes.antt =====
-- Which texts pass as hexadecimal of a fixed length.
use trust_flow_chain_of_cust.Validation.Formats.{is_hex_of, validate_content_hash}
use trust_flow_chain_of_cust.Prelude.{
  length, Text, ℕ, zero, suc, ◌≡◌, refl, true, [], ◌∷◌, ◌++◌, arith,
}

is_hex_of_newline :
    (n : ℕ) (s : Text) → is_hex_of n s ≡ true → length s ≡ n → is_hex_of n (s ++ 10 ∷ []) ≡ true
unfolding is_hex_of
is_hex_of_newline zero [] h e = refl
is_hex_of_newline zero (c ∷ s) h e = absurd (omega (arith, e))
is_hex_of_newline (suc n) [] h e = absurd (omega (arith, e))
is_hex_of_newline (suc n) (c ∷ s) h e = ground (arith, h, is_hex_of_newline n s, e)

-- A valid content hash of 64 characters with a line end after it still passes as a content
-- hash.
pub validate_content_hash_newline :
    (s : Text)
    → validate_content_hash s ≡ true
    → length s ≡ 64
    → validate_content_hash (s ++ 10 ∷ []) ≡ true
unfolding validate_content_hash
validate_content_hash_newline s h e = is_hex_of_newline 64 s h e
