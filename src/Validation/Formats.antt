-- ===== src/Validation/Formats.antt =====
-- The formats of texts: blank ones, and hexadecimal ones of a fixed length.
use trust_flow_chain_of_cust.Strings.Space.{is_space}
use trust_flow_chain_of_cust.Prelude.{
  leb, ◌==◌, Text, ℕ, zero, suc, Bool, true, false, not, ◌&&◌, ◌||◌, [], ◌∷◌,
}

-- `not text.strip()`
unfoldable pub is_blank : Text → Bool
is_blank [] = true
is_blank (c ∷ s) = is_space c && is_blank s

abbrev pub is_hex_digit : ℕ → Bool
is_hex_digit c = (leb 97 c && leb c 102) || (leb 65 c && leb c 70) || (leb 48 c && leb c 57)

-- `re.match(r'^[a-fA-F0-9]{n}$', text)`: the end of the text, or a line end before it
unfoldable pub is_hex_of : ℕ → Text → Bool
is_hex_of zero [] = true
is_hex_of zero (c ∷ []) = c == 10
is_hex_of zero (c ∷ d ∷ s) = false
is_hex_of (suc n) [] = false
is_hex_of (suc n) (c ∷ s) = is_hex_digit c && is_hex_of n s

-- The validators of single texts.
unfoldable pub validate_peer_id : Text → Bool
unfolding is_blank
validate_peer_id peer_id = not (is_blank peer_id)

unfoldable pub validate_content_hash : Text → Bool
unfolding is_hex_of
validate_content_hash = is_hex_of 64

unfoldable pub validate_signature_hex : Text → Bool
unfolding is_hex_of
validate_signature_hex = is_hex_of 128

unfoldable pub validate_public_key_hex : Text → Bool
unfolding is_hex_of
validate_public_key_hex = is_hex_of 64
