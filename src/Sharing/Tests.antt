-- ===== src/Sharing/Tests.antt =====
-- A content that is split among three peers.
use trust_flow_chain_of_cust.Prelude.Int.{ℤ}
use trust_flow_chain_of_cust.Strings.Join.{join}
use trust_flow_chain_of_cust.Strings.Decimal.{decimal}
use trust_flow_chain_of_cust.Strings.Hex.{Bytes}
use trust_flow_chain_of_cust.Strings.Split.{split}
use trust_flow_chain_of_cust.Prelude.Dict.{Dict}
use trust_flow_chain_of_cust.Prelude.Result.{ok, err}
use trust_flow_chain_of_cust.Sharing.Field.{
  evaluate_polynomial, extended_gcd, lagrange_interpolation, mod_inverse, prime,
}
use trust_flow_chain_of_cust.Sharing.Fuel.{extended_gcd_ends, IsBezout}
use trust_flow_chain_of_cust.Sharing.Polynomial.{horner, evaluate_polynomial-horner}
use trust_flow_chain_of_cust.Sharing.Chunks.{bytes_to_int, split_into_chunks, join_chunks}
use trust_flow_chain_of_cust.Sharing.Joining.{join_chunks-split_into_chunks}
use trust_flow_chain_of_cust.Sharing.Share.{Share, Tools, Fresh, split_secret}
use trust_flow_chain_of_cust.Sharing.Reconstruct.{reconstruct_secret}
use trust_flow_chain_of_cust.Sharing.Integrity.{IsShareOf, IsHmac, reconstruct_secret_sound}
use trust_flow_chain_of_cust.Sharing.Engine.{Engine, new_engine, split_content}
use trust_flow_chain_of_cust.Sharing.Holders.{IsHeld, split_content-IsHeld}
use trust_flow_chain_of_cust.Prelude.{
  length, drop, replicate, All, Text, codes, Text-discrete, ◌+◌, ◌-◌, ◌*◌, ◌%◌, ◌≤◌, ◌≡◌, refl,
  false, none, some, List, [], ◌∷◌, arith, ℕ,
}

extended_gcd_ends_example :
    (g : ℕ) × (x : ℤ) × (y : ℤ) × (extended_gcd 12 12 30 ≡ some (g, (x, y))) × IsBezout 12 30 g x y
extended_gcd_ends_example = extended_gcd_ends 12 12 30 (omega arith)

inverse_of_three : mod_inverse 3 prime * 3 % prime ≡ 1
unfolding mod_inverse
inverse_of_three = refl

-- Two points of a line, and its value at zero.
line_at_zero : lagrange_interpolation ((1, 8) ∷ (3, 1) ∷ []) 11 ≡ 6
unfolding lagrange_interpolation
line_at_zero = refl

evaluate_polynomial-horner_example :
    evaluate_polynomial (5 ∷ 3 ∷ 2 ∷ []) 4 7 ≡ horner (5 ∷ 3 ∷ 2 ∷ []) 4 % 7
evaluate_polynomial-horner_example = evaluate_polynomial-horner (5 ∷ 3 ∷ 2 ∷ []) 4 7 (omega arith)

abbrev greeting : Bytes
greeting = 104 ∷ 105 ∷ []

abbrev greeting_chunks : List Bytes
greeting_chunks = (0 ∷ 0 ∷ 0 ∷ 2 ∷ replicate 27 0) ∷ (104 ∷ 105 ∷ replicate 29 0) ∷ []

greeting_split : split_into_chunks greeting ≡ some greeting_chunks
unfolding split_into_chunks
greeting_split = refl

join_chunks-split_into_chunks_example : join_chunks greeting_chunks ≡ greeting
join_chunks-split_into_chunks_example =
    join_chunks-split_into_chunks greeting greeting_chunks greeting_split

-- A number is written as that many strokes after a mark would be: in one character.
abbrev toy_tools : Tools
toy_tools = record {
  cipher = record {
    seal = λ k n p. p;
    unseal = λ k n p. some p;
    encode = λ t. t;
    decode = λ bs. some bs;
    digest = λ bs. b'#' ∷ bs;
  };
  hmac = λ key m. length key % 256 ∷ length m % 256 ∷ [];
  hex = λ n. (n + 128) ∷ [];
  int = λ t. elim t [ [] ↦ none | c ∷ _ ↦ some (c - 128) ];
}

toy_tools-IsHmac : IsHmac toy_tools
toy_tools-IsHmac key m = refl

abbrev toy_fresh : Fresh
toy_fresh = record {
  hmac_key = 7 ∷ [];
  aes_key = 8 ∷ [];
  nonce = 9 ∷ [];
  randbelow = λ k. (k + 17) ∷ [];
  share_id_base = codes "s";
}

-- The shares of the greeting.
abbrev made : List Share
made = elim (split_secret toy_tools toy_fresh greeting 2 3) [ ok (ss, _) ↦ ss | err _ ↦ [] ]

split_greeting : split_secret toy_tools toy_fresh greeting 2 3 ≡ ok (made, 7 ∷ [])
unfolding split_secret
split_greeting = refl

-- The second and the third share.
abbrev later : List Share
later = drop 1 made

abbrev second : Share
second = elim later [ [] ↦ empty_share | s ∷ _ ↦ s ]
  where
    empty_share : Share
    empty_share = record {
      index = 0;
      value = [];
      share_id = [];
      content_hash = [];
      threshold = 0;
      total_shares = 0;
      mac = [];
      is_hybrid = false;
      ciphertext = [];
      nonce = [];
    }

restored : reconstruct_secret toy_tools (second ∷ drop 2 made) (some (7 ∷ [])) ≡ ok (some greeting)
unfolding split_secret reconstruct_secret Text-discrete join decimal split evaluate_polynomial
    bytes_to_int lagrange_interpolation join_chunks
restored = refl

reconstruct_secret_sound_example :
    All (IsShareOf toy_tools (7 ∷ []) second.content_hash second.threshold) (second ∷ drop 2 made)
    × (second.threshold ≤ length (second ∷ drop 2 made))
    × ((bytes : Bytes) × ((toy_tools.cipher.decode bytes ≡ some greeting)
          × (toy_tools.cipher.digest bytes ≡ second.content_hash)))
reconstruct_secret_sound_example =
    reconstruct_secret_sound toy_tools second (drop 2 made) (7 ∷ []) greeting restored

abbrev three_peers : List Text
three_peers = codes "a" ∷ codes "b" ∷ codes "c" ∷ []

abbrev split_three : Dict Share × Engine
split_three = elim (split_content toy_tools toy_fresh greeting three_peers none new_engine) [
  | ok r ↦ r
  | err _ ↦ ([], new_engine)
]

splits : split_content toy_tools toy_fresh greeting three_peers none new_engine ≡ ok split_three
unfolding split_content
splits = refl

split_content-IsHeld_example : IsHeld (b'#' ∷ greeting) three_peers split_three.1
split_content-IsHeld_example =
    split_content-IsHeld toy_tools toy_fresh greeting three_peers none new_engine split_three.1
      split_three.0 toy_tools-IsHmac splits
