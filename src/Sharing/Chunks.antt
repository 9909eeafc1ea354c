-- ===== src/Sharing/Chunks.antt =====
-- Bytes as numbers, and the 31-byte chunks that are shared one by one.
use trust_flow_chain_of_cust.Strings.Hex.{Bytes}
use trust_flow_chain_of_cust.Prelude.{
  length, take, drop, replicate, ltb, if◌then◌else◌, ℕ, zero, suc, ◌+◌, ◌-◌, ◌*◌, ◌/◌, ◌%◌, ◌^◌,
  Option, none, some, List, [], ◌∷◌, ◌++◌,
}

-- `int.from_bytes(data, byteorder='big')`, after the bytes whose number is `n`
unfoldable pub number_from : ℕ → Bytes → ℕ
number_from n [] = n
number_from n (b ∷ bs) = number_from (n * 256 + b) bs

-- `_bytes_to_int`
unfoldable pub bytes_to_int : Bytes → ℕ
unfolding number_from
bytes_to_int = number_from 0

-- The last `length` bytes of a number.
unfoldable pub bytes_of : ℕ → ℕ → Bytes
bytes_of num zero = []
bytes_of num (suc n) = bytes_of (num / 256) n ++ num % 256 ∷ []

-- `_int_to_bytes`, `none` where the number is too large
unfoldable pub int_to_bytes : ℕ → ℕ → Option Bytes
unfolding bytes_of
int_to_bytes num n = if ltb num (256 ^ n) then some (bytes_of num n) else none

abbrev pub chunk_size : ℕ
chunk_size = 31

-- A chunk, with zeros up to its size.
unfoldable pub padded : Bytes → Bytes
padded chunk =
    if ltb (length chunk) chunk_size
    then chunk ++ replicate (chunk_size - length chunk) 0
    else chunk

-- The loop of `_split_into_chunks`, for the given number of rounds.
unfoldable pub chunks_of : ℕ → Bytes → List Bytes
unfolding padded
chunks_of zero bytes = []
chunks_of (suc n) bytes = padded (take chunk_size bytes) ∷ chunks_of n (drop chunk_size bytes)

-- The length of `range(0, n, chunk_size)`
abbrev pub rounds : ℕ → ℕ
rounds n = (n + (chunk_size - 1)) / chunk_size

-- `_split_into_chunks`, `none` where the length does not fit into four bytes
unfoldable pub split_into_chunks : Bytes → Option (List Bytes)
unfolding chunks_of int_to_bytes
split_into_chunks bytes = elim (int_to_bytes (length bytes) 4) [
  | none ↦ none
  | some length_header ↦
      some
        ((length_header ++ replicate (chunk_size - 4) 0) ∷ chunks_of (rounds (length bytes)) bytes)
]

unfoldable pub concat : List Bytes → Bytes
concat [] = []
concat (c ∷ cs) = c ++ concat cs

-- The bytes that `reconstruct_secret` reads from the chunks; it has at least the first.
unfoldable pub join_chunks : List Bytes → Bytes
unfolding concat bytes_to_int
join_chunks [] = []
join_chunks (length_chunk ∷ chunks) = take (bytes_to_int (take 4 length_chunk)) (concat chunks)
