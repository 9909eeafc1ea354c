-- ===== src/Sharing/Joining.antt =====
-- What the chunks hold, and that joining them gives back the bytes.
use native.Mathlib.Nat.{pow-suc}
use mathlib.Core.Path.{subst}
use trust_flow_chain_of_cust.Strings.Hex.{Bytes}
use trust_flow_chain_of_cust.Sharing.Chunks.{
  number_from, bytes_to_int, bytes_of, int_to_bytes, chunk_size, padded, chunks_of, rounds,
  split_into_chunks, concat, join_chunks,
}
use trust_flow_chain_of_cust.Prelude.{
  length, take, drop, replicate, All, length-append, ltb, Bool-cases, Option-cases, ℕ, zero, suc,
  ◌+◌, ◌-◌, ◌*◌, ◌/◌, ◌%◌, ◌^◌, ◌≤◌, ◌<◌, ◌≡◌, refl, sym, ap, ◌∙◌, inl, inr, some, List, [], ◌∷◌,
  ◌++◌, arith,
}

number_from-snoc :
    (n : ℕ) (bs : Bytes) (b : ℕ) → number_from n (bs ++ b ∷ []) ≡ number_from n bs * 256 + b
unfolding number_from
number_from-snoc n [] b = refl
number_from-snoc n (c ∷ bs) b = number_from-snoc (n * 256 + c) bs b

length-bytes_of : (num n : ℕ) → length (bytes_of num n) ≡ n
unfolding bytes_of
length-bytes_of num zero = refl
length-bytes_of num (suc n) =
    omega (
      arith,
      length-append (bytes_of (num / 256) n) (num % 256 ∷ []),
      length-bytes_of (num / 256) n,
    )

bytes_to_int-bytes_of : (num n : ℕ) → num < 256 ^ n → bytes_to_int (bytes_of num n) ≡ num
unfolding bytes_of bytes_to_int
bytes_to_int-bytes_of num zero h = omega (arith, h)
bytes_to_int-bytes_of num (suc n) h =
    number_from-snoc 0 (bytes_of (num / 256) n) (num % 256)
    ∙ (let rest =
          bytes_to_int-bytes_of (num / 256) n (below (256 ^ n) (256 ^ suc n) (pow-suc 256 n) h) in
        omega (arith, rest))
  where
    below : (y z : ℕ) → z ≡ y * 256 → num < z → num / 256 < y
    below y z e k = omega (arith, e, k)

-- A number is read back from its bytes, which are as many as asked for.
pub bytes_to_int-int_to_bytes :
    (num n : ℕ) (bs : Bytes)
    → int_to_bytes num n ≡ some bs
    → (bytes_to_int bs ≡ num) × (length bs ≡ n)
unfolding int_to_bytes
bytes_to_int-int_to_bytes num n bs h =
    ground (arith, bytes_to_int-bytes_of num n, length-bytes_of num n, h)

take-append : (xs ys : Bytes) → take (length xs) (xs ++ ys) ≡ xs
take-append [] ys = refl
take-append (x ∷ xs) ys = ap (λ zs. x ∷ zs) (take-append xs ys)

take-drop : (n : ℕ) (xs : Bytes) → take n xs ++ drop n xs ≡ xs
take-drop zero xs = refl
take-drop (suc n) [] = refl
take-drop (suc n) (x ∷ xs) = ap (λ zs. x ∷ zs) (take-drop n xs)

append_assoc : (xs ys zs : Bytes) → (xs ++ ys) ++ zs ≡ xs ++ (ys ++ zs)
append_assoc [] ys zs = refl
append_assoc (x ∷ xs) ys zs = ap (λ us. x ∷ us) (append_assoc xs ys zs)

length-drop : (n : ℕ) (xs : Bytes) → length (drop n xs) ≡ length xs - n
length-drop zero xs = omega arith
length-drop (suc n) [] = omega arith
length-drop (suc n) (x ∷ xs) = omega (arith, length-drop n xs)

take_short : (n : ℕ) (xs : Bytes) → length (take n xs) < n → take n xs ≡ xs
take_short zero xs h = absurd (omega (arith, h))
take_short (suc n) [] h = refl
take_short (suc n) (x ∷ xs) h = ap (λ ys. x ∷ ys) (take_short n xs (omega (arith, h)))

drop_short : (n : ℕ) (xs : Bytes) → length (take n xs) < n → drop n xs ≡ []
drop_short zero xs h = absurd (omega (arith, h))
drop_short (suc n) [] h = refl
drop_short (suc n) (x ∷ xs) h = drop_short n xs (omega (arith, h))

-- The chunks hold the bytes and then some more.
concat-chunks_of :
    (n : ℕ) (bytes : Bytes)
    → length bytes ≤ chunk_size * n
    → (more : Bytes) × (concat (chunks_of n bytes) ≡ bytes ++ more)
unfolding chunks_of concat padded
concat-chunks_of zero [] h = ([], refl)
concat-chunks_of zero (b ∷ bytes) h = absurd (omega (arith, h))
concat-chunks_of (suc n) bytes h =
    let (more, e) =
      concat-chunks_of n (drop chunk_size bytes) (omega (arith, h, length-drop chunk_size bytes)) in
    elim (Bool-cases (ltb (length (take chunk_size bytes)) chunk_size)) [
      | inr full ↦ (
        more,
        rw (full, padded)
            (ap (λ r. take chunk_size bytes ++ r) e
              ∙ sym (append_assoc (take chunk_size bytes) (drop chunk_size bytes) more)
              ∙ ap (λ r. r ++ more) (take-drop chunk_size bytes)),
      )
      | inl short ↦ (
        replicate (chunk_size - length (take chunk_size bytes)) 0 ++ more,
        rw (short, padded)
            (let few : length (take chunk_size bytes) < chunk_size = ground (arith, short) in
              let zeros = replicate (chunk_size - length (take chunk_size bytes)) 0 in
              append_assoc (take chunk_size bytes) zeros
                (concat (chunks_of n (drop chunk_size bytes)))
              ∙ ap (λ r. r ++ (zeros ++ concat (chunks_of n (drop chunk_size bytes))))
                  (take_short chunk_size bytes few)
              ∙ ap (λ r. bytes ++ (zeros ++ r))
                  (e ∙ ap (λ d. d ++ more) (drop_short chunk_size bytes few))),
      )
    ]

-- The chunks under the header that the length gives.
abbrev headed : Bytes → Bytes → List Bytes
headed header bytes =
    (header ++ replicate (chunk_size - 4) 0) ∷ chunks_of (rounds (length bytes)) bytes

take_header : (header rest : Bytes) → length header ≡ 4 → take 4 (header ++ rest) ≡ header
take_header header rest e = ap (λ n. take n (header ++ rest)) (sym e) ∙ take-append header rest

join_chunks-headed :
    (header bytes : Bytes)
    → int_to_bytes (length bytes) 4 ≡ some header
    → join_chunks (headed header bytes) ≡ bytes
unfolding join_chunks
join_chunks-headed header bytes q =
    let (number, size) = bytes_to_int-int_to_bytes (length bytes) 4 header q in
    let (more, e) = concat-chunks_of (rounds (length bytes)) bytes (omega arith) in
    ap (λ hd. take (bytes_to_int hd) (concat (chunks_of (rounds (length bytes)) bytes)))
      (take_header header (replicate (chunk_size - 4) 0) size)
    ∙ ap (λ n. take n (concat (chunks_of (rounds (length bytes)) bytes))) number
    ∙ ap (λ bs. take (length bytes) bs) e
    ∙ take-append bytes more

-- If bytes can be split into chunks, then joining the chunks gives back the bytes.
pub join_chunks-split_into_chunks :
    (bytes : Bytes) (chunks : List Bytes)
    → split_into_chunks bytes ≡ some chunks
    → join_chunks chunks ≡ bytes
join_chunks-split_into_chunks bytes chunks h = elim (Option-cases (int_to_bytes (length bytes) 4)) [
  | inl q ↦ absurd (unfold split_into_chunks in ground (arith, h, q))
  | inr (header, q) ↦
      let same : chunks ≡ headed header bytes = unfold split_into_chunks in ground (arith, h, q) in
      ap join_chunks same ∙ join_chunks-headed header bytes q
]

length-replicate : (n : ℕ) → length (replicate {A = ℕ} n 0) ≡ n
length-replicate zero = refl
length-replicate (suc n) = ap suc (length-replicate n)

length-take-le : (n : ℕ) (xs : Bytes) → length (take n xs) ≤ n
length-take-le zero xs = omega arith
length-take-le (suc n) [] = omega arith
length-take-le (suc n) (x ∷ xs) = omega (arith, length-take-le n xs)

length-padded : (c : Bytes) → length c ≤ chunk_size → length (padded c) ≡ chunk_size
unfolding padded
length-padded c h = ground (
  arith,
  h,
  length-append c (replicate (chunk_size - length c) 0),
  length-replicate (chunk_size - length c),
)

length-chunks_of : (n : ℕ) (bytes : Bytes) → All (λ c. length c ≡ chunk_size) (chunks_of n bytes)
unfolding chunks_of
length-chunks_of zero bytes = tt
length-chunks_of (suc n) bytes = (
  length-padded (take chunk_size bytes) (length-take-le chunk_size bytes),
  length-chunks_of n (drop chunk_size bytes),
)

length-headed :
    (header : Bytes)
    → length header ≡ 4
    → length (header ++ replicate (chunk_size - 4) 0) ≡ chunk_size
length-headed header e = omega (
  arith,
  e,
  length-append header (replicate (chunk_size - 4) 0),
  length-replicate (chunk_size - 4),
)

-- Every chunk of a split has the full size.
pub split_into_chunks-length :
    (bytes : Bytes) (chunks : List Bytes)
    → split_into_chunks bytes ≡ some chunks
    → All (λ c. length c ≡ chunk_size) chunks
split_into_chunks-length bytes chunks h = elim (Option-cases (int_to_bytes (length bytes) 4)) [
  | inl q ↦ absurd (unfold split_into_chunks in ground (arith, h, q))
  | inr (header, q) ↦
      let same : chunks ≡ headed header bytes = unfold split_into_chunks in ground (arith, h, q) in
      subst (λ cs. All (λ c. length c ≡ chunk_size) cs) (sym same)
        (
          length-headed header (bytes_to_int-int_to_bytes (length bytes) 4 header q).1,
          length-chunks_of (rounds (length bytes)) bytes,
        )
]
