-- ===== src/Strings/Decimal.antt =====
-- `str(n)` for a natural number.
use trust_flow_chain_of_cust.Prelude.{
  All, All-append, ltb, if◌then◌else◌, Bool-cases, Text, ℕ, zero, suc, ◌+◌, ◌-◌, ◌*◌, ◌/◌, ◌%◌, ◌≤◌,
  ◌<◌, ◌≡◌, refl, sym, ap, ◌∙◌, inl, inr, [], ◌∷◌, ◌++◌, arith,
}

-- The digits of `n`, with fuel for the number of divisions.
decimal_with : ℕ → ℕ → Text
decimal_with zero n = []
decimal_with (suc f) n =
    let rest = decimal_with f (n / 10) ++ (n % 10 + 48) ∷ [] in
    if ltb n 10 then (n + 48) ∷ [] else rest

unfoldable pub decimal : ℕ → Text
unfolding decimal_with
decimal n = decimal_with (suc n) n

-- The number that a row of digits stands for.
read_from : ℕ → Text → ℕ
read_from acc [] = acc
read_from acc (c ∷ s) = read_from (10 * acc + (c - 48)) s

read_from-append :
    (acc : ℕ) (s : Text) (c : ℕ) → read_from acc (s ++ c ∷ []) ≡ 10 * read_from acc s + (c - 48)
unfolding read_from
read_from-append acc [] c = refl
read_from-append acc (d ∷ s) c = read_from-append (10 * acc + (d - 48)) s c

read-decimal_with : (f n : ℕ) → n < f → read_from 0 (decimal_with f n) ≡ n
unfolding decimal_with
read-decimal_with zero n h = elim h [ ]
read-decimal_with (suc f) n h = elim (Bool-cases (ltb n 10)) [
  | inl small ↦ rw small (unfold read_from in ground arith)
  | inr large ↦
      rw (large, read_from-append 0 (decimal_with f (n / 10)) (n % 10 + 48))
        (ground (arith, read-decimal_with f (n / 10)))
]

-- Two numbers with the same digits are one.
pub decimal-injective : (m n : ℕ) → decimal m ≡ decimal n → m ≡ n
unfolding decimal
decimal-injective m n e =
    sym (read-decimal_with (suc m) m (omega arith))
    ∙ ap (read_from 0) e
    ∙ read-decimal_with (suc n) n (omega arith)

decimal_with-digits : (f n : ℕ) → All (λ c. (48 ≤ c) × (c < 58)) (decimal_with f n)
unfolding decimal_with
decimal_with-digits zero n = tt
decimal_with-digits (suc f) n = elim (Bool-cases (ltb n 10)) [
  | inl small ↦ rw small (ground arith)
  | inr large ↦
      rw large
        (All-append _ (decimal_with f (n / 10)) _ (decimal_with-digits f (n / 10)) (ground arith))
]

-- Each character is a digit.
pub decimal-digits : (n : ℕ) → All (λ c. (48 ≤ c) × (c < 58)) (decimal n)
unfolding decimal
decimal-digits n = decimal_with-digits (suc n) n
