-- ===== src/Sharing/Field.antt =====
-- The arithmetic of shares: polynomials, inverses and interpolation modulo a prime. A negative number
-- stands for the residue that Python's `%` gives it.
use trust_flow_chain_of_cust.Prelude.Int.{diff, ℤ, pos, negsuc}
use trust_flow_chain_of_cust.Prelude.{
  ◌==◌, if◌then◌else◌, ℕ, zero, suc, ◌+◌, ◌-◌, ◌*◌, ◌/◌, ◌%◌, ◌^◌, List, [], ◌∷◌, Option, some,
  none,
}

-- `x - q * y`, for a natural number q
unfoldable pub sub_times : ℤ → ℕ → ℤ → ℤ
unfolding diff
sub_times (pos x) q (pos y) = diff x (q * y)
sub_times (pos x) q (negsuc y) = pos (x + q * (y + 1))
sub_times (negsuc x) q (pos y) = diff 0 (x + 1 + q * y)
sub_times (negsuc x) q (negsuc y) = diff (q * (y + 1)) (x + 1)

-- `x % p`
unfoldable pub residue : ℤ → ℕ → ℕ
residue (pos x) p = x % p
residue (negsuc x) p = (p - (x + 1) % p) % p

abbrev pub prime : ℕ
prime = 2 ^ 256 - 189

-- `extended_gcd`, on fuel; `none` where the fuel is out before the first argument is zero
unfoldable pub extended_gcd : ℕ → ℕ → ℕ → Option (ℕ × (ℤ × ℤ))
unfolding sub_times
extended_gcd zero zero b = some (b, (pos 0, pos 1))
extended_gcd zero (suc a) b = none
extended_gcd (suc fuel) zero b = some (b, (pos 0, pos 1))
extended_gcd (suc fuel) (suc a) b = elim (extended_gcd fuel (b % suc a) (suc a)) [
  | none ↦ none
  | some (gcd, (x, y)) ↦ some (gcd, (sub_times y (b / suc a) x, x))
]

-- `_mod_inverse`; the algorithm has the fuel to end
unfoldable pub mod_inverse : ℕ → ℕ → ℕ
unfolding extended_gcd residue
mod_inverse a p = elim (extended_gcd (a % p) (a % p) p) [
  | none ↦ 0
  | some (_, (x, _)) ↦ residue x p
]

-- The loop of `_evaluate_polynomial`, from the i-th coefficient on.
unfoldable pub evaluate_from : ℕ → List ℕ → ℕ → ℕ → ℕ → ℕ
evaluate_from i [] x p result = result
evaluate_from i (coeff ∷ coefficients) x p result =
    evaluate_from (i + 1) coefficients x p ((result + coeff * (x ^ i % p)) % p)

unfoldable pub evaluate_polynomial : List ℕ → ℕ → ℕ → ℕ
unfolding evaluate_from
evaluate_polynomial coefficients x p = evaluate_from 0 coefficients x p 0

-- The inner loop of `_lagrange_interpolation`: the numerator and the denominator for the i-th share.
unfoldable pub basis_from : ℕ → ℕ → ℕ → ℕ → List (ℕ × ℕ) → ℕ × ℕ → ℕ × ℕ
basis_from i xi j p [] acc = acc
basis_from i xi j p ((xj, yj) ∷ shares) (numerator, denominator) =
    basis_from i xi (j + 1) p shares (
      if i == j
      then (numerator, denominator)
      else (numerator * (p - xj % p) % p, denominator * (xi + (p - xj % p)) % p))

unfoldable pub interpolate_from : List (ℕ × ℕ) → ℕ → List (ℕ × ℕ) → ℕ → ℕ → ℕ
unfolding basis_from mod_inverse
interpolate_from all i [] p secret = secret
interpolate_from all i ((xi, yi) ∷ shares) p secret =
    let (numerator, denominator) = basis_from i xi 0 p all (1, 1) in
    interpolate_from all (i + 1) shares p
      ((secret + yi * (numerator * mod_inverse denominator p % p)) % p)

unfoldable pub lagrange_interpolation : List (ℕ × ℕ) → ℕ → ℕ
unfolding interpolate_from
lagrange_interpolation shares p = interpolate_from shares 0 shares p 0
