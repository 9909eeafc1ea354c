-- ===== src/Sharing/Fuel.antt =====
-- The fuel of `extended_gcd`, the function inside `_mod_inverse`.
use trust_flow_chain_of_cust.Prelude.Int.{ℤ, diff, pos_part, neg_part, pos, negsuc}
use native.Mathlib.Nat
use native.Mathlib.Nat.{mod-lt}
use trust_flow_chain_of_cust.Sharing.Field.{extended_gcd, sub_times}
use trust_flow_chain_of_cust.Prelude.{
  ℕ, zero, suc, ◌%◌, ◌≤◌, ◌<◌, ◌≡◌, refl, arith, ◌*◌, some, ◌+◌, ap, ◌/◌, sym,
}

-- The parts of a difference.
sub_times_parts :
    (y : ℤ) (q : ℕ) (x : ℤ)
    → pos_part (sub_times y q x) + neg_part y + q * pos_part x
      ≡ neg_part (sub_times y q x) + pos_part y + q * neg_part x
unfolding sub_times diff
sub_times_parts (pos y) q (pos x) = ground arith
sub_times_parts (pos y) q (negsuc x) = ground arith
sub_times_parts (negsuc y) q (pos x) = ground arith
sub_times_parts (negsuc y) q (negsuc x) = ground arith

-- The coefficients for `b % a` and `a` give those for `a` and `b`.
combine :
    (a q r b g px nx py ny u v : ℕ)
    → b ≡ a * q + r
    → r * px + a * py ≡ g + (r * nx + a * ny)
    → u + ny + q * px ≡ v + py + q * nx
    → a * u + b * px ≡ g + (a * v + b * nx)
combine a q r b g px nx py ny u v h k s = rw h (omega (arith, k, ap (λ (t : ℕ). a * t) s))

-- A result of the algorithm: it divides both numbers and is the sum of their multiples by the two
-- coefficients.
abbrev pub IsBezout : ℕ → ℕ → ℕ → ℤ → ℤ → Type 0
IsBezout a b g x y =
    ((m : ℕ) × (a ≡ g * m))
    × ((n : ℕ) × (b ≡ g * n))
    × (a * pos_part x + b * pos_part y ≡ g + (a * neg_part x + b * neg_part y))

-- With fuel that is not below its first argument, the extended Euclidean algorithm ends with a
-- number that divides both arguments and is the sum of their multiples by the two
-- coefficients.
pub extended_gcd_ends :
    (fuel a b : ℕ)
    → a ≤ fuel
    → (g : ℕ) × (x : ℤ) × (y : ℤ) × (extended_gcd fuel a b ≡ some (g, (x, y))) × IsBezout a b g x y
unfolding extended_gcd
extended_gcd_ends zero zero b h =
    (b, pos 0, pos 1, refl, ((0, omega arith), (1, omega arith), omega arith))
extended_gcd_ends (suc fuel) zero b h =
    (b, pos 0, pos 1, refl, ((0, omega arith), (1, omega arith), omega arith))
extended_gcd_ends zero (suc a) b h = absurd (omega (arith, h))
extended_gcd_ends (suc fuel) (suc a) b h =
    let smaller : b % suc a < suc a = mod-lt b (omega arith) in
    let split : b ≡ suc a * (b / suc a) + b % suc a = sym (Nat.div-add-mod b (suc a)) in
    let (g, x, y, e, ((m, dm), (n, dn), s)) =
      extended_gcd_ends fuel (b % suc a) (suc a) (omega (arith, h, smaller)) in
    (
      g,
      sub_times y (b / suc a) x,
      x,
      rw e refl,
      (
        (n, dn),
        (n * (b / suc a) + m, divided (suc a) (b / suc a) (b % suc a) b g n m split dn dm),
        combine (suc a) (b / suc a) (b % suc a) b g (pos_part x) (neg_part x) (pos_part y)
            (neg_part y) _ _ split s (sub_times_parts y (b / suc a) x),
      ),
    )
  where
    divided : (a q r b g n m : ℕ) → b ≡ a * q + r → a ≡ g * n → r ≡ g * m → b ≡ g * (n * q + m)
    divided a q r b g n m split da dr = rw (split, dr, da) (omega arith)
