-- ===== src/Sharing/Polynomial.antt =====
-- What the loop over the coefficients computes.
use native.Mathlib.Nat.{
  mod-add-mod, add-mod-mod, mod-lt, mod-eq_of_lt, div-add-mod, add-mul-mod_self_left, pow-suc,
  pow-zero,
}
use trust_flow_chain_of_cust.Sharing.Field.{evaluate_from, evaluate_polynomial}
use trust_flow_chain_of_cust.Prelude.{
  ℕ, suc, ◌+◌, ◌*◌, ◌/◌, ◌%◌, ◌^◌, ◌<◌, ◌≡◌, sym, ap, ◌∙◌, List, [], ◌∷◌, arith,
}

-- The value at `x` as a number, by Horner's rule.
unfoldable pub horner : List ℕ → ℕ → ℕ
horner [] x = 0
horner (c ∷ cs) x = c + x * horner cs x

mul-mod_right : (a b p : ℕ) → a * (b % p) % p ≡ a * b % p
mul-mod_right a b p = sym (
    ap (λ n. n % p) (split_product (b % p) (b / p) b (sym (div-add-mod b p)))
    ∙ add-mul-mod_self_left (a * (b % p)) p (a * (b / p)))
  where
    split_product : (r q n : ℕ) → n ≡ p * q + r → a * n ≡ a * r + p * (a * q)
    split_product r q n e = rw e (grind arith)

-- One more coefficient, on the loop's result.
step_residue :
    (c x i p r h : ℕ)
    → ((r + c * (x ^ i % p)) % p + x ^ (i + 1) * h) % p ≡ (r + x ^ i * (c + x * h)) % p
step_residue c x i p r h =
    mod-add-mod (r + c * (x ^ i % p)) p (x ^ (i + 1) * h)
    ∙ ap (λ n. n % p) (reorder (r) (c * (x ^ i % p)) (x ^ (i + 1) * h))
    ∙ sym (add-mod-mod (r + x ^ (i + 1) * h) (c * (x ^ i % p)) p)
    ∙ ap (λ n. (r + x ^ (i + 1) * h + n) % p) (mul-mod_right c (x ^ i) p)
    ∙ add-mod-mod (r + x ^ (i + 1) * h) (c * x ^ i) p
    ∙ ap (λ n. n % p) (factored (x ^ i) (x ^ (i + 1)) (ap (λ k. x ^ k) (next i) ∙ pow-suc x i))
  where
    reorder : (a b t : ℕ) → a + b + t ≡ a + t + b
    reorder a b t = omega arith

    next : (k : ℕ) → k + 1 ≡ suc k
    next k = omega arith

    factored : (y z : ℕ) → z ≡ y * x → r + z * h + c * y ≡ r + y * (c + x * h)
    factored y z e = rw e (grind arith)

evaluate_from-horner :
    (i : ℕ) (coefficients : List ℕ) (x p r : ℕ)
    → r < p
    → evaluate_from i coefficients x p r ≡ (r + x ^ i * horner coefficients x) % p
unfolding evaluate_from horner
evaluate_from-horner i [] x p r h = sym (ap (λ n. n % p) (no_more (x ^ i)) ∙ mod-eq_of_lt h)
  where
    no_more : (y : ℕ) → r + y * 0 ≡ r
    no_more y = omega arith
evaluate_from-horner i (c ∷ cs) x p r h =
    evaluate_from-horner (i + 1) cs x p ((r + c * (x ^ i % p)) % p)
      (mod-lt (r + c * (x ^ i % p)) (omega (arith, h)))
    ∙ step_residue c x i p r (horner cs x)

-- Modulo a positive number, the loop over the coefficients computes the residue of the
-- polynomial's value, as Horner's rule gives it.
pub evaluate_polynomial-horner :
    (coefficients : List ℕ) (x p : ℕ)
    → 0 < p
    → evaluate_polynomial coefficients x p ≡ horner coefficients x % p
unfolding evaluate_polynomial
evaluate_polynomial-horner coefficients x p h =
    evaluate_from-horner 0 coefficients x p 0 h ∙ ap (λ n. n % p) (at_start (horner coefficients x))
  where
    at_start : (y : ℕ) → 0 + x ^ 0 * y ≡ y
    at_start y = grind (arith, pow-zero x)
