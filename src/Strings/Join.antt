-- ===== src/Strings/Join.antt =====
-- `sep.join(parts)`.
use mathlib.Core.Path.{subst}
use trust_flow_chain_of_cust.Prelude.{
  length, All, Text, sym, ℕ, ◌≡◌, refl, ◌≢◌, List, [], ◌∷◌, ◌++◌, arith,
}

unfoldable pub join : Text → List Text → Text
join sep [] = []
join sep (p ∷ []) = p
join sep (p ∷ q ∷ ps) = p ++ (sep ++ join sep (q ∷ ps))

-- The character does not stand in the text.
abbrev pub Lacks : ℕ → Text → Type 0
Lacks c = All (λ d. d ≢ c)

-- A separator that neither part holds marks where they end.
pub append-separated-injective :
    (c : ℕ) (x y r s : Text) → Lacks c x → Lacks c y → x ++ c ∷ r ≡ y ++ c ∷ s → (x ≡ y) × (r ≡ s)
append-separated-injective c [] [] r s hx hy e = (refl, cc)
append-separated-injective c [] (d ∷ y) r s hx hy e = absurd (hy.0 (cc))
append-separated-injective c (d ∷ x) [] r s hx hy e = absurd (hx.0 (cc))
append-separated-injective c (d ∷ x) (b ∷ y) r s hx hy e =
    let rest = append-separated-injective c x y r s hx.1 hy.1 (cc) in
    let p : x ≡ y = rest.0 in (cc, rest.1)

not-Lacks-separated : (c : ℕ) (x r : Text) → ¬ Lacks c (x ++ c ∷ r)
not-Lacks-separated c [] r h = h.0 refl
not-Lacks-separated c (d ∷ x) r h = not-Lacks-separated c x r h.1

-- The parts of a join can be read off it, if none holds the separator.
pub join-injective :
    (c : ℕ) (xs ys : List Text)
    → length xs ≡ length ys
    → All (Lacks c) xs
    → All (Lacks c) ys
    → join (c ∷ []) xs ≡ join (c ∷ []) ys
    → xs ≡ ys
unfolding join
join-injective c [] [] n hx hy e = refl
join-injective c [] (y ∷ ys) n hx hy e = absurd (omega arith)
join-injective c (x ∷ xs) [] n hx hy e = absurd (omega arith)
join-injective c (x ∷ []) (y ∷ []) n hx hy e = cc
join-injective c (x ∷ []) (y ∷ y' ∷ ys) n hx hy e = absurd (omega arith)
join-injective c (x ∷ x' ∷ xs) (y ∷ []) n hx hy e = absurd (omega arith)
join-injective c (x ∷ x' ∷ xs) (y ∷ y' ∷ ys) n hx hy e =
    let both = append-separated-injective c x y _ _ hx.0 hy.0 e in
    let p : x ≡ y = both.0 in
    let q : x' ∷ xs ≡ y' ∷ ys =
      join-injective c (x' ∷ xs) (y' ∷ ys) (omega arith) hx.1 hy.1 both.1 in
    cc

-- If no part is empty, nor need the number of parts be known.
pub join-injective_nonempty :
    (c : ℕ) (xs ys : List Text)
    → All (λ x. (x ≢ []) × Lacks c x) xs
    → All (λ x. (x ≢ []) × Lacks c x) ys
    → join (c ∷ []) xs ≡ join (c ∷ []) ys
    → xs ≡ ys
unfolding join
join-injective_nonempty c [] [] hx hy e = refl
join-injective_nonempty c [] (y ∷ []) hx hy e = absurd (hy.0.0 (sym e))
join-injective_nonempty c [] ([] ∷ y' ∷ ys) hx hy e = absurd (hy.0.0 refl)
join-injective_nonempty c [] ((d ∷ y) ∷ y' ∷ ys) hx hy e = cc
join-injective_nonempty c (x ∷ []) [] hx hy e = absurd (hx.0.0 e)
join-injective_nonempty c ([] ∷ x' ∷ xs) [] hx hy e = absurd (hx.0.0 refl)
join-injective_nonempty c ((d ∷ x) ∷ x' ∷ xs) [] hx hy e = cc
join-injective_nonempty c (x ∷ []) (y ∷ []) hx hy e = cc
join-injective_nonempty c (x ∷ []) (y ∷ y' ∷ ys) hx hy e =
    absurd (not-Lacks-separated c y (join (c ∷ []) (y' ∷ ys)) (subst (Lacks c) e hx.0.1))
join-injective_nonempty c (x ∷ x' ∷ xs) (y ∷ []) hx hy e =
    absurd (not-Lacks-separated c x (join (c ∷ []) (x' ∷ xs)) (subst (Lacks c) (sym e) hy.0.1))
join-injective_nonempty c (x ∷ x' ∷ xs) (y ∷ y' ∷ ys) hx hy e =
    let both = append-separated-injective c x y _ _ hx.0.1 hy.0.1 e in
    let p : x ≡ y = both.0 in
    let q : x' ∷ xs ≡ y' ∷ ys = join-injective_nonempty c (x' ∷ xs) (y' ∷ ys) hx.1 hy.1 both.1 in cc
