-- ===== src/Strings/Split.antt =====
-- `text.split(" | ")`.
use trust_flow_chain_of_cust.Prelude.{
  length, All, ◌==◌, if◌then◌else◌, Text, codes, ℕ, zero, suc, ◌<◌, ◌≡◌, refl, ◌≢◌, ◌⊎◌, inl, inr,
  Option, none, some, List, [], ◌∷◌, ◌++◌, arith,
}
use mathlib.Core.List.{append-nil}
use trust_flow_chain_of_cust.Strings.Join.{join, Lacks}

-- `prefix` taken off the front of `s`.
strip_prefix : Text → Text → Option Text
strip_prefix [] s = some s
strip_prefix (c ∷ p) [] = none
strip_prefix (c ∷ p) (d ∷ s) = if c == d then strip_prefix p s else none

-- Puts a character in front of the first part.
push_char : ℕ → List Text → List Text
push_char c [] = (c ∷ []) ∷ []
push_char c (p ∷ ps) = (c ∷ p) ∷ ps

-- The parts of `s` between the occurrences of `sep`, found from the left, with fuel for the
-- characters of `s`.
split_with : ℕ → Text → Text → List Text
split_with zero sep s = [] ∷ []
split_with (suc f) sep [] = [] ∷ []
split_with (suc f) sep (c ∷ s) = elim (strip_prefix sep (c ∷ s)) [
  | some rest ↦ [] ∷ split_with f sep rest
  | none ↦ push_char c (split_with f sep s)
]

unfoldable pub split : Text → Text → List Text
unfolding split_with strip_prefix push_char
split sep s = split_with (suc (length s)) sep s

-- The separator of the audit log.
abbrev pub bar : Text
bar = codes " | "

-- Where neither this character nor the next begins the separator, it belongs to the part.
strip_prefix-char :
    (c : ℕ) (p r : Text)
    → c ≢ 124
    → Lacks 124 p
    → (r ≡ []) ⊎ ((r' : Text) × (r ≡ bar ++ r'))
    → strip_prefix bar (c ∷ (p ++ r)) ≡ none
unfolding strip_prefix
strip_prefix-char c [] r hc hp (inl e) = ground arith
strip_prefix-char c [] r hc hp (inr (r', e)) = rw e (ground arith)
strip_prefix-char c (d ∷ p) r hc hp e = ground arith

split_with-part : (f : ℕ) (p : Text) → length p < f → Lacks 124 p → split_with f bar p ≡ p ∷ []
unfolding split_with push_char
split_with-part zero p h l = elim h [ ]
split_with-part (suc f) [] h l = refl
split_with-part (suc f) (c ∷ p) h l =
    ground (arith, split_with-part f p, strip_prefix-char c p [] l.0 l.1, append-nil p)

split_with-more :
    (f : ℕ) (p r : Text) (ps : List Text)
    → length (p ++ (bar ++ r)) < f
    → Lacks 124 p
    → ((g : ℕ) → length r < g → split_with g bar r ≡ ps)
    → split_with f bar (p ++ (bar ++ r)) ≡ p ∷ ps
unfolding split_with strip_prefix push_char
split_with-more zero p r ps h l k = elim h [ ]
split_with-more (suc f) [] r ps h l k = rw (k f (omega arith))
split_with-more (suc f) (c ∷ p) r ps h l k = rw (
  strip_prefix-char c p (bar ++ r) l.0 l.1 (inr (r, refl)),
  split_with-more f p r ps (omega arith) l.1 k,
  split_with,
)

split_with-join :
    (p : Text) (ps : List Text) (f : ℕ)
    → length (join bar (p ∷ ps)) < f
    → All (Lacks 124) (p ∷ ps)
    → split_with f bar (join bar (p ∷ ps)) ≡ p ∷ ps
unfolding join
split_with-join p [] f h l = split_with-part f p h l.0
split_with-join p (q ∷ ps) f h l =
    split_with-more f p (join bar (q ∷ ps)) (q ∷ ps) h l.0 (λ g k. split_with-join q ps g k l.1)

-- Splitting undoes joining, where no part holds the bar itself.
pub split-join :
    (p : Text) (ps : List Text) → All (Lacks 124) (p ∷ ps) → split bar (join bar (p ∷ ps)) ≡ p ∷ ps
unfolding split
split-join p ps l = split_with-join p ps (suc (length (join bar (p ∷ ps)))) (omega arith) l
