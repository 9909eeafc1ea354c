-- ===== src/Strings/Space.antt =====
-- White space: `text.isspace()`, character by character, and `text.strip()`.
use trust_flow_chain_of_cust.Prelude.{
  All, leb, ◌==◌, if◌then◌else◌, Text, is_empty, ℕ, ◌≡◌, refl, ap, ◌∙◌, Bool, false, ◌&&◌, ◌||◌, [],
  ◌∷◌, ◌++◌, arith,
}

abbrev pub is_space : ℕ → Bool
is_space c =
    (leb 9 c && leb c 13)
    || (leb 28 c && leb c 32)
    || (c == 133)
    || (c == 160)
    || (c == 5760)
    || (leb 8192 c && leb c 8202)
    || (c == 8232)
    || (c == 8233)
    || (c == 8239)
    || (c == 8287)
    || (c == 12288)

unfoldable pub strip_left : Text → Text
strip_left [] = []
strip_left (c ∷ s) = if is_space c then strip_left s else c ∷ s

unfoldable pub strip_right : Text → Text
strip_right [] = []
strip_right (c ∷ s) =
    let rest = strip_right s in if is_empty rest && is_space c then [] else c ∷ rest

unfoldable pub strip : Text → Text
unfolding strip_left strip_right
strip s = strip_right (strip_left s)

-- A text without white space that is not empty.
pub record IsWord (s : Text) : Type 0 where
  pub solid : All (λ c. is_space c ≡ false) s
  pub filled : is_empty s ≡ false

strip_right_solid : (s : Text) → All (λ c. is_space c ≡ false) s → strip_right s ≡ s
unfolding strip_right
strip_right_solid [] h = refl
strip_right_solid (c ∷ s) h = rw (strip_right_solid s h.1, h.0) (go s)
  where
    go : (r : Text) → (if is_empty r && false then [] else c ∷ r) ≡ c ∷ r
    go [] = refl
    go (d ∷ r) = refl

not_empty : (x t : Text) → is_empty t ≡ false → is_empty (x ++ t) ≡ false
not_empty [] t e = e
not_empty (c ∷ x) t e = refl

-- What ends without white space keeps its end, whatever stands before it.
strip_right-append :
    (x t : Text) → is_empty t ≡ false → strip_right t ≡ t → strip_right (x ++ t) ≡ x ++ t
unfolding strip_right
strip_right-append [] t e h = h
strip_right-append (c ∷ x) t e h = rw (strip_right-append x t e h) (go (x ++ t) (not_empty x t e))
  where
    go : (r : Text) → is_empty r ≡ false → (if is_empty r && is_space c then [] else c ∷ r) ≡ c ∷ r
    go r q = rw q refl

strip_left_word : (v r : Text) → IsWord v → strip_left (v ++ r) ≡ v ++ r
unfolding strip_left
strip_left_word [] r h = absurd (ground (arith, h.filled))
strip_left_word (c ∷ v) r h = rw (h.solid.0) refl

-- What begins and ends with a word has no white space to strip.
pub strip_words : (v x w : Text) → IsWord v → IsWord w → strip (v ++ (x ++ w)) ≡ v ++ (x ++ w)
unfolding strip
strip_words v x w h k =
    ap strip_right (strip_left_word v (x ++ w) h)
    ∙ strip_right-append v (x ++ w) (not_empty x w k.filled)
        (strip_right-append x w k.filled (strip_right_solid w k.solid))
