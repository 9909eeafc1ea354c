-- ===== src/Audit/FileLine.antt =====
-- Lines of parts between bars, and how they are read back.
use trust_flow_chain_of_cust.Strings.Join.{join, Lacks}
use trust_flow_chain_of_cust.Strings.Split.{bar, split, split-join}
use trust_flow_chain_of_cust.Strings.Space.{is_space, IsWord, strip, strip_words}
use trust_flow_chain_of_cust.Audit.File.{cut_lines, is_comment}
use trust_flow_chain_of_cust.Prelude.{
  All, All-append, ◌==◌, Text, ℕ, ◌≡◌, refl, sym, ap, ◌∙◌, ◌≢◌, false, ◌||◌, List, [], ◌∷◌, ◌++◌,
  arith,
}

-- A character that ends no line and is no bar.
abbrev pub IsPlainChar : ℕ → Type 0
IsPlainChar c = ((c == 10 || c == 13) ≡ false) × (c ≢ 124)

abbrev pub IsPlain : Text → Type 0
IsPlain = All IsPlainChar

pub append_assoc : (xs ys zs : Text) → (xs ++ ys) ++ zs ≡ xs ++ (ys ++ zs)
append_assoc [] ys zs = refl
append_assoc (x ∷ xs) ys zs = ap (λ us. x ∷ us) (append_assoc xs ys zs)

pub join-snoc :
    (p : Text) (ps : List Text) (h : Text)
    → join bar (p ∷ (ps ++ h ∷ [])) ≡ join bar (p ∷ ps) ++ (bar ++ h)
unfolding join
join-snoc p [] h = refl
join-snoc p (q ∷ ps) h =
    ap (λ r. p ++ (bar ++ r)) (join-snoc q ps h)
    ∙ sym (append_assoc p (bar ++ join bar (q ∷ ps)) (bar ++ h))

Lacks-IsPlain : (s : Text) → IsPlain s → Lacks 124 s
Lacks-IsPlain [] h = tt
Lacks-IsPlain (c ∷ s) h = (h.0.1, Lacks-IsPlain s h.1)

pub word-IsPlain : (s : Text) → All (λ c. is_space c ≡ false) s → Lacks 124 s → IsPlain s
word-IsPlain [] h k = tt
word-IsPlain (c ∷ s) h k = ((ground (arith, h.0), k.0), word-IsPlain s h.1 k.1)

-- No line end, though it may be a bar.
abbrev IsOneLine : Text → Type 0
IsOneLine = All (λ c. (c == 10 || c == 13) ≡ false)

IsPlain-IsOneLine : (s : Text) → IsPlain s → IsOneLine s
IsPlain-IsOneLine [] h = tt
IsPlain-IsOneLine (c ∷ s) h = (h.0.0, IsPlain-IsOneLine s h.1)

cut_lines_one : (s : Text) → IsOneLine s → cut_lines s ≡ s ∷ []
unfolding cut_lines
cut_lines_one [] h = refl
cut_lines_one (c ∷ s) h = rw (cut_lines_one s h.1, h.0) refl

join-IsOneLine : (p : Text) (ps : List Text) → All IsPlain (p ∷ ps) → IsOneLine (join bar (p ∷ ps))
unfolding join
join-IsOneLine p [] h = IsPlain-IsOneLine p h.0
join-IsOneLine p (q ∷ ps) h =
    All-append (λ c. (c == 10 || c == 13) ≡ false) p (bar ++ join bar (q ∷ ps))
      (IsPlain-IsOneLine p h.0) (refl, (refl, (refl, join-IsOneLine q ps h.1)))

All-Lacks : (ps : List Text) → All IsPlain ps → All (Lacks 124) ps
All-Lacks [] h = tt
All-Lacks (p ∷ ps) h = (Lacks-IsPlain p h.0, All-Lacks ps h.1)

is_comment-append : (s r : Text) → IsWord s → is_comment (s ++ r) ≡ is_comment s
unfolding is_comment
is_comment-append [] r h = absurd (ground (arith, h.filled))
is_comment-append (c ∷ s) r h = refl

-- A line: parts between bars, and a hash at the end.
abbrev pub sealed_line : Text → List Text → Text → Text
sealed_line p ps h = join bar (p ∷ ps) ++ (bar ++ h)

strip-sealed_line :
    (p q : Text) (ps : List Text) (h : Text)
    → IsWord p
    → IsWord h
    → strip (sealed_line p (q ∷ ps) h) ≡ sealed_line p (q ∷ ps) h
unfolding join
strip-sealed_line p q ps h v w =
    let inner = bar ++ join bar (q ∷ ps) in
    let regroup : sealed_line p (q ∷ ps) h ≡ p ++ ((inner ++ bar) ++ h) =
      append_assoc p inner (bar ++ h) ∙ ap (λ r. p ++ r) (sym (append_assoc inner bar h)) in
    ap strip regroup ∙ strip_words p (inner ++ bar) h v w ∙ sym regroup

-- The parts are read back off such a line.
pub split-sealed_line :
    (p q : Text) (ps : List Text) (h : Text)
    → IsWord p
    → IsWord h
    → All IsPlain (p ∷ q ∷ (ps ++ h ∷ []))
    → split bar (strip (sealed_line p (q ∷ ps) h)) ≡ p ∷ q ∷ (ps ++ h ∷ [])
split-sealed_line p q ps h v w plain =
    ap (λ l. split bar l) (strip-sealed_line p q ps h v w ∙ sym (join-snoc p (q ∷ ps) h))
    ∙ split-join p (q ∷ (ps ++ h ∷ [])) (All-Lacks (p ∷ q ∷ (ps ++ h ∷ [])) plain)

-- It is one line.
pub cut_lines-sealed_line :
    (p q : Text) (ps : List Text) (h : Text)
    → All IsPlain (p ∷ q ∷ (ps ++ h ∷ []))
    → cut_lines (sealed_line p (q ∷ ps) h) ≡ sealed_line p (q ∷ ps) h ∷ []
cut_lines-sealed_line p q ps h plain =
    ap cut_lines (sym (join-snoc p (q ∷ ps) h))
    ∙ cut_lines_one (join bar (p ∷ q ∷ (ps ++ h ∷ [])))
        (join-IsOneLine p (q ∷ (ps ++ h ∷ [])) plain)
    ∙ ap (λ l. l ∷ []) (join-snoc p (q ∷ ps) h)

-- It is no comment, if its first part is none.
pub is_comment-sealed_line :
    (p q : Text) (ps : List Text) (h : Text)
    → IsWord p
    → is_comment (sealed_line p (q ∷ ps) h) ≡ is_comment p
unfolding join
is_comment-sealed_line p q ps h v =
    let inner = bar ++ join bar (q ∷ ps) in
    ap is_comment (append_assoc p inner (bar ++ h)) ∙ is_comment-append p (inner ++ (bar ++ h)) v
