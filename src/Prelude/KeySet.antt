-- ===== src/Prelude/KeySet.antt =====
-- A Python set of texts, as a list without order.
use mathlib.Core.Logic.{◌≢◌}
use trust_flow_chain_of_cust.Prelude.Lists.{elem, elem-append, elem-retain, retain}
use trust_flow_chain_of_cust.Prelude.Tests.{Text, text_eq, if◌then◌else◌}
use mathlib.Core.Bool.{Bool, true, not, ◌&&◌, ◌||◌}
use mathlib.Core.List.{List, [], ◌∷◌, ◌++◌}
use mathlib.Core.Path.{◌≡◌, refl}
use native.Mathlib.Omega.{arith}

-- `s.add(a)`
unfoldable pub add : Text → List Text → List Text
unfolding elem
add a s = if elem a s then s else s ++ a ∷ []

-- `s.discard(a)`
unfoldable pub discard : Text → List Text → List Text
unfolding retain
discard a s = retain (λ x. not (text_eq a x)) s

-- `set(xs)`
unfoldable pub of_list : List Text → List Text
unfolding add
of_list [] = []
of_list (x ∷ xs) = add x (of_list xs)

-- `a - b`
unfoldable pub difference : List Text → List Text → List Text
unfolding retain elem
difference a b = retain (λ x. not (elem x b)) a

-- `a.issubset(b)`
unfoldable pub is_subset : List Text → List Text → Bool
unfolding elem
is_subset [] b = true
is_subset (x ∷ a) b = elem x b && is_subset a b

pub elem-add : (a b : Text) (s : List Text) → elem b (add a s) ≡ (text_eq b a || elem b s)
unfolding add elem
elem-add a b s = ground (arith, elem-append b s (a ∷ []))

pub elem-discard :
    (a b : Text) (s : List Text) → elem b (discard a s) ≡ (elem b s && not (text_eq a b))
unfolding discard
elem-discard a b s = elem-retain b _ s

pub elem-of_list : (b : Text) (xs : List Text) → elem b (of_list xs) ≡ elem b xs
unfolding of_list elem
elem-of_list b [] = refl
elem-of_list b (x ∷ xs) = ground (arith, elem-add x b (of_list xs), elem-of_list b xs)

pub elem-difference :
    (a : Text) (s t : List Text) → elem a (difference s t) ≡ (elem a s && not (elem a t))
unfolding difference
elem-difference a s t = elem-retain a _ s

pub is_subset-elem :
    (s t : List Text) (a : Text) → is_subset s t ≡ true → elem a s ≡ true → elem a t ≡ true
unfolding is_subset elem
is_subset-elem [] t a h k = cc
is_subset-elem (x ∷ s) t a h k = ground (arith, is_subset-elem s t a)

-- A set is not empty once something has been added to it.
pub add-ne_nil : (a : Text) (s : List Text) → add a s ≢ []
unfolding add elem
add-ne_nil a [] e = cc
add-ne_nil a (x ∷ s) e = ground arith

pub is_subset_mono :
    (s t u : List Text)
    → ((a : Text) → elem a t ≡ true → elem a u ≡ true)
    → is_subset s t ≡ true
    → is_subset s u ≡ true
unfolding is_subset
is_subset_mono [] t u h e = refl
is_subset_mono (x ∷ s) t u h e = ground (arith, h x, is_subset_mono s t u h)
