-- ===== src/Strings/Sort.antt =====
-- `sorted(texts)`: by code points, and stable.
use trust_flow_chain_of_cust.Prelude.{
  elem, ltb, ◌==◌, if◌then◌else◌, Text, text_eq, ◌≡◌, refl, Bool, true, false, ◌||◌, List, [], ◌∷◌,
  arith,
}

-- `a <= b` on texts.
unfoldable pub text_leb : Text → Text → Bool
text_leb [] b = true
text_leb (x ∷ a) [] = false
text_leb (x ∷ a) (y ∷ b) = let rest = text_leb a b in if x == y then rest else ltb x y

insert : Text → List Text → List Text
insert a [] = a ∷ []
insert a (b ∷ bs) = let rest = insert a bs in if text_leb a b then a ∷ b ∷ bs else b ∷ rest

unfoldable pub sorted : List Text → List Text
unfolding insert text_leb
sorted [] = []
sorted (a ∷ xs) = insert a (sorted xs)

abbrev pub IsSorted : List Text → Type 0
IsSorted [] = Unit {0}
IsSorted (a ∷ []) = Unit {0}
IsSorted (a ∷ b ∷ bs) = (text_leb a b ≡ true) × IsSorted (b ∷ bs)

text_leb-total : (a b : Text) → text_leb a b ≡ false → text_leb b a ≡ true
unfolding text_leb
text_leb-total [] b h = cc
text_leb-total (x ∷ a) [] h = refl
text_leb-total (x ∷ a) (y ∷ b) h = ground (arith, text_leb-total a b)

insert-IsSorted : (a : Text) (bs : List Text) → IsSorted bs → IsSorted (insert a bs)
unfolding insert
insert-IsSorted a [] h = tt
insert-IsSorted a (b ∷ []) h = ground (arith, text_leb-total a b)
insert-IsSorted a (b ∷ c ∷ bs) h =
    ground (arith, insert-IsSorted a (c ∷ bs) h.1, text_leb-total a b)

pub sorted-IsSorted : (xs : List Text) → IsSorted (sorted xs)
unfolding sorted
sorted-IsSorted [] = tt
sorted-IsSorted (a ∷ xs) = insert-IsSorted a (sorted xs) (sorted-IsSorted xs)

insert_least : (a : Text) (bs : List Text) → IsSorted (a ∷ bs) → insert a bs ≡ a ∷ bs
unfolding insert
insert_least a [] h = refl
insert_least a (b ∷ bs) h = rw (h.0)

-- A sorted list is left xs it is.
pub sorted-eq_self : (xs : List Text) → IsSorted xs → sorted xs ≡ xs
unfolding sorted
sorted-eq_self [] h = refl
sorted-eq_self (a ∷ []) h = unfold insert in refl
sorted-eq_self (a ∷ b ∷ bs) h = rw (sorted-eq_self (b ∷ bs) h.1) (insert_least a (b ∷ bs) h)

elem-insert : (c a : Text) (bs : List Text) → elem c (insert a bs) ≡ (text_eq c a || elem c bs)
unfolding insert elem
elem-insert c a [] = refl
elem-insert c a (b ∷ bs) = ground (arith, elem-insert c a bs)

-- Sorting keeps the members.
pub elem-sorted : (c : Text) (xs : List Text) → elem c (sorted xs) ≡ elem c xs
unfolding sorted elem
elem-sorted c [] = refl
elem-sorted c (a ∷ xs) = rw (elem-insert c a (sorted xs), elem-sorted c xs)
