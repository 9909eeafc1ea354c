-- ===== src/Sharing/Integrity.antt =====
-- What the shares of a content satisfy, and what a reconstruction has checked.
use trust_flow_chain_of_cust.Strings.Split.{split}
use mathlib.Core.Path.{subst}
use trust_flow_chain_of_cust.Strings.Hex.{Bytes}
use trust_flow_chain_of_cust.Strings.Join.{join}
use trust_flow_chain_of_cust.Strings.Decimal.{decimal}
use trust_flow_chain_of_cust.Prelude.Result.{Result, ok, err, ◌>>=◌}
use trust_flow_chain_of_cust.Sharing.Chunks.{split_into_chunks, join_chunks}
use trust_flow_chain_of_cust.Sharing.Share.{
  Share, Tools, Fresh, Common, bar, secret_of, common_of, combined_value, Error, compute_share_mac,
  verify_share_mac, make_share, shares_from, share_out, split_secret, polynomials_from,
}
use trust_flow_chain_of_cust.Sharing.Reconstruct.{
  reconstruct_checked, check_shares, reconstruct_chunks, open_content, checked_content,
  reconstruct_secret,
}
use trust_flow_chain_of_cust.Prelude.{
  length, take, All, ltb, Bool-cases, Option-cases, Text, text_eq_refl, is_empty, ℕ, zero, suc, ◌+◌,
  ◌≤◌, ◌≡◌, refl, sym, ap, ◌∙◌, inl, inr, Bool, true, false, Option, none, some, List, [], ◌∷◌,
  arith,
}

-- What a share of a content satisfies: it verifies, and it carries the content's hash and threshold.
pub record IsShareOf (t : Tools) (key : Bytes) (hash : Text) (needed : ℕ) (s : Share) : Type 0 where
  pub verifies : verify_share_mac t s key ≡ true
  pub hashed : s.content_hash ≡ hash
  pub agreed : s.threshold ≡ needed

-- A code of authentication is never empty.
abbrev pub IsHmac : Tools → Type 0
IsHmac t = (key : Bytes) (m : Text) → is_empty (t.hmac key m) ≡ false

make_share-IsShareOf :
    (t : Tools) (r : Fresh) (c : Common) (polynomials : List (List ℕ)) (x : ℕ)
    → IsHmac t
    → IsShareOf t r.hmac_key c.hash c.needed (make_share t r c polynomials x)
make_share-IsShareOf t r c polynomials x h = record {
  verifies =
      unfold verify_share_mac make_share compute_share_mac in
      rw (h r.hmac_key (join bar (decimal x ∷ combined_value t polynomials x ∷ c.hash ∷ [])))
        (text_eq_refl (compute_share_mac t (combined_value t polynomials x) x c.hash r.hmac_key));
  hashed = unfold make_share in refl;
  agreed = unfold make_share in refl;
}

shares_from-IsShareOf :
    (t : Tools) (r : Fresh) (c : Common) (polynomials : List (List ℕ)) (x n : ℕ)
    → IsHmac t
    → All (IsShareOf t r.hmac_key c.hash c.needed) (shares_from t r c polynomials x n)
      × (length (shares_from t r c polynomials x n) ≡ n)
unfolding shares_from
shares_from-IsShareOf t r c polynomials x zero h = (tt, refl)
shares_from-IsShareOf t r c polynomials x (suc n) h =
    let rest = shares_from-IsShareOf t r c polynomials (x + 1) n h in
    ((make_share-IsShareOf t r c polynomials x h, rest.0), ap suc rest.1)

share_out-made :
    (t : Tools) (r : Fresh) (content : Text) (threshold num_shares : ℕ) (shares : List Share)
    (key : Bytes)
    → share_out t r content threshold num_shares ≡ ok (shares, key)
    → (chunks : List Bytes) × ((shares
          ≡ shares_from t r
              (common_of t r content threshold num_shares)
              (polynomials_from r 0 chunks)
              1
              num_shares)
        × (key ≡ r.hmac_key))
share_out-made t r content threshold num_shares shares key e =
    elim (Option-cases (split_into_chunks (secret_of t r content))) [
      | inl q ↦ absurd (unfold share_out in ground (arith, e, q))
      | inr (chunks, q) ↦ (chunks, unfold share_out in (ground (arith, e, q), ground (arith, e, q)))
    ]

split_secret-checked :
    (t : Tools) (r : Fresh) (content : Text) (threshold num_shares : ℕ) (shares : List Share)
    (key : Bytes)
    → split_secret t r content threshold num_shares ≡ ok (shares, key)
    → (threshold ≤ num_shares)
      × ((2 ≤ threshold) × (share_out t r content threshold num_shares ≡ ok (shares, key)))
unfolding split_secret
split_secret-checked t r content threshold num_shares shares key e = ground (arith, e)

-- If splitting a content succeeds, then there are as many shares as asked for, each verifies
-- under the key that is returned and carries the digest of the content and the threshold, and
-- the threshold is at least two and at most the number of shares; codes of authentication are
-- not empty.
pub split_secret-IsShareOf :
    (t : Tools) (r : Fresh) (content : Text) (threshold num_shares : ℕ) (shares : List Share)
    (key : Bytes)
    → IsHmac t
    → split_secret t r content threshold num_shares ≡ ok (shares, key)
    → All (IsShareOf t key (t.cipher.digest (t.cipher.encode content)) threshold) shares
      × (length shares ≡ num_shares)
      × (2 ≤ threshold)
      × (threshold ≤ num_shares)
split_secret-IsShareOf t r content threshold num_shares shares key h e =
    let (few, (one, enough)) = split_secret-checked t r content threshold num_shares shares key e in
    let (chunks, (made, own)) = share_out-made t r content threshold num_shares shares key enough in
    let c = common_of t r content threshold num_shares in
    let good = shares_from-IsShareOf t r c (polynomials_from r 0 chunks) 1 num_shares h in
    (
      subst (λ k. All (IsShareOf t k (t.cipher.digest (t.cipher.encode content)) threshold) shares)
          (sym own)
          (subst
            (λ ss.
              All (IsShareOf t r.hmac_key (t.cipher.digest (t.cipher.encode content)) threshold) ss)
            (sym made) (unfold common_of in good.0)),
      ap length made ∙ good.1,
      one,
      few,
    )

bind_ok :
    {A B : Type 0} (x : Result Error A) (f : A → Result Error B) (b : B)
    → (x >>= f) ≡ ok b
    → (a : A) × ((x ≡ ok a) × (f a ≡ ok b))
bind_ok (ok a) f b e = (a, (refl, e))
bind_ok (err x) f b e = cc

check_shares-IsShareOf :
    (t : Tools) (head : Share) (key : Bytes) (shares : List Share) (b : Bool)
    → check_shares t head (some key) shares ≡ ok b
    → All (IsShareOf t key head.content_hash head.threshold) shares
unfolding check_shares
check_shares-IsShareOf t head key [] b e = tt
check_shares-IsShareOf t head key (s ∷ shares) b e = (
  record { verifies = ground (arith, e); hashed = ground (arith, e); agreed = ground (arith, e) },
  check_shares-IsShareOf t head key shares b (ground (arith, e)),
)

checked_content_sound :
    (t : Tools) (head : Share) (opened : Option Bytes) (content : Text)
    → checked_content t head opened ≡ some content
    → (bytes : Bytes) × ((t.cipher.decode bytes ≡ some content)
        × (t.cipher.digest bytes ≡ head.content_hash))
unfolding checked_content
checked_content_sound t head none content e = cc
checked_content_sound t head (some bytes) content e =
    (bytes, (ground (arith, e), ground (arith, e)))

reconstruct_checked_sound :
    (t : Tools) (head : Share) (shares : List Share) (key : Bytes) (content : Text)
    → reconstruct_checked t head shares (some key) ≡ ok (some content)
    → All (IsShareOf t key head.content_hash head.threshold) shares
      × ((bytes : Bytes) × ((t.cipher.decode bytes ≡ some content)
            × (t.cipher.digest bytes ≡ head.content_hash)))
unfolding reconstruct_checked
reconstruct_checked_sound t head shares key content e =
    let (b, (checks, e1)) = bind_ok (check_shares t head (some key) shares) _ (some content) e in
    let (chunks, (_, e2)) =
      bind_ok (reconstruct_chunks t (take head.threshold shares) 0 (length (split bar head.value)))
        _ (some content) e1 in
    let (opened, (_, e3)) =
      bind_ok (open_content t head (join_chunks chunks)) _ (some content) e2 in
    (
      check_shares-IsShareOf t head key shares b checks,
      checked_content_sound t head opened content (ground (arith, e3)),
    )

-- If a reconstruction under a key gives a content, then every share that was given verifies
-- under that key and agrees with the first in content hash and threshold, there were at least
-- as many shares as the threshold, and the content is the text of bytes whose digest is that
-- content hash.
pub reconstruct_secret_sound :
    (t : Tools) (head : Share) (shares : List Share) (key : Bytes) (content : Text)
    → reconstruct_secret t (head ∷ shares) (some key) ≡ ok (some content)
    → All (IsShareOf t key head.content_hash head.threshold) (head ∷ shares)
      × (head.threshold ≤ length (head ∷ shares))
      × ((bytes : Bytes) × ((t.cipher.decode bytes ≡ some content)
            × (t.cipher.digest bytes ≡ head.content_hash)))
reconstruct_secret_sound t head shares key content e =
    elim (Bool-cases (ltb (length (head ∷ shares)) head.threshold)) [
      | inl few ↦ absurd (unfold reconstruct_secret in ground (arith, e, few))
      | inr enough ↦
          let checked : reconstruct_checked t head (head ∷ shares) (some key) ≡ ok (some content) =
            unfold reconstruct_secret in ground (arith, e, enough) in
          let (good, found) =
            reconstruct_checked_sound t head (head ∷ shares) key content checked in
          (good, ground (arith, enough), found)
    ]
