-- ===== src/Sharing/Holders.antt =====
-- What the engine knows of a content once it is split.
use mathlib.Core.Path.{subst}
use trust_flow_chain_of_cust.Strings.Hex.{Bytes}
use trust_flow_chain_of_cust.Prelude.Dict.{Dict, lookup-insert}
use trust_flow_chain_of_cust.Prelude.KeySet.{of_list, elem-of_list}
use trust_flow_chain_of_cust.Prelude.Result.{Result, ok, err}
use trust_flow_chain_of_cust.Sharing.Share.{Share, Tools, Fresh, Error, split_secret}
use trust_flow_chain_of_cust.Sharing.Integrity.{IsShareOf, IsHmac, split_secret-IsShareOf}
use trust_flow_chain_of_cust.Sharing.Engine.{
  Engine, needed_of, keep_shares, register, split_content, get_share_holders, get_threshold,
  is_authorized, can_reconstruct,
}
use trust_flow_chain_of_cust.Prelude.{
  length, All, elem, ltb, Bool-cases, Text, ℕ, ◌≤◌, ◌≡◌, refl, sym, inl, inr, true, false, Option,
  none, List, [], ◌∷◌, arith,
}

-- A content is known to be split among some peers, under a threshold that they can meet.
pub record IsHeld (hash : Text) (ids : List Text) (e : Engine) : Type 0 where
  pub holders : get_share_holders hash e ≡ ids
  pub enough : can_reconstruct hash none e ≡ true
  pub allowed : (p : Text) → is_authorized hash p e ≡ elem p ids

register-IsHeld :
    (hash : Text) (ids : List Text) (key : Bytes) (needed : ℕ) (e : Engine)
    → needed ≤ length ids
    → IsHeld hash ids (register hash ids key needed e)
register-IsHeld hash ids key needed e h = record {
  holders =
      unfold get_share_holders register in
      ground (arith, lookup-insert hash hash ids e.share_registry);
  enough =
      unfold can_reconstruct get_share_holders get_threshold register in
      ground (
        arith,
        h,
        lookup-insert hash hash ids e.share_registry,
        lookup-insert hash hash needed e.thresholds,
      );
  allowed = λ p.
      unfold is_authorized register in
      ground
        (arith, lookup-insert hash hash (of_list ids) e.authorized_recipients, elem-of_list p ids);
}

keep_shares-IsHeld :
    (t : Tools) (hash : Text) (ids : List Text) (needed : ℕ) (shares : List Share) (key : Bytes)
    (e : Engine)
    → All (IsShareOf t key hash needed) shares
    → length shares ≡ length ids
    → 2 ≤ needed
    → needed ≤ length ids
    → IsHeld hash ids (keep_shares ids needed (shares, key) e).1
unfolding keep_shares
keep_shares-IsHeld t hash ids needed [] key e good n two h = absurd (omega (arith, n, two, h))
keep_shares-IsHeld t hash ids needed (s ∷ shares) key e good n two h =
    subst (λ k. IsHeld hash ids (register k ids key needed e)) (sym good.0.hashed)
      (register-IsHeld hash ids key needed e h)

-- After a content has been split among peers, the engine lists these peers as its holders,
-- takes it as reconstructible when all of them are there, and authorises exactly these peers,
-- if codes of authentication are not empty.
pub split_content-IsHeld :
    (t : Tools) (r : Fresh) (content : Text) (ids : List Text) (threshold : Option ℕ)
    (e e' : Engine) (m : Dict Share)
    → IsHmac t
    → split_content t r content ids threshold e ≡ ok (m, e')
    → IsHeld (t.cipher.digest (t.cipher.encode content)) ids e'
split_content-IsHeld t r content ids threshold e e' m h q = elim (Bool-cases (ltb (length ids) 2)) [
  | inl few ↦ absurd (unfold split_content in ground (arith, q, few))
  | inr many ↦ go (split_secret t r content (needed_of ids threshold) (length ids)) refl many
]
  where
    go :
        (x : Result Error (List Share × Bytes))
        → split_secret t r content (needed_of ids threshold) (length ids) ≡ x
        → ltb (length ids) 2 ≡ false
        → IsHeld (t.cipher.digest (t.cipher.encode content)) ids e'
    go (err y) s many = absurd (unfold split_content in ground (arith, q, s, many))
    go (ok (shares, key)) s many =
        let good =
          split_secret-IsShareOf t r content (needed_of ids threshold) (length ids) shares key h
            s in
        let after : (keep_shares ids (needed_of ids threshold) (shares, key) e).1 ≡ e' =
          unfold split_content in ground (arith, q, s, many) in
        subst (λ f. IsHeld (t.cipher.digest (t.cipher.encode content)) ids f) after
          (keep_shares-IsHeld t (t.cipher.digest (t.cipher.encode content)) ids
            (needed_of ids threshold) shares key e good.0 good.1 good.2 good.3)
