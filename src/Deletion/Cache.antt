-- ===== src/Deletion/Cache.antt =====
-- `ProcessedTokenCache`: the hashes of the tokens that were processed, with the times.
use trust_flow_chain_of_cust.Prelude.{
  ltb, if◌then◌else◌, Text, ℕ, ◌+◌, ◌≤◌, ◌≡◌, ◌⊎◌, Bool, none, some, [], arith, inl, inr,
}
use trust_flow_chain_of_cust.Prelude.Dict.{
  Dict, lookup, contains, insert, filter_values, lookup-filter_values, IsUnique, insert-IsUnique,
  filter_values-IsUnique, lookup-insert,
}
use trust_flow_chain_of_cust.Clock.{seconds}

abbrev pub cleanup_interval : ℕ
cleanup_interval = seconds 60

pub record TokenCache : Type 0 where
  pub processed : Dict ℕ
  pub max_age : ℕ
  pub last_cleanup : ℕ

-- `ProcessedTokenCache(max_age_seconds)`, made at the time `now`.
unfoldable pub new_cache : ℕ → ℕ → TokenCache
new_cache max_age_seconds now = record {
  processed = [];
  max_age = seconds max_age_seconds;
  last_cleanup = now;
}

-- `ts > now - max_age`
abbrev pub is_young : ℕ → ℕ → ℕ → Bool
is_young now max_age time = ltb now (time + max_age)

-- Drops the old entries, if the last time is at least the interval ago.
unfoldable pub maybe_cleanup : ℕ → TokenCache → TokenCache
maybe_cleanup now c = if ltb now (c.last_cleanup + cleanup_interval) then c else record c {
  processed = filter_values (is_young now c.max_age) c.processed;
  last_cleanup = now;
}

unfoldable pub is_processed : ℕ → Text → TokenCache → Bool × TokenCache
unfolding maybe_cleanup
is_processed now token_hash c =
    let c' = maybe_cleanup now c in (contains token_hash c'.processed, c')

unfoldable pub mark_processed : ℕ → Text → TokenCache → TokenCache
unfolding maybe_cleanup
mark_processed now token_hash c =
    maybe_cleanup now (record c { processed = insert token_hash now c.processed })

pub maybe_cleanup-IsUnique :
    (now : ℕ) (c : TokenCache) → IsUnique c.processed → IsUnique (maybe_cleanup now c).processed
unfolding maybe_cleanup
maybe_cleanup-IsUnique now c u =
    ground (arith, filter_values-IsUnique (is_young now c.max_age) c.processed u)

pub mark_processed-IsUnique :
    (now : ℕ) (h : Text) (c : TokenCache)
    → IsUnique c.processed
    → IsUnique (mark_processed now h c).processed
unfolding mark_processed
mark_processed-IsUnique now h c u =
    maybe_cleanup-IsUnique now _ (insert-IsUnique h now c.processed u)

-- A cleanup keeps an entry, or drops it when it has reached the maximal age.
pub lookup-maybe_cleanup :
    (now time : ℕ) (h : Text) (c : TokenCache)
    → IsUnique c.processed
    → lookup h c.processed ≡ some time
    → (lookup h (maybe_cleanup now c).processed ≡ some time)
      ⊎ ((lookup h (maybe_cleanup now c).processed ≡ none) × (time + c.max_age ≤ now))
unfolding maybe_cleanup
lookup-maybe_cleanup now time h c u e =
    ground (arith, lookup-filter_values (is_young now c.max_age) h c.processed u)

pub max_age-maybe_cleanup : (now : ℕ) (c : TokenCache) → (maybe_cleanup now c).max_age ≡ c.max_age
unfolding maybe_cleanup
max_age-maybe_cleanup now c = ground arith

-- A cleanup that is due drops an entry that has reached the maximal age.
pub maybe_cleanup-drops :
    (now time : ℕ) (h : Text) (c : TokenCache)
    → IsUnique c.processed
    → (lookup h c.processed ≡ some time) ⊎ (lookup h c.processed ≡ none)
    → time + c.max_age ≤ now
    → c.last_cleanup + cleanup_interval ≤ now
    → lookup h (maybe_cleanup now c).processed ≡ none
unfolding maybe_cleanup
maybe_cleanup-drops now time h c u e old due =
    ground (arith, lookup-filter_values (is_young now c.max_age) h c.processed u)

-- What a mark leaves under its own hash.
pub lookup-mark_processed :
    (now : ℕ) (h : Text) (c : TokenCache)
    → IsUnique c.processed
    → (lookup h (mark_processed now h c).processed ≡ some now)
      ⊎ (lookup h (mark_processed now h c).processed ≡ none)
unfolding mark_processed
lookup-mark_processed now h c u =
    let inserted : lookup h (insert h now c.processed) ≡ some now =
      ground (arith, lookup-insert h h now c.processed) in
    elim (lookup-maybe_cleanup now now h _ (insert-IsUnique h now c.processed u) inserted) [
      | inl kept ↦ inl kept
      | inr (gone, _) ↦ inr gone
    ]

pub max_age-mark_processed :
    (now : ℕ) (h : Text) (c : TokenCache) → (mark_processed now h c).max_age ≡ c.max_age
unfolding mark_processed
max_age-mark_processed now h c = max_age-maybe_cleanup now _
