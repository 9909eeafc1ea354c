-- ===== src/Storage/Tombstones.antt =====
-- How tombstones run out, and that cleaning them up changes no later answer.
use trust_flow_chain_of_cust.Prelude.Dict.{
  IsUnique, lookup, lookup-erase, lookup-insert, lookup-filter_values,
}
use trust_flow_chain_of_cust.Clock.{TimeFormat, parse_time}
use trust_flow_chain_of_cust.Storage.{
  ContentTombstone, Storage, is_expired, is_tombstoned, add_tombstone, cleanup_expired_tombstones,
}
use trust_flow_chain_of_cust.Prelude.{
  leb, if◌then◌else◌, Text, text_eq, ℕ, ◌≤◌, ◌≡◌, Bool, true, false, not, Option, none, some, arith,
}

-- The tombstone of a content that is in force at a time.
abbrev pub in_force : TimeFormat → ℕ → Option ContentTombstone → Bool
in_force f now none = false
in_force f now (some t) = not (is_expired f now t)

pub is_tombstoned-in_force :
    (f : TimeFormat) (now : ℕ) (ch : Text) (s : Storage)
    → (is_tombstoned f now ch s).0 ≡ in_force f now (lookup ch s.tombstones)
unfolding is_tombstoned
is_tombstoned-in_force f now ch s = ground arith

in_force_mono :
    (f : TimeFormat) (now later : ℕ) (o : Option ContentTombstone)
    → now ≤ later
    → in_force f later o ≡ true
    → in_force f now o ≡ true
unfolding is_expired
in_force_mono f now later none h e = e
in_force_mono f now later (some t) h e = ground arith

-- A tombstone whose expiry reads is, once added, in force at any time up to its expiry and not
-- after it, whatever stood there before, and for other contents the answer is as it was.
pub is_tombstoned-add_tombstone :
    (f : TimeFormat) (t : ContentTombstone) (expiry now : ℕ) (ch : Text) (s : Storage)
    → parse_time f t.delete_after ≡ some expiry
    → (is_tombstoned f now ch (add_tombstone t s)).0
      ≡ (if text_eq ch t.content_hash then leb now expiry else (is_tombstoned f now ch s).0)
is_tombstoned-add_tombstone f t expiry now ch s e =
    rw (is_tombstoned-in_force f now ch (add_tombstone t s), is_tombstoned-in_force f now ch s)
      (unfold add_tombstone is_expired in
        ground (arith, lookup-insert t.content_hash ch t s.tombstones))

-- Looking a tombstone up, which may drop it, changes no answer at that time or later.
pub is_tombstoned_stable :
    (f : TimeFormat) (now later : ℕ) (ch other : Text) (s : Storage)
    → now ≤ later
    → (is_tombstoned f later other (is_tombstoned f now ch s).1).0
      ≡ (is_tombstoned f later other s).0
is_tombstoned_stable f now later ch other s h =
    rw
      (
        is_tombstoned-in_force f later other (is_tombstoned f now ch s).1,
        is_tombstoned-in_force f later other s,
      )
      (unfold is_tombstoned is_expired in ground (arith, lookup-erase ch other s.tombstones))

-- A cleanup of tombstones, none of which is listed twice, changes no answer at that time or
-- later.
pub cleanup_expired_tombstones_stable :
    (f : TimeFormat) (now later : ℕ) (ch : Text) (s : Storage)
    → IsUnique s.tombstones
    → now ≤ later
    → (is_tombstoned f later ch (cleanup_expired_tombstones f now s).1).0
      ≡ (is_tombstoned f later ch s).0
cleanup_expired_tombstones_stable f now later ch s u h =
    rw
      (
        is_tombstoned-in_force f later ch (cleanup_expired_tombstones f now s).1,
        is_tombstoned-in_force f later ch s,
      )
      (unfold cleanup_expired_tombstones is_expired in
        ground (arith, lookup-filter_values (λ t. not (is_expired f now t)) ch s.tombstones u))
