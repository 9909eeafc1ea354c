-- ===== src/Gossip/Window.antt =====
-- How often one envelope is dispatched, while the cache remembers it and after.
use trust_flow_chain_of_cust.Gossip.Cache.{
  MessageCache, evict, maybe_cleanup, is_young, cleanup_interval, has_seen, mark_seen,
}
use trust_flow_chain_of_cust.Prelude.Dict.{
  Dict, lookup, insert, erase, filter_values, IsUnique, lookup-filter_values,
  filter_values-IsUnique, lookup-insert, insert-IsUnique, lookup-erase, erase-IsUnique,
}
use trust_flow_chain_of_cust.Prelude.{
  length, ltb, Bool-cases, Text, ℕ, ◌+◌, ◌≤◌, ◌≡◌, inl, inr, Bool, some, [], ◌∷◌, arith, text_eq,
  Option-cases, false, suc, true, if◌then◌else◌,
}

length-insert-le : (k : Text) (v : ℕ) (d : Dict ℕ) → length (insert k v d) ≤ length d + 1
unfolding insert
length-insert-le k v [] = omega arith
length-insert-le k v ((j, x) ∷ d) = ground (arith, length-insert-le k v d)

length-erase-le : (k : Text) (d : Dict ℕ) → length (erase k d) ≤ length d
unfolding erase
length-erase-le k [] = omega arith
length-erase-le k ((j, x) ∷ d) = ground (arith, length-erase-le k d)

length-filter_values-le : (f : ℕ → Bool) (d : Dict ℕ) → length (filter_values f d) ≤ length d
unfolding filter_values
length-filter_values-le f [] = omega arith
length-filter_values-le f ((j, x) ∷ d) = ground (arith, length-filter_values-le f d)

-- The id was marked at `first` or later, and there is room for `budget` more ids.
pub record Guard (id : Text) (first life budget : ℕ) (c : MessageCache) : Type 0 where
  pub marked : ℕ
  pub since : first ≤ marked
  pub found : lookup id c.cache ≡ some marked
  pub unique : IsUnique c.cache
  pub room : length c.cache + budget ≤ c.max_size
  pub lives : c.ttl ≡ life

module _ (id : Text) (first life : ℕ) where
  -- What a cleaning keeps, while the id is young and the rest is not too much.
  cleaned-Guard :
      (budget now : ℕ) (c : MessageCache)
      → now ≤ first + life
      → Guard id first life budget c
      → Guard id first life budget (record c {
        cache = evict c.max_size (filter_values (is_young now c.ttl) c.cache);
        last_cleanup = now;
      })
  unfolding evict
  cleaned-Guard budget now c h g = record {
    marked = g.marked;
    since = g.since;
    found = ground (
      arith,
      lookup-filter_values (is_young now c.ttl) id c.cache g.unique,
      g.found,
      g.since,
      g.lives,
      g.room,
      h,
      length-filter_values-le (is_young now c.ttl) c.cache,
    );
    unique = ground (
      arith,
      filter_values-IsUnique (is_young now c.ttl) c.cache g.unique,
      g.room,
      length-filter_values-le (is_young now c.ttl) c.cache,
    );
    room = ground (arith, g.room, length-filter_values-le (is_young now c.ttl) c.cache);
    lives = g.lives;
  }

  maybe_cleanup-Guard :
      (budget now : ℕ) (c : MessageCache)
      → now ≤ first + life
      → Guard id first life budget c
      → Guard id first life budget (maybe_cleanup now c)
  maybe_cleanup-Guard budget now c h g =
      elim (Bool-cases (ltb now (c.last_cleanup + cleanup_interval))) [
        | inl soon ↦ unfold maybe_cleanup in rw (soon) g
        | inr late ↦ unfold maybe_cleanup in rw (late) (cleaned-Guard budget now c h g)
      ]

  -- The marked id counts as seen.
  pub has_seen_found :
      (budget now : ℕ) (c : MessageCache)
      → now ≤ first + life
      → Guard id first life budget c
      → (has_seen now id c).0 ≡ true
  unfolding has_seen
  has_seen_found budget now c h g =
      let g' = maybe_cleanup-Guard budget now c h g in
      rw (g'.found, has_seen) (ground (arith, g'.since, g.lives, h))

  erase-Guard :
      (budget : ℕ) (k : Text) (c : MessageCache)
      → text_eq k id ≡ false
      → Guard id first life budget c
      → Guard id first life budget (record c { cache = erase k c.cache })
  erase-Guard budget k c other g = record {
    marked = g.marked;
    since = g.since;
    found = ground (arith, lookup-erase k id c.cache, g.found, other);
    unique = erase-IsUnique k c.cache g.unique;
    room = omega (arith, g.room, length-erase-le k c.cache);
    lives = g.lives;
  }

  -- Asking for an id keeps the mark of another.
  pub has_seen-Guard :
      (budget now : ℕ) (k : Text) (c : MessageCache)
      → now ≤ first + life
      → Guard id first life budget c
      → Guard id first life budget (has_seen now k c).1
  has_seen-Guard budget now k c h g =
      let g' = maybe_cleanup-Guard budget now c h g in
      elim (Option-cases (lookup k (maybe_cleanup now c).cache)) [
        | inl q ↦ unfold has_seen in rw (q, has_seen) g'
        | inr (time, q) ↦ elim (Bool-cases (ltb (time + c.ttl) now)) [
          | inr young ↦ unfold has_seen in rw (q, has_seen, young) g'
          | inl old ↦
              let other : text_eq k id ≡ false =
                ground (arith, q, g'.found, g'.since, g.lives, h, old) in
              unfold has_seen in
              rw (q, has_seen, old) (erase-Guard budget k (maybe_cleanup now c) other g')
        ]
      ]

  -- A mark that is set, for this id or another, uses up room for one.
  pub mark_seen-Guard :
      (budget now : ℕ) (k : Text) (c : MessageCache)
      → first ≤ now
      → now ≤ first + life
      → Guard id first life (suc budget) c
      → Guard id first life budget (mark_seen now k c)
  unfolding mark_seen
  mark_seen-Guard budget now k c l h g =
      maybe_cleanup-Guard budget now (record c { cache = insert k now c.cache }) h
        (record {
          marked = if text_eq id k then now else g.marked;
          since = ground (arith, l, g.since);
          found = ground (arith, lookup-insert k id now c.cache, g.found);
          unique = insert-IsUnique k now c.cache g.unique;
          room = omega (arith, g.room, length-insert-le k now c.cache);
          lives = g.lives;
        })

  -- A mark that is set now.
  pub mark_seen-starts :
      (budget : ℕ) (c : MessageCache)
      → c.ttl ≡ life
      → IsUnique c.cache
      → length c.cache + 1 + budget ≤ c.max_size
      → Guard id first life budget (mark_seen first id c)
  unfolding mark_seen
  mark_seen-starts budget c e u r =
      maybe_cleanup-Guard budget first (record c { cache = insert id first c.cache }) (omega arith)
        (record {
          marked = first;
          since = omega arith;
          found = ground (arith, lookup-insert id id first c.cache);
          unique = insert-IsUnique id first c.cache u;
          room = omega (arith, r, length-insert-le id first c.cache);
          lives = e;
        })

-- What asking does to a cache with room: it only takes entries out.
pub record Fits (room life : ℕ) (c : MessageCache) : Type 0 where
  pub unique : IsUnique c.cache
  pub fits : length c.cache + room ≤ c.max_size
  pub lives : c.ttl ≡ life

maybe_cleanup-Fits :
    (room life now : ℕ) (c : MessageCache) → Fits room life c → Fits room life (maybe_cleanup now c)
maybe_cleanup-Fits room life now c f =
    elim (Bool-cases (ltb now (c.last_cleanup + cleanup_interval))) [
      | inl soon ↦ unfold maybe_cleanup in rw (soon) f
      | inr late ↦ unfold maybe_cleanup in rw (late) cleaned
    ]
  where
    cleaned : Fits room life (record c {
      cache = evict c.max_size (filter_values (is_young now c.ttl) c.cache);
      last_cleanup = now;
    })
    cleaned =
        unfold evict in
        record {
          unique = ground (
            arith,
            filter_values-IsUnique (is_young now c.ttl) c.cache f.unique,
            f.fits,
            length-filter_values-le (is_young now c.ttl) c.cache,
          );
          fits = ground (arith, f.fits, length-filter_values-le (is_young now c.ttl) c.cache);
          lives = f.lives;
        }

pub has_seen-Fits :
    (room life now : ℕ) (k : Text) (c : MessageCache)
    → Fits room life c
    → Fits room life (has_seen now k c).1
has_seen-Fits room life now k c f =
    let f' = maybe_cleanup-Fits room life now c f in
    elim (Option-cases (lookup k (maybe_cleanup now c).cache)) [
      | inl q ↦ unfold has_seen in rw (q, has_seen) f'
      | inr (time, q) ↦ elim (Bool-cases (ltb (time + c.ttl) now)) [
        | inr young ↦ unfold has_seen in rw (q, has_seen, young) f'
        | inl old ↦ unfold has_seen in rw (q, has_seen, old) (erased (maybe_cleanup now c) f')
      ]
    ]
  where
    erased :
        (d : MessageCache)
        → Fits room life d
        → Fits room life (record d { cache = erase k d.cache })
    erased d g = record {
      unique = erase-IsUnique k d.cache g.unique;
      fits = omega (arith, g.fits, length-erase-le k d.cache);
      lives = g.lives;
    }
