-- ===== src/Gossip/Cache.antt =====
-- `MessageCache`: the messages that were seen, with the times at which they were marked.
use trust_flow_chain_of_cust.Clock.{seconds}
use trust_flow_chain_of_cust.Prelude.Dict.{Dict, lookup, insert, erase, filter_values}
use trust_flow_chain_of_cust.Prelude.{
  length, take, ltb, leb, if◌then◌else◌, Text, ℕ, ◌+◌, ◌-◌, Bool, true, false, none, some, List, [],
  ◌∷◌, map,
}

pub record MessageCache : Type 0 where
  pub cache : Dict ℕ
  pub max_size : ℕ
  pub ttl : ℕ
  pub last_cleanup : ℕ

abbrev pub cleanup_interval : ℕ
cleanup_interval = seconds 60

-- `MessageCache()`, with `DEFAULT_CACHE_SIZE` and `DEFAULT_CACHE_TTL`
unfoldable pub new_cache : ℕ → MessageCache
new_cache now = record { cache = []; max_size = 10000; ttl = seconds 300; last_cleanup = now }

-- `sorted(items, key=lambda x: x[1])`, which keeps the order of equal times
unfoldable pub insert_by_time : Text × ℕ → Dict ℕ → Dict ℕ
insert_by_time e [] = e ∷ []
insert_by_time e (f ∷ items) =
    let rest = insert_by_time e items in if leb e.1 f.1 then e ∷ f ∷ items else f ∷ rest

unfoldable pub sort_by_time : Dict ℕ → Dict ℕ
unfolding insert_by_time
sort_by_time [] = []
sort_by_time (e ∷ items) = insert_by_time e (sort_by_time items)

-- The same with `reverse=True`, which keeps the order of equal times too.
unfoldable pub insert_by_recency : Text × ℕ → Dict ℕ → Dict ℕ
insert_by_recency e [] = e ∷ []
insert_by_recency e (f ∷ items) =
    let rest = insert_by_recency e items in if leb f.1 e.1 then e ∷ f ∷ items else f ∷ rest

unfoldable pub sort_by_recency : Dict ℕ → Dict ℕ
unfolding insert_by_recency
sort_by_recency [] = []
sort_by_recency (e ∷ items) = insert_by_recency e (sort_by_recency items)

unfoldable pub erase_all : List (Text × ℕ) → Dict ℕ → Dict ℕ
erase_all [] d = d
erase_all (e ∷ es) d = erase_all es (erase e.0 d)

-- The oldest entries go where there are more than `max_size`.
unfoldable pub evict : ℕ → Dict ℕ → Dict ℕ
unfolding sort_by_time erase_all
evict max_size d =
    if ltb max_size (length d) then erase_all (take (length d - max_size) (sort_by_time d)) d else d

-- `v >= now - ttl`
abbrev pub is_young : ℕ → ℕ → ℕ → Bool
is_young now ttl time = leb now (time + ttl)

unfoldable pub maybe_cleanup : ℕ → MessageCache → MessageCache
unfolding evict
maybe_cleanup now c = if ltb now (c.last_cleanup + cleanup_interval) then c else record c {
  cache = evict c.max_size (filter_values (is_young now c.ttl) c.cache);
  last_cleanup = now;
}

unfoldable pub has_seen : ℕ → Text → MessageCache → Bool × MessageCache
unfolding maybe_cleanup
has_seen now msg_id c =
    let c' = maybe_cleanup now c in
    elim (lookup msg_id c'.cache) [
      | none ↦ (false, c')
      | some time ↦
          if ltb (time + c.ttl) now
          then (false, record c' { cache = erase msg_id c'.cache })
          else (true, c')
    ]

unfoldable pub mark_seen : ℕ → Text → MessageCache → MessageCache
unfolding maybe_cleanup
mark_seen now msg_id c = maybe_cleanup now (record c { cache = insert msg_id now c.cache })

unfoldable pub get_recent_ids : ℕ → MessageCache → List Text
unfolding sort_by_recency
get_recent_ids count c = map (λ e. e.0) (take count (sort_by_recency c.cache))
