-- ===== src/Deletion/Replay.antt =====
-- Replay protection: how often one token can be admitted at a peer.
use mathlib.Core.Path.{subst}
use trust_flow_chain_of_cust.Deletion.Cache.{
  TokenCache, is_processed, maybe_cleanup, mark_processed, maybe_cleanup-IsUnique,
  max_age-maybe_cleanup, lookup-maybe_cleanup, cleanup_interval, maybe_cleanup-drops,
  mark_processed-IsUnique, lookup-mark_processed, max_age-mark_processed,
}
use trust_flow_chain_of_cust.Prelude.{
  ltb, if◌then◌else◌, Bool-cases, Text, Text-discrete, ℕ, ◌+◌, ◌≤◌, ◌<◌, ◌≡◌, refl, sym, ◌∙◌, ◌≢◌,
  ◌⊎◌, inl, inr, Option, none, some, List, [], ◌∷◌, arith,
}
use trust_flow_chain_of_cust.Prelude.Dict.{
  lookup, contains, insert, lookup-insert, IsUnique, insert-IsUnique,
}

-- How the engine treats a token before it looks at the signature.
pub data Verdict : Type 0 where
  admitted replayed expired : Verdict

-- A token that is not in the cache is refused if it has run out, and else marked. `runs_out` is the
-- time up to which the token is valid, `none` if its timestamp does not parse.
unfoldable pub admit_fresh : ℕ → Text → Option ℕ → TokenCache → Verdict × TokenCache
admit_fresh now token_hash none c = (expired, c)
admit_fresh now token_hash (some end) c =
    if ltb end now then (expired, c) else (admitted, mark_processed now token_hash c)

-- The head of `DeletionEngine.process_token`, on the cache of the receiving peer: the test for a
-- replay, the test for expiry, and the mark.
unfoldable pub admit : ℕ → Text → Option ℕ → TokenCache → Verdict × TokenCache
unfolding admit_fresh
admit now token_hash runs_out c =
    let (seen, c') = is_processed now token_hash c in
    if seen then (replayed, c') else admit_fresh now token_hash runs_out c'

-- A call of `process_token` at some time for some token.
pub record Call : Type 0 where
  pub time : ℕ
  pub token_hash : Text
  pub runs_out : Option ℕ

-- The cache after a row of calls.
unfoldable pub after : List Call → TokenCache → TokenCache
after [] c = c
after (k ∷ ks) c = after ks (admit k.time k.token_hash k.runs_out c).1

-- No call comes before the one ahead of it, and the first not before `start`; none comes after
-- `finish`.
abbrev pub InOrder : ℕ → List Call → ℕ → Type 0
InOrder start [] finish = start ≤ finish
InOrder start (k ∷ ks) finish = (start ≤ k.time) × InOrder k.time ks finish

-- Since the time `first`, either the token is remembered, or the time has come when its entry may
-- be dropped.
record Inv (first : ℕ) (h : Text) (age now : ℕ) (c : TokenCache) : Type 0 where
  unique : IsUnique c.processed
  aged : c.max_age ≡ age
  guarded : ((t : ℕ) × (first ≤ t) × (lookup h c.processed ≡ some t)) ⊎ (first + age ≤ now)

later-Inv :
    (first : ℕ) (h : Text) (age now later : ℕ) (c : TokenCache)
    → now ≤ later
    → Inv first h age now c
    → Inv first h age later c
later-Inv first h age now later c le inv = record {
  unique = inv.unique;
  aged = inv.aged;
  guarded = elim inv.guarded [ inl r ↦ inl r | inr l ↦ inr (omega arith) ];
}

maybe_cleanup-Inv :
    (first : ℕ) (h : Text) (age now : ℕ) (c : TokenCache)
    → Inv first h age now c
    → Inv first h age now (maybe_cleanup now c)
maybe_cleanup-Inv first h age now c inv = record {
  unique = maybe_cleanup-IsUnique now c inv.unique;
  aged = max_age-maybe_cleanup now c ∙ inv.aged;
  guarded = elim inv.guarded [
    | inr l ↦ inr l
    | inl (t, le, e) ↦ elim (lookup-maybe_cleanup now t h c inv.unique e) [
      | inl kept ↦ inl (t, le, kept)
      | inr (gone, old) ↦ inr (omega (arith, inv.aged))
    ]
  ];
}

insert-Inv :
    (first : ℕ) (h : Text) (age now : ℕ) (k : Text) (c : TokenCache)
    → first ≤ now
    → Inv first h age now c
    → Inv first h age now (record c { processed = insert k now c.processed })
insert-Inv first h age now k c le inv = record {
  unique = insert-IsUnique k now c.processed inv.unique;
  aged = inv.aged;
  guarded = elim inv.guarded [
    | inr l ↦ inr l
    | inl (t, tl, e) ↦ elim (Text-discrete h k) [
      | yes same ↦ inl (now, le, ground (arith, lookup-insert k h now c.processed))
      | no other ↦ inl (t, tl, ground (arith, lookup-insert k h now c.processed))
    ]
  ];
}

admitted_cases {ℓ} :
    (P : TokenCache → Type ℓ) (now : ℕ) (h : Text) (runs_out : Option ℕ) (c : TokenCache)
    → P (maybe_cleanup now c)
    → P (mark_processed now h (maybe_cleanup now c))
    → P (admit_fresh now h runs_out (maybe_cleanup now c)).1
admitted_cases P now h none c plain marked = unfold admit_fresh in plain
admitted_cases P now h (some end) c plain marked = elim (Bool-cases (ltb end now)) [
  | inl late ↦ unfold admit_fresh in rw late plain
  | inr valid ↦ unfold admit_fresh in rw valid marked
]

-- A call leaves the cache cleaned up, with or without a new mark.
admit_cases {ℓ} :
    (P : TokenCache → Type ℓ) (now : ℕ) (h : Text) (runs_out : Option ℕ) (c : TokenCache)
    → P (maybe_cleanup now c)
    → P (mark_processed now h (maybe_cleanup now c))
    → P (admit now h runs_out c).1
admit_cases P now h runs_out c plain marked =
    elim (Bool-cases (contains h (maybe_cleanup now c).processed)) [
      | inl seen ↦ unfold admit is_processed in rw seen plain
      | inr fresh ↦
          unfold admit is_processed in rw fresh (admitted_cases P now h runs_out c plain marked)
    ]

mark_processed-Inv :
    (first : ℕ) (h : Text) (age now : ℕ) (k : Text) (c : TokenCache)
    → first ≤ now
    → Inv first h age now c
    → Inv first h age now (mark_processed now k c)
unfolding mark_processed
mark_processed-Inv first h age now k c le inv =
    maybe_cleanup-Inv first h age now _ (insert-Inv first h age now k c le inv)

admit-Inv :
    (first : ℕ) (h : Text) (age now : ℕ) (k : Text) (runs_out : Option ℕ) (c : TokenCache)
    → first ≤ now
    → Inv first h age now c
    → Inv first h age now (admit now k runs_out c).1
admit-Inv first h age now k runs_out c le inv =
    let clean = maybe_cleanup-Inv first h age now c inv in
    admit_cases (Inv first h age now) now k runs_out c clean
      (mark_processed-Inv first h age now k (maybe_cleanup now c) le clean)

after-Inv :
    (first : ℕ) (h : Text) (age now finish : ℕ) (ks : List Call) (c : TokenCache)
    → first ≤ now
    → InOrder now ks finish
    → Inv first h age now c
    → Inv first h age finish (after ks c)
unfolding after
after-Inv first h age now finish [] c le order inv = later-Inv first h age now finish c order inv
after-Inv first h age now finish (k ∷ ks) c le order inv =
    after-Inv first h age k.time finish ks _ (omega arith) order.1 (
      admit-Inv first h age k.time k.token_hash k.runs_out c (omega arith)
        (later-Inv first h age now k.time c order.0 inv))

-- The mark that an admitted call leaves.
marked-Inv :
    (now : ℕ) (h : Text) (c : TokenCache)
    → IsUnique c.processed
    → Inv now h c.max_age now (mark_processed now h c)
unfolding mark_processed
marked-Inv now h c u = maybe_cleanup-Inv now h c.max_age now _ (record {
  unique = insert-IsUnique h now c.processed u;
  aged = refl;
  guarded = inl (now, omega arith, ground (arith, lookup-insert h h now c.processed));
})

admit-marks :
    (now end : ℕ) (h : Text) (c : TokenCache)
    → (admit now h (some end) c).0 ≡ admitted
    → (admit now h (some end) c).1 ≡ mark_processed now h (maybe_cleanup now c)
unfolding admit is_processed
admit-marks now end h c e = ground arith

admitted-Inv :
    (now end : ℕ) (h : Text) (c : TokenCache)
    → IsUnique c.processed
    → (admit now h (some end) c).0 ≡ admitted
    → Inv now h c.max_age now (admit now h (some end) c).1
admitted-Inv now end h c u e =
    subst (λ d. Inv now h c.max_age now d) (sym (admit-marks now end h c e))
      (subst (λ a. Inv now h a now (mark_processed now h (maybe_cleanup now c)))
        (max_age-maybe_cleanup now c)
        (marked-Inv now h (maybe_cleanup now c) (maybe_cleanup-IsUnique now c u)))

guarded-not-admitted :
    (first end age now : ℕ) (h : Text) (c : TokenCache)
    → end < first + age
    → Inv first h age now c
    → (admit now h (some end) c).0 ≢ admitted
unfolding admit is_processed
guarded-not-admitted first end age now h c le inv e =
    elim (maybe_cleanup-Inv first h age now c inv).guarded [
      | inl (t, tl, found) ↦ ground arith
      | inr old ↦ ground arith
    ]

-- A token that was admitted once at a peer is not admitted there again, whatever other tokens
-- come in between, if the cache has no key twice, time does not go back, and the token runs
-- out less than the cache's maximal age after the first time.
pub admit_once :
    (first second end : ℕ) (h : Text) (c : TokenCache) (between : List Call)
    → IsUnique c.processed
    → end < first + c.max_age
    → (admit first h (some end) c).0 ≡ admitted
    → InOrder first between second
    → (admit second h (some end) (after between (admit first h (some end) c).1)).0 ≢ admitted
admit_once first second end h c between u soon e order =
    guarded-not-admitted first end c.max_age second h _ soon (
      after-Inv first h c.max_age first second between _ (omega arith) order
        (admitted-Inv first end h c u e))

readmitted :
    (first second end : ℕ) (h : Text) (c : TokenCache)
    → IsUnique c.processed
    → first + c.max_age ≤ second
    → second ≤ end
    → (mark_processed first h c).last_cleanup + cleanup_interval ≤ second
    → (admit second h (some end) (mark_processed first h c)).0 ≡ admitted
readmitted first second end h c u old valid due =
    let gone =
      maybe_cleanup-drops second first h (mark_processed first h c)
        (mark_processed-IsUnique first h c u) (lookup-mark_processed first h c u)
        (omega (arith, max_age-mark_processed first h c)) due in
    unfold admit is_processed in rw gone (ground arith)

-- A token is admitted a second time, if the cache has no key twice, once its first mark has
-- reached the maximal age and the next cleanup is due, as long as it has not run out.
pub admit_twice :
    (first second end : ℕ) (h : Text) (c : TokenCache)
    → IsUnique c.processed
    → (admit first h (some end) c).0 ≡ admitted
    → first + c.max_age ≤ second
    → second ≤ end
    → (admit first h (some end) c).1.last_cleanup + cleanup_interval ≤ second
    → (admit second h (some end) (admit first h (some end) c).1).0 ≡ admitted
admit_twice first second end h c u e old valid due =
    let c' : TokenCache = mark_processed first h (maybe_cleanup first c) in
    let same : (admit first h (some end) c).1 ≡ c' = admit-marks first end h c e in
    rw same (
      readmitted first second end h (maybe_cleanup first c) (maybe_cleanup-IsUnique first c u)
        (omega (arith, max_age-maybe_cleanup first c)) valid (rw same at due))
