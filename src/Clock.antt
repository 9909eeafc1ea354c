-- ===== src/Clock.antt =====
-- Time. A point in time is a number of microseconds since `datetime.min`, which is as fine as Python's
-- `datetime`; each operation takes the present time as an argument. How a `datetime` is written and
-- read is the library's, and a record here.
use trust_flow_chain_of_cust.Prelude.Int.{ℤ, neg_part, pos, negsuc}
use trust_flow_chain_of_cust.Prelude.{
  ℕ, ◌*◌, ◌≡◌, Text, [], ◌∷◌, ◌++◌, Option, some, codes, ◌==◌, if◌then◌else◌, arith, refl, ap, ◌∙◌,
  ◌-◌, ◌≤◌, leb, ◌+◌, none, ltb,
}
use trust_flow_chain_of_cust.Strings.Join.{Lacks}

-- `timedelta(seconds=n)`
abbrev pub seconds : ℕ → ℕ
seconds n = 1000000 * n

-- `datetime.max`
abbrev pub last_time : ℕ
last_time = 3652059 * 86400 * 1000000 - 1

-- `t + timedelta(microseconds=d)`; `none` where it raises an `OverflowError`
unfoldable pub shift : ℕ → ℤ → Option ℕ
shift t (pos n) = if leb (t + n) last_time then some (t + n) else none
shift t (negsuc n) = if ltb n t then some (t - (n + 1)) else none

-- `t + timedelta(seconds=n)`
unfoldable pub add_seconds : ℕ → ℤ → Option ℕ
unfolding shift
add_seconds t (pos n) = shift t (pos (seconds n))
add_seconds t (negsuc n) = shift t (negsuc (seconds (n + 1) - 1))

-- A number of seconds that is not negative.
abbrev pub IsNonNegative : ℤ → Type 0
IsNonNegative n = neg_part n ≡ 0

pub add_seconds-le : (t : ℕ) (n : ℤ) (t' : ℕ) → add_seconds t n ≡ some t' → IsNonNegative n → t ≤ t'
unfolding add_seconds shift
add_seconds-le t (pos n) t' e h = ground (arith, e)
add_seconds-le t (negsuc n) t' e h = absurd (omega (arith, h))

pub record TimeFormat : Type 0 where
  -- `t.isoformat()`, of a time in UTC
  pub isoformat : ℕ → Text
  -- `datetime.fromisoformat(text)`, where it does not raise and the result has a time zone
  pub fromisoformat : Text → Option ℕ

-- What the program relies on: a time that was written is read back, and is written without a `Z`.
pub record IsTimeFormat (f : TimeFormat) : Type 0 where
  pub fromisoformat-isoformat : (t : ℕ) → f.fromisoformat (f.isoformat t) ≡ some t
  pub isoformat-Lacks : (t : ℕ) → Lacks b'Z' (f.isoformat t)

-- `text.replace('Z', '+00:00')`
unfoldable pub replace_z : Text → Text
replace_z [] = []
replace_z (c ∷ s) = let rest = replace_z s in if c == b'Z' then codes "+00:00" ++ rest else c ∷ rest

pub replace_z-Lacks : (s : Text) → Lacks b'Z' s → replace_z s ≡ s
unfolding replace_z
replace_z-Lacks [] h = refl
replace_z-Lacks (c ∷ s) h = ground (arith, replace_z-Lacks s h.1)

-- A point in time as the tokens and tombstones of this program read it.
unfoldable pub parse_time : TimeFormat → Text → Option ℕ
parse_time f s = f.fromisoformat (replace_z s)

pub parse_time-isoformat :
    (f : TimeFormat) (t : ℕ) → IsTimeFormat f → parse_time f (f.isoformat t) ≡ some t
unfolding parse_time
parse_time-isoformat f t h =
    ap f.fromisoformat (replace_z-Lacks (f.isoformat t) (h.isoformat-Lacks t))
    ∙ h.fromisoformat-isoformat t
