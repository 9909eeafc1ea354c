-- ===== src/Strings/Hex.antt =====
-- `bytes.hex()` and `bytes.fromhex(text)`, on bytes as numbers below 256.
use trust_flow_chain_of_cust.Prelude.{
  All, ltb, leb, ◌==◌, if◌then◌else◌, Text, ℕ, ◌+◌, ◌-◌, ◌*◌, ◌/◌, ◌%◌, ◌<◌, ◌≡◌, refl, Bool, false,
  ◌&&◌, ◌||◌, Option, none, some, List, [], ◌∷◌, arith, ◌≢◌, is_empty,
}

abbrev pub Bytes : Type 0
Bytes = List ℕ

hex_digit : ℕ → ℕ
hex_digit n = if ltb n 10 then n + 48 else n + 87

unfoldable pub to_hex : Bytes → Text
unfolding hex_digit
to_hex [] = []
to_hex (b ∷ bs) = hex_digit (b / 16) ∷ hex_digit (b % 16) ∷ to_hex bs

-- The value of a digit, in either case.
hex_value : ℕ → Option ℕ
hex_value c =
    if leb 48 c && leb c 57
    then some (c - 48)
    else if leb 97 c && leb c 102
    then some (c - 87)
    else if leb 65 c && leb c 70
    then some (c - 55)
    else none

-- ASCII white space, which may stand between two bytes.
is_hex_space : ℕ → Bool
is_hex_space c = (leb 9 c && leb c 13) || c == 32

byte_of : Option ℕ → Option ℕ → Option Bytes → Option Bytes
byte_of (some a) (some b) (some bs) = some ((16 * a + b) ∷ bs)
byte_of _ _ _ = none

unfoldable pub from_hex : Text → Option Bytes
unfolding hex_value is_hex_space byte_of
from_hex [] = some []
from_hex (c ∷ []) = if is_hex_space c then some [] else none
from_hex (c ∷ d ∷ s) =
    let skipped = from_hex (d ∷ s) in
    let pair = byte_of (hex_value c) (hex_value d) (from_hex s) in
    if is_hex_space c then skipped else pair

hex_value-digit : (n : ℕ) → n < 16 → hex_value (hex_digit n) ≡ some n
unfolding hex_value hex_digit
hex_value-digit n h = ground arith

is_hex_space-digit : (n : ℕ) → n < 16 → is_hex_space (hex_digit n) ≡ false
unfolding is_hex_space hex_digit
is_hex_space-digit n h = ground arith

abbrev pub IsBytes : Bytes → Type 0
IsBytes = All (λ b. b < 256)

from_hex-byte :
    (b : ℕ) (s : Text) (bs : Bytes)
    → b < 256
    → from_hex s ≡ some bs
    → from_hex (hex_digit (b / 16) ∷ hex_digit (b % 16) ∷ s) ≡ some (b ∷ bs)
unfolding from_hex
from_hex-byte b s bs h e =
    rw
      (
        is_hex_space-digit (b / 16) (omega arith),
        hex_value-digit (b / 16) (omega arith),
        hex_value-digit (b % 16) (omega arith),
        e,
        byte_of,
      )
      (ground arith)

-- Reading back what was printed gives the same bytes.
pub from_hex-to_hex : (bs : Bytes) → IsBytes bs → from_hex (to_hex bs) ≡ some bs
unfolding from_hex to_hex
from_hex-to_hex [] h = refl
from_hex-to_hex (b ∷ bs) h = from_hex-byte b (to_hex bs) bs h.0 (from_hex-to_hex bs h.1)

pub to_hex-ne_nil : (s : Bytes) → s ≢ [] → is_empty (to_hex s) ≡ false
unfolding to_hex
to_hex-ne_nil [] h = absurd (h refl)
to_hex-ne_nil (b ∷ s) h = refl
