-- ===== src/ScriptNum.antt =====
-- scriptnum.go: the numbers of the script engine. An int64 is an integer in its range; `none` is a
-- run-time panic.
pub mod RoundTrip
pub mod Rounds
pub mod Tests
use banco.Prelude.{ℕ, zero, suc, ◌-◌, ◌/◌, ◌%◌, ◌^◌, ◌<◌, Bool, List, [], ◌∷◌}
use banco.Prelude.{Option, none, some, ltb, ◌==◌, if◌then◌else◌}
use banco.Prelude.Int.{ℤ, pos, negsuc, is_neg, nat_abs, ltb_ℤ}
use mathlib.Core.Option
use Prim.Native.Nat.{bit_and, bit_or}

abbrev pub int64_limit : ℕ
int64_limit = 2 ^ 63

-- From -(2 ^ 63) to 2 ^ 63 - 1.
abbrev pub IsInt64 : ℤ → Type 0
IsInt64 (pos n) = n < int64_limit
IsInt64 (negsuc n) = n < int64_limit

-- The number on which the loop `for n > 0` begins, after `n = -n` where that is negative. The least
-- int64 is its own negation and stays below zero, so the loop makes no round.
abbrev pub loop_start : ℤ → ℕ
loop_start n = if ltb (nat_abs n) int64_limit then nat_abs n else 0

-- The bytes that the loop appends: `byte(n & 0xff)`, then `n >>= 8`.
unfoldable pub le_loop : ℕ → ℕ → List ℕ
le_loop zero n = []
le_loop (suc rounds) n =
    let rest = le_loop rounds (n / 2 ^ 8) in if n == 0 then [] else (n % 2 ^ 8) ∷ rest

-- An extra byte, where the most significant one already has its high bit set, or that bit.
unfoldable pub sign_byte : Bool → ℕ → List ℕ
sign_byte negative b =
    if ltb 0 (bit_and b 0x80)
    then b ∷ (if negative then 0x80 else 0x00) ∷ []
    else if negative
    then bit_or b 0x80 ∷ []
    else b ∷ []

-- The last byte gets the sign; the index `len(result) - 1` panics on an empty slice.
unfoldable pub sign_last : Bool → List ℕ → Option (List ℕ)
unfolding sign_byte
sign_last negative [] = none
sign_last negative (b ∷ []) = some (sign_byte negative b)
sign_last negative (b ∷ c ∷ bs) = Option.map (λ t. b ∷ t) (sign_last negative (c ∷ bs))

-- `Bytes`. The loop makes 8 rounds at most, since the number is below 256 ^ 8.
unfoldable pub script_num_bytes : ℤ → Option (List ℕ)
script_num_bytes n =
    if nat_abs n == 0 then some [] else sign_last (is_neg n) (le_loop 8 (loop_start n))

abbrev pub max_int32 : ℤ
max_int32 = pos (2 ^ 31 - 1)

abbrev pub min_int32 : ℤ
min_int32 = negsuc (2 ^ 31 - 1)

-- The conversion `int32(n)`, which keeps the low 32 bits and reads them as a signed number.
abbrev signed_32 : ℕ → ℤ
signed_32 w = if ltb w (2 ^ 31) then pos w else negsuc (2 ^ 32 - w - 1)

unfoldable pub to_int32 : ℤ → ℤ
to_int32 (pos n) = signed_32 (n % 2 ^ 32)
to_int32 (negsuc n) = signed_32 (2 ^ 32 - 1 - n % 2 ^ 32)

-- `Int32`
unfoldable pub int32 : ℤ → ℤ
unfolding to_int32
int32 n =
    if ltb_ℤ max_int32 n then max_int32 else if ltb_ℤ n min_int32 then min_int32 else to_int32 n
