-- ===== src/ScriptNum/Tests.antt =====
-- Script numbers at concrete integers.
use banco.Prelude.{ℕ, ◌^◌, ◌≤◌, ◌≡◌, refl, arith, ◌⊎◌, List, [], ◌∷◌, some, length}
use banco.Prelude.Int.{pos, negsuc, ◌≤ℤ◌}
use banco.ScriptNum.{script_num_bytes, loop_start, le_loop, sign_last, int32, min_int32, max_int32}
use banco.ScriptNum.Rounds.{le_loop-rounds}
use banco.ScriptNum.RoundTrip.{script_value, IsMinimal, script_value-script_num_bytes, int32_clamp}

-- -128 needs a byte for its sign.
bytes_of : script_num_bytes (negsuc 127) ≡ some (0x80 ∷ 0x80 ∷ [])
unfolding script_num_bytes le_loop sign_last
bytes_of = refl

script_value-script_num_bytes_example :
    (bs : List ℕ) × (script_num_bytes (negsuc 127) ≡ some bs)
    × (script_value bs ≡ negsuc 127)
    × IsMinimal bs
    × (length bs ≤ 9)
script_value-script_num_bytes_example = script_value-script_num_bytes (negsuc 127) (omega arith)

int32_clamp_example :
    (min_int32 ≤ℤ int32 (pos (2 ^ 40)))
    × (int32 (pos (2 ^ 40)) ≤ℤ max_int32)
    × ((int32 (pos (2 ^ 40)) ≡ pos (2 ^ 40))
        ⊎ ((int32 (pos (2 ^ 40)) ≡ max_int32) × (max_int32 ≤ℤ pos (2 ^ 40)))
        ⊎ ((int32 (pos (2 ^ 40)) ≡ min_int32) × (pos (2 ^ 40) ≤ℤ min_int32)))
int32_clamp_example = int32_clamp (pos (2 ^ 40)) (omega arith)

le_loop-rounds_example :
    (le_loop 20 (loop_start (pos 1000)) ≡ le_loop 8 (loop_start (pos 1000)))
    × (length (le_loop 20 (loop_start (pos 1000))) ≤ 8)
le_loop-rounds_example = le_loop-rounds (pos 1000) 20 (omega arith)
