-- ===== src/ScriptNum/RoundTrip.antt =====
-- The bytes of a script number read back as the number, and are as few as there can be.
use banco.Prelude.{ℕ, zero, suc, ◌+◌, ◌-◌, ◌*◌, ◌/◌, ◌%◌, ◌^◌, ◌<◌, ◌≤◌, ◌≡◌, refl, ap, arith}
use banco.Prelude.{Bool, true, false, ◌⊎◌, inl, inr, List, [], ◌∷◌, length, All, none, some}
use banco.Prelude.{ltb, leb, ◌==◌, ◌&&◌, Bool-cases, ne→==, lt→ltb}
use banco.Prelude.Int.{ℤ, pos, negsuc, is_neg, nat_abs, of_sign, ◌≤ℤ◌}
use banco.Buffer.ByteOrder.{IsByte, le_decode}
use banco.ScriptNum.{int64_limit, IsInt64, le_loop, sign_byte, sign_last, script_num_bytes}
use banco.ScriptNum.{int32, max_int32, min_int32}
use Prim.Native.Nat.{bit_and, bit_or}

-- Two functions that agree on every byte, by evaluation.
agree : (ℕ → ℕ) → (ℕ → ℕ) → ℕ → Bool
agree f g zero = true
agree f g (suc n) = (f n == g n) && agree f g n

agree_sound : (f g : ℕ → ℕ) (n b : ℕ) → agree f g n ≡ true → b < n → f b ≡ g b
unfolding agree
agree_sound f g zero b h lt = absurd (omega arith)
agree_sound f g (suc n) b h lt = ground (arith, agree_sound f g n b)

high_bit : (b : ℕ) → b < 256 → bit_and b 0x80 ≡ b / 128 * 128
unfolding agree
high_bit b h = agree_sound (λ x. bit_and x 0x80) (λ x. x / 128 * 128) 256 b refl h

set_high_bit : (b : ℕ) → b < 128 → bit_or b 0x80 ≡ b + 128
unfolding agree
set_high_bit b h = agree_sound (λ x. bit_or x 0x80) (λ x. x + 128) 128 b refl h

-- The number of a script byte string: little endian, the high bit of the last byte is the sign.
unfoldable pub script_magnitude : List ℕ → ℕ
script_magnitude [] = 0
script_magnitude (b ∷ []) = b % 128
script_magnitude (b ∷ c ∷ bs) = b + 256 * script_magnitude (c ∷ bs)

unfoldable pub script_sign : List ℕ → Bool
script_sign [] = false
script_sign (b ∷ []) = leb 128 b
script_sign (b ∷ c ∷ bs) = script_sign (c ∷ bs)

unfoldable pub script_value : List ℕ → ℤ
unfolding script_magnitude script_sign
script_value bs = of_sign (script_sign bs) (script_magnitude bs)

-- The last byte holds more than the sign, unless the byte before it needs its own high bit.
abbrev pub IsMinimal : List ℕ → Type 0
IsMinimal [] = Unit
IsMinimal (b ∷ []) = 0 < b % 128
IsMinimal (b ∷ c ∷ []) = (0 < c % 128) ⊎ (128 ≤ b)
IsMinimal (b ∷ c ∷ d ∷ bs) = IsMinimal (c ∷ d ∷ bs)

-- The last byte is not zero.
abbrev EndsNonzero : List ℕ → Type 0
EndsNonzero [] = ⊥
EndsNonzero (b ∷ []) = 0 < b
EndsNonzero (b ∷ c ∷ bs) = EndsNonzero (c ∷ bs)

le_decode-le_loop : (k n : ℕ) → n < 256 ^ k → le_decode (le_loop k n) ≡ n
unfolding le_loop le_decode
le_decode-le_loop zero n h = omega arith
le_decode-le_loop (suc k) n h = ground (arith, le_decode-le_loop k (n / 256) (omega arith))

le_loop-IsByte : (k n : ℕ) → All IsByte (le_loop k n)
unfolding le_loop
le_loop-IsByte zero n = tt
le_loop-IsByte (suc k) n = ground (arith, le_loop-IsByte k (n / 256))

length-le_loop : (k n : ℕ) → length (le_loop k n) ≤ k
unfolding le_loop
length-le_loop zero n = omega arith
length-le_loop (suc k) n = ground (arith, length-le_loop k (n / 256))

le_loop_zero : (k : ℕ) → le_loop k 0 ≡ []
unfolding le_loop
le_loop_zero zero = refl
le_loop_zero (suc k) = refl

EndsNonzero-cons : (b : ℕ) (bs : List ℕ) → EndsNonzero bs → EndsNonzero (b ∷ bs)
EndsNonzero-cons b [] h = absurd h
EndsNonzero-cons b (c ∷ bs) h = h

le_loop-EndsNonzero : (k n : ℕ) → 0 < n → n < 256 ^ k → EndsNonzero (le_loop k n)
unfolding le_loop
le_loop-EndsNonzero zero n above h = absurd (omega arith)
le_loop-EndsNonzero (suc k) n above h =
    rw (ne→== n 0 (omega arith)) (elim (Bool-cases (n / 256 == 0)) [
      | inl z ↦ let last : n / 256 ≡ 0 = ground arith in rw (last, le_loop_zero k) (omega arith)
      | inr more ↦
          EndsNonzero-cons (n % 256) (le_loop k (n / 256))
            (le_loop-EndsNonzero k (n / 256) (ground arith) (omega arith))
    ])

-- What the sign does to bytes whose last one is not zero.
record Signed (negative : Bool) (bs out : List ℕ) : Type 0 where
  result : sign_last negative bs ≡ some out
  magnitude : script_magnitude out ≡ le_decode bs
  sign : script_sign out ≡ negative
  minimal : IsMinimal out
  longer : length bs ≤ length out
  size : length out ≤ length bs + 1

sign_byte-IsMinimal : (negative : Bool) (b : ℕ) → b < 256 → 0 < b → IsMinimal (sign_byte negative b)
unfolding sign_byte
sign_byte-IsMinimal false b hb above = elim (Bool-cases (ltb 0 (bit_and b 0x80))) [
  | inl set ↦ rw set (inr (ground (arith, high_bit b hb)))
  | inr clear ↦ rw clear (ground (arith, high_bit b hb))
]
sign_byte-IsMinimal true b hb above = elim (Bool-cases (ltb 0 (bit_and b 0x80))) [
  | inl set ↦ rw set (inr (ground (arith, high_bit b hb)))
  | inr clear ↦
      let small : b < 128 = ground (arith, high_bit b hb) in
      rw (clear, set_high_bit b small) (omega arith)
]

sign_byte-Signed :
    (negative : Bool) (b : ℕ) → b < 256 → 0 < b → Signed negative (b ∷ []) (sign_byte negative b)
unfolding sign_byte sign_last script_magnitude script_sign le_decode
sign_byte-Signed negative b hb above = record {
  result = refl;
  magnitude = ground (arith, high_bit b hb, set_high_bit b);
  sign = ground (arith, high_bit b hb, set_high_bit b);
  minimal = sign_byte-IsMinimal negative b hb above;
  longer = ground arith;
  size = ground arith;
}

Signed-cons :
    (negative : Bool) (b c : ℕ) (bs out : List ℕ)
    → Signed negative (c ∷ bs) out
    → Signed negative (b ∷ c ∷ bs) (b ∷ out)
unfolding sign_last script_magnitude script_sign le_decode
Signed-cons negative b c bs [] s = absurd (omega (arith, s.longer))
Signed-cons negative b c bs (d ∷ []) s = record {
  result = rw (s.result);
  magnitude = ap (λ t. b + 256 * t) s.magnitude;
  sign = s.sign;
  minimal = inl s.minimal;
  longer = omega (arith, s.longer);
  size = omega (arith, s.size);
}
Signed-cons negative b c bs (d ∷ e ∷ out) s = record {
  result = rw (s.result);
  magnitude = ap (λ t. b + 256 * t) s.magnitude;
  sign = s.sign;
  minimal = s.minimal;
  longer = omega (arith, s.longer);
  size = omega (arith, s.size);
}

sign_last-Signed :
    (negative : Bool) (bs : List ℕ)
    → All IsByte bs
    → EndsNonzero bs
    → (out : List ℕ) × Signed negative bs out
sign_last-Signed negative [] h e = absurd e
sign_last-Signed negative (b ∷ []) (hb, h) e =
    (sign_byte negative b, sign_byte-Signed negative b hb e)
sign_last-Signed negative (b ∷ c ∷ bs) (hb, h) e =
    let (out, s) = sign_last-Signed negative (c ∷ bs) h e in
    (b ∷ out, Signed-cons negative b c bs out s)

of_sign_parts : (n : ℤ) → of_sign (is_neg n) (nat_abs n) ≡ n
of_sign_parts (pos n) = refl
of_sign_parts (negsuc n) = refl

of_sign_zero : (n : ℤ) → nat_abs n ≡ 0 → pos 0 ≡ n
of_sign_zero (pos n) h = ap pos (omega arith)
of_sign_zero (negsuc n) h = absurd (omega arith)

-- Every number above -(2 ^ 63) and below 2 ^ 63 has bytes: at most 9, no more than it needs, and as
-- a little endian magnitude with a sign bit they are the number.
pub script_value-script_num_bytes :
    (n : ℤ)
    → nat_abs n < int64_limit
    → (bs : List ℕ) × (script_num_bytes n ≡ some bs)
      × (script_value bs ≡ n)
      × IsMinimal bs
      × (length bs ≤ 9)
unfolding script_num_bytes script_value
script_value-script_num_bytes n h = elim (Bool-cases (nat_abs n == 0)) [
  | inl z ↦ ([], rw z refl, of_sign_zero n (ground arith), tt, omega arith)
  | inr more ↦
      let raw : List ℕ = le_loop 8 (nat_abs n) in
      let (out, s) =
        sign_last-Signed (is_neg n) raw (le_loop-IsByte 8 (nat_abs n))
          (le_loop-EndsNonzero 8 (nat_abs n) (ground arith) (omega arith)) in
      (
        out,
        rw (more, lt→ltb _ _ h) s.result,
        rw (s.sign, s.magnitude, le_decode-le_loop 8 (nat_abs n) (omega arith)) (of_sign_parts n),
        s.minimal,
        omega (arith, s.size, length-le_loop 8 (nat_abs n)),
      )
]

-- On the one int64 that is left out, the least, `Bytes` panics.
script_num_bytes_least : script_num_bytes (negsuc (int64_limit - 1)) ≡ none
unfolding script_num_bytes le_loop sign_last
script_num_bytes_least = refl

-- Int32 stays in the range of an int32: it is the number itself there, and the nearer end elsewhere.
pub int32_clamp :
    (n : ℤ)
    → IsInt64 n
    → (min_int32 ≤ℤ int32 n)
      × (int32 n ≤ℤ max_int32)
      × ((int32 n ≡ n)
          ⊎ ((int32 n ≡ max_int32) × (max_int32 ≤ℤ n))
          ⊎ ((int32 n ≡ min_int32) × (n ≤ℤ min_int32)))
unfolding int32
int32_clamp (pos n) h = ground arith
int32_clamp (negsuc n) h = ground arith
