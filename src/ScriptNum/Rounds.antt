-- ===== src/ScriptNum/Rounds.antt =====
-- The loop of scriptNum.Bytes ends.
use banco.Prelude.{
  ℕ, zero, suc, ◌*◌, ◌/◌, ◌%◌, ◌^◌, ◌<◌, [], ◌∷◌, ◌≡◌, refl, ap, ◌∙◌, ◌≤◌, length, ltb, arith,
}
use banco.Prelude.{◌==◌, if◌then◌else◌, Bool-cases, inl, inr}
use native.Mathlib.Numerals.{unary_clauses}
use banco.Prelude.Int.{ℤ, nat_abs}
use banco.ScriptNum.{int64_limit, le_loop, loop_start}

-- Nothing is left to append.
le_loop-zero : (rounds : ℕ) → le_loop rounds 0 ≡ []
unfolding le_loop
le_loop-zero zero = refl
le_loop-zero (suc rounds) = refl

ended : (rounds n : ℕ) → n < 1 → le_loop rounds n ≡ []
ended rounds n h =
    let empty : n ≡ 0 = omega arith in ap (le_loop rounds) empty ∙ le_loop-zero rounds

at_most : (rounds n : ℕ) → length (le_loop rounds n) ≤ rounds
unfolding le_loop
at_most zero n = omega arith
at_most (suc rounds) n =
    let shorter = at_most rounds (n / 2 ^ 8) in
    elim (Bool-cases (n == 0)) [
      | inl done ↦ rw done (omega arith)
      | inr more ↦ rw more (omega arith)
    ]

-- So many rounds are enough for a number of so many bytes.
enough :
    (rounds total n : ℕ) → rounds ≤ total → n < 256 ^ rounds → le_loop total n ≡ le_loop rounds n
unfolding le_loop
enough zero total n l h = ended total n h
enough (suc rounds) zero n l h = absurd (omega arith)
enough (suc rounds) (suc total) n l h =
    let smaller : n < 256 ^ rounds * 256 = simp unary_clauses at h in
    let less : n / 256 < 256 ^ rounds = omega arith in
    ap (λ rest. if n == 0 then [] else (n % 2 ^ 8) ∷ rest)
      (enough rounds total (n / 2 ^ 8) (omega arith) less)

start_small : (n : ℤ) → loop_start n < 256 ^ 8
start_small n = elim (Bool-cases (ltb (nat_abs n) int64_limit)) [
  | inl small ↦ rw small (ground arith)
  | inr large ↦ rw large (omega arith)
]

-- For every int64 the loop of scriptNum.Bytes has ended after eight rounds: it appends the same bytes
-- however many more rounds it may make, and these are at most eight.
pub le_loop-rounds :
    (n : ℤ) (total : ℕ)
    → 8 ≤ total
    → (le_loop total (loop_start n) ≡ le_loop 8 (loop_start n))
      × (length (le_loop total (loop_start n)) ≤ 8)
le_loop-rounds n total l =
    let same = enough 8 total (loop_start n) l (start_small n) in
    (same, rw same (at_most 8 (loop_start n)))
