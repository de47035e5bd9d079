-- ===== src/Buffer/Scratch.antt =====
-- A number read or written through a scratch array is the number of the bytes: what an earlier use
-- left in the array does not show, and the free list stays well formed.
use banco.Prelude.{ℕ, zero, suc, ◌≤◌, ◌<◌, ◌≡◌, refl, ap, ◌∙◌, arith, true, inl, inr}
use banco.Prelude.{List, [], ◌∷◌, ◌++◌, length, length-append, take, drop, All-append}
use banco.Prelude.{length-take, take_all, take-append, drop-append, replicate}
use banco.Prelude.{ltb, leb, ◌==◌, eq→==, Bool-cases, if◌then◌else◌}
use banco.Buffer.Io.{eof, unexpected_eof, Result, ok, err, Io, unless_error}
use banco.Buffer.FreeList.{binary_free_list_max_items, copy, borrow, give_back, read_full}
use banco.Buffer.FreeList.{read_uint, write_uint, full_error}
use banco.Buffer.Rules.{IsFree, Reads, Writes}

pub length-copy : (dst src : List ℕ) → length (copy dst src) ≡ length dst
unfolding copy
length-copy [] src = refl
length-copy (d ∷ dst) [] = refl
length-copy (d ∷ dst) (b ∷ src) = ap suc (length-copy dst src)

pub take-copy :
    (k : ℕ) (dst src : List ℕ) → length src ≡ k → k ≤ length dst → take k (copy dst src) ≡ src
unfolding copy
take-copy zero dst [] e h = refl
take-copy zero dst (b ∷ src) e h = absurd (omega arith)
take-copy (suc k) [] src e h = absurd (omega arith)
take-copy (suc k) (d ∷ dst) [] e h = absurd (omega arith)
take-copy (suc k) (d ∷ dst) (b ∷ src) e h =
    ap (λ t. b ∷ t) (take-copy k dst src (omega arith) (omega arith))

-- The free list after `Return`.
abbrev returned : List (List ℕ) → List ℕ → List (List ℕ)
returned free buf =
    if ltb (length free) binary_free_list_max_items then free ++ (buf ∷ []) else free

returned-IsFree :
    (free : List (List ℕ)) (buf : List ℕ)
    → IsFree free
    → length buf ≡ 8
    → IsFree (returned free buf)
returned-IsFree free buf h e = elim (Bool-cases (ltb (length free) binary_free_list_max_items)) [
  | inl room ↦ rw room (record {
    capped = ground (arith, length-append free (buf ∷ []));
    eight = All-append _ free (buf ∷ []) h.eight (e, tt);
  })
  | inr full ↦ rw full h
]

give_back_lem :
    (free : List (List ℕ)) (buffer buf : List ℕ)
    → give_back buf (record { free = free; buffer = buffer })
      ≡ (ok tt, record { free = returned free buf; buffer = buffer })
unfolding give_back
give_back_lem free buffer buf = ground arith

borrow_lem :
    (free : List (List ℕ)) (buffer : List ℕ)
    → IsFree free
    → (buf : List ℕ) × (free' : List (List ℕ)) × (length buf ≡ 8)
      × IsFree free'
      × (borrow (record { free = free; buffer = buffer })
          ≡ (ok buf, record { free = free'; buffer = buffer }))
unfolding borrow
borrow_lem [] buffer h = (replicate 8 0, [], refl, h, refl)
borrow_lem (b ∷ rest) buffer h = (
  b,
  rest,
  h.eight.0,
  record { capped = ground (arith, h.capped); eight = h.eight.1 },
  ground (arith, h.eight.0),
)

-- What `Uint8` to `Uint64` return for a buffer, on both paths.
abbrev pub uint_result : ℕ → (List ℕ → ℕ) → List ℕ → Result ℕ
uint_result k convert buffer =
    if leb k (length buffer)
    then ok (convert (take k buffer))
    else if length buffer == 0
    then err eof
    else err unexpected_eof

read_full_lem :
    (k : ℕ) (free : List (List ℕ)) (buffer buf : List ℕ)
    → read_full k buf (record { free = free; buffer = buffer }) ≡ (
      ok (copy buf (take k buffer), full_error (length (take k buffer)) k),
      record { free = free; buffer = drop k buffer },
    )
unfolding read_full
read_full_lem k free buffer buf = refl

uint_result_lem :
    (k : ℕ) (convert : List ℕ → ℕ) (buffer buf : List ℕ)
    → 0 < k
    → k ≤ length buf
    → (s : Io)
    → unless_error
        (full_error (length (take k buffer)) k)
        (convert (take k (copy buf (take k buffer))))
        s
      ≡ (uint_result k convert buffer, s)
uint_result_lem k convert buffer buf pos fits s = elim (Bool-cases (leb k (length buffer))) [
  | inl enough ↦
      let whole : length (take k buffer) ≡ k = length-take k buffer (ground arith) in
      rw (enough, take-copy k buf (take k buffer) whole fits, whole, eq→== k k refl) refl
  | inr short ↦
      let all : take k buffer ≡ buffer = take_all k buffer (ground arith) in
      rw (short, all) (ground arith)
]

-- From a well-formed free list the outcome and the bytes left are those of the buffer alone.
pub read_uint_lem :
    (k : ℕ) (convert : List ℕ → ℕ) (free : List (List ℕ)) (buffer : List ℕ)
    → 0 < k
    → k ≤ 8
    → IsFree free
    → (free' : List (List ℕ)) × IsFree free'
      × (read_uint k convert (record { free = free; buffer = buffer })
          ≡ (uint_result k convert buffer, record { free = free'; buffer = drop k buffer }))
unfolding read_uint
read_uint_lem k convert free buffer pos fits h =
    let (buf, free₁, e, h₁, run) = borrow_lem free buffer h in
    let filled : List ℕ = copy buf (take k buffer) in
    (
      returned free₁ filled,
      returned-IsFree free₁ filled h₁ (length-copy buf (take k buffer) ∙ e),
      rw (run, read_full_lem k free₁ buffer buf, give_back_lem free₁ (drop k buffer) filled)
          (uint_result_lem k convert buffer buf pos (omega arith) _),
    )

pub write_uint_lem : (k : ℕ) (bs : List ℕ) → length bs ≡ k → k ≤ 8 → Writes (write_uint k bs) bs
unfolding write_uint
write_uint_lem k bs whole fits = record {
  at = λ free before h.
      let (buf, free₁, e, h₁, run) = borrow_lem free before h in
      let filled : List ℕ = copy buf bs in
      (
        returned free₁ filled,
        returned-IsFree free₁ filled h₁ (length-copy buf bs ∙ e),
        rw (run, take-copy k buf bs whole (omega arith), give_back_lem free₁ (before ++ bs) filled)
            refl,
      );
}

pub Reads-read_uint :
    (k : ℕ) (convert : List ℕ → ℕ) (bs : List ℕ)
    → 0 < k
    → k ≤ 8
    → length bs ≡ k
    → Reads (read_uint k convert) bs (convert bs)
Reads-read_uint k convert bs pos fits e = record {
  at = λ free rest h.
      let (free', h', run) = read_uint_lem k convert free (bs ++ rest) pos fits h in
      let long : leb k (length (bs ++ rest)) ≡ true = ground (arith, length-append bs rest) in
      (free', h', rw (long, take-append k bs rest e, drop-append k bs rest e) at run);
}
