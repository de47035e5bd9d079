-- ===== src/Buffer/VarInt/Canonical.antt =====
-- readVarInt accepts one encoding of a number: the one that writeVarInt writes.
use banco.Prelude.{ℕ, ◌^◌, ◌≤◌, ◌<◌, ◌≡◌, sym, ap, ◌∙◌, subst, List, [], ◌∷◌, ◌++◌, arith}
use banco.Prelude.{inl, inr, length, take, drop, length-take, take-append-drop}
use banco.Prelude.{All, All-append_split, Bool-cases, ◌==◌}
use banco.Buffer.Io.{ok, err, Io, Result, continue, ◌>>=◌, pure}
use banco.Buffer.ByteOrder.{IsByte, little_endian, le_encode, le_decode, decode}
use banco.Buffer.ByteOrder.{le_decode-lt, le_encode-le_decode}
use banco.Buffer.FreeList.{first, uint8, uint16, uint32, uint64, read_uint}
use banco.Buffer.Rules.{IsFree, bind_ok}
use banco.Buffer.Scratch.{uint_result, read_uint_lem}
use banco.Buffer.VarInt.{read_var_int, read_var_int_after, at_least}
use banco.Buffer.VarInt.RoundTrip.{var_int_bytes}

-- What a read that succeeds says of the buffers before and after.
record Took (convert : List ℕ → ℕ) (k : ℕ) (s s' : Io) (val : ℕ) : Type 0 where
  taken : List ℕ
  width : length taken ≡ k
  front : s.buffer ≡ taken ++ s'.buffer
  value : val ≡ convert taken
  free_after : IsFree s'.free

read_uint-Took :
    (k : ℕ) (convert : List ℕ → ℕ) (s s' : Io) (val : ℕ)
    → 0 < k
    → k ≤ 8
    → IsFree s.free
    → read_uint k convert s ≡ (ok val, s')
    → Took convert k s s' val
read_uint-Took k convert s s' val pos fits h e =
    let (free', h', run) = read_uint_lem k convert s.free s.buffer pos fits h in
    let after : s' ≡ record { free = free'; buffer = drop k s.buffer } = cc in
    let outcome : uint_result k convert s.buffer ≡ ok val = cc in
    let enough : k ≤ length s.buffer = ground arith in
    record {
      taken = take k s.buffer;
      width = length-take k s.buffer enough;
      front = rw after (sym (take-append-drop k s.buffer));
      value = ground arith;
      free_after = rw after h';
    }

-- A marked number: read in little endian at the width, and held to the least value of its mark.
record Wide (k least : ℕ) (s s' : Io) (val : ℕ) : Type 0 where
  front : s.buffer ≡ le_encode k val ++ s'.buffer
  least_le : least ≤ val
  fits : val < 256 ^ k

at_least_ok :
    (least mark : ℕ) (r : Result ℕ) (t s' : Io) (val : ℕ)
    → continue r (at_least least mark) t ≡ (ok val, s')
    → (◌≡◌ {A = Result ℕ × Io} (r, t) (ok val, s')) × (least ≤ val)
at_least_ok least mark (ok a) t s' val e = ground arith
at_least_ok least mark (err x) t s' val e = cc

Took-Wide :
    (k least : ℕ) (s s' : Io) (val : ℕ)
    → Took (decode little_endian) k s s' val
    → All IsByte s.buffer
    → least ≤ val
    → Wide k least s s' val
unfolding decode
Took-Wide k least s s' val took bytes big =
    let from_taken : All IsByte took.taken =
      (All-append_split IsByte took.taken s'.buffer (subst (All IsByte) took.front bytes)).0 in
    let again : le_encode k (le_decode took.taken) ≡ took.taken =
      subst (λ j. le_encode j (le_decode took.taken) ≡ took.taken) took.width
        (le_encode-le_decode took.taken from_taken) in
    record {
      front =
          took.front ∙ ap (λ bs. bs ++ s'.buffer) (sym again ∙ ap (le_encode k) (sym took.value));
      least_le = big;
      fits = rw took.value (le_decode-lt k took.taken took.width from_taken);
    }

read_uint-Wide :
    (k least mark : ℕ) (s s' : Io) (val : ℕ)
    → 0 < k
    → k ≤ 8
    → IsFree s.free
    → All IsByte s.buffer
    → (read_uint k (decode little_endian) >>= at_least least mark) s ≡ (ok val, s')
    → Wide k least s s' val
read_uint-Wide k least mark s s' val pos fits h bytes e =
    let (read, big) = at_least_ok least mark _ _ s' val e in
    Took-Wide k least s s' val (read_uint-Took k (decode little_endian) s s' val pos fits h read)
      bytes big

-- What readVarInt says of the buffers before and after.
record Canonical (s s' : Io) (val : ℕ) : Type 0 where
  front : s.buffer ≡ var_int_bytes val ++ s'.buffer
  fits : val < 2 ^ 64

-- The encoding on each range that a mark stands for.
bytes_of_two : (val : ℕ) → 0xfd ≤ val → val < 256 ^ 2 → var_int_bytes val ≡ 0xfd ∷ le_encode 2 val
unfolding var_int_bytes
bytes_of_two val lo hi = ground arith

bytes_of_four :
    (val : ℕ) → 0x1_0000 ≤ val → val < 256 ^ 4 → var_int_bytes val ≡ 0xfe ∷ le_encode 4 val
unfolding var_int_bytes
bytes_of_four val lo hi = ground arith

bytes_of_eight : (val : ℕ) → 0x1_0000_0000 ≤ val → var_int_bytes val ≡ 0xff ∷ le_encode 8 val
unfolding var_int_bytes
bytes_of_eight val lo = ground arith

bytes_of_one : (val : ℕ) → val < 0xfd → var_int_bytes val ≡ val ∷ []
unfolding var_int_bytes
bytes_of_one val hi = ground arith

Wide-Canonical :
    (k least mark : ℕ) (s s' : Io) (val : ℕ)
    → Wide k least s s' val
    → var_int_bytes val ≡ mark ∷ le_encode k val
    → val < 2 ^ 64
    → Canonical (record s { buffer = mark ∷ s.buffer }) s' val
Wide-Canonical k least mark s s' val w e fits = record { front = rw (e, w.front); fits = fits }

small-Canonical :
    (mark : ℕ) (s s' : Io) (val : ℕ)
    → mark < 0xfd
    → pure mark s ≡ (ok val, s')
    → Canonical (record s { buffer = mark ∷ s.buffer }) s' val
small-Canonical mark s s' val small e = record {
  front = ground (arith, bytes_of_one val);
  fits = ground arith;
}

-- The `switch`, on the discriminant `mark` and the state after it.
after-Canonical :
    (mark : ℕ) (s s' : Io) (val : ℕ)
    → mark < 256
    → IsFree s.free
    → All IsByte s.buffer
    → read_var_int_after mark s ≡ (ok val, s')
    → Canonical (record s { buffer = mark ∷ s.buffer }) s' val
unfolding read_var_int_after uint16 uint32 uint64
after-Canonical mark s s' val hm h bytes e = elim (Bool-cases (mark == 0xff)) [
  | inl m ↦
      let w : Wide 8 0x1_0000_0000 s s' val =
        read_uint-Wide 8 _ mark s s' val (omega arith) (omega arith) h bytes (rw m at e) in
      Wide-Canonical 8 _ mark s s' val w (ground (arith, bytes_of_eight val w.least_le))
        (omega (arith, w.fits))
  | inr n₁ ↦ elim (Bool-cases (mark == 0xfe)) [
    | inl m ↦
        let w : Wide 4 0x1_0000 s s' val =
          read_uint-Wide 4 _ mark s s' val (omega arith) (omega arith) h bytes (rw (n₁, m) at e) in
        Wide-Canonical 4 _ mark s s' val w (ground (arith, bytes_of_four val w.least_le w.fits))
          (omega (arith, w.fits))
    | inr n₂ ↦ elim (Bool-cases (mark == 0xfd)) [
      | inl m ↦
          let w : Wide 2 0xfd s s' val =
            read_uint-Wide 2 _ mark s s' val (omega arith) (omega arith) h bytes
              (rw (n₁, n₂, m) at e) in
          Wide-Canonical 2 _ mark s s' val w (ground (arith, bytes_of_two val w.least_le w.fits))
            (omega (arith, w.fits))
      | inr n₃ ↦ small-Canonical mark s s' val (ground arith) (rw (n₁, n₂, n₃) at e)
    ]
  ]
]

Took-first : (s t : Io) (mark : ℕ) → Took first 1 s t mark → s.buffer ≡ mark ∷ t.buffer
Took-first s t mark took = rw (took.value) (one took.taken took.width took.front)
  where
    one : (bs : List ℕ) → length bs ≡ 1 → s.buffer ≡ bs ++ t.buffer → s.buffer ≡ first bs ∷ t.buffer
    one [] e f = absurd (omega arith)
    one (b ∷ []) e f = f
    one (b ∷ c ∷ bs) e f = absurd (omega arith)

after_uint8 :
    (s t s' : Io) (mark val : ℕ)
    → All IsByte s.buffer
    → Took first 1 s t mark
    → read_var_int_after mark t ≡ (ok val, s')
    → (s.buffer ≡ var_int_bytes val ++ s'.buffer) × (val < 2 ^ 64)
after_uint8 s t s' mark val bytes took e =
    let front : s.buffer ≡ mark ∷ t.buffer = Took-first s t mark took in
    let split : All IsByte (mark ∷ t.buffer) = subst (All IsByte) front bytes in
    let c : Canonical (record t { buffer = mark ∷ t.buffer }) s' val =
      after-Canonical mark t s' val split.0 took.free_after split.1 e in
    (front ∙ c.front, c.fits)

-- A value that readVarInt returns is a uint64, and the bytes that it took are the value's one
-- encoding: no other encoding of a number is accepted.
pub read_var_int_canonical :
    (s s' : Io) (val : ℕ)
    → IsFree s.free
    → All IsByte s.buffer
    → read_var_int s ≡ (ok val, s')
    → (s.buffer ≡ var_int_bytes val ++ s'.buffer) × (val < 2 ^ 64)
unfolding read_var_int uint8
read_var_int_canonical s s' val h bytes e =
    let (mark, e₁, e₂) = bind_ok (uint8 s).0 read_var_int_after (uint8 s).1 s' e in
    after_uint8 s (uint8 s).1 s' mark val bytes
      (read_uint-Took 1 first s (uint8 s).1 mark (omega arith) (omega arith) h
        (λ i. (e₁ i, (uint8 s).1)))
      e₂
