-- ===== src/Buffer/Deserializer/RoundTrip.antt =====
-- The Deserializer reads back the slices and vectors that the Serializer wrote.
use banco.Prelude.{ℕ, ◌+◌, ◌-◌, ◌^◌, ◌<◌, ◌≡◌, refl, arith, false}
use banco.Prelude.{List, [], ◌∷◌, ◌++◌, append-nil, append_assoc, length, length-append, All}
use banco.Prelude.{take-append, drop-append, leb, ltb, ◌==◌, ◌&&◌}
use banco.Buffer.Io.{ok, Action, Io}
use banco.Buffer.Rules.{IsFree, Reads, Writes, Reads-bind, Reads-pure}
use banco.Buffer.Rules.{Writes-then, Writes-pure, Writes-write}
use banco.Buffer.VarInt.{read_var_int, write_var_int, var_slice_serialize_size}
use banco.Buffer.VarInt.{var_int_serialize_size}
use banco.Buffer.VarInt.RoundTrip.{var_int_bytes, write_var_int-Writes, read_var_int-Reads}
use banco.Buffer.VarInt.RoundTrip.{length-var_int_bytes}
use banco.Buffer.Serializer.{new_serializer, bytes, write_slice, write_var_slice}
use banco.Buffer.Serializer.{write_vector, write_vector_loop}
use banco.Buffer.Deserializer.{len_limit, read_slice, read_var_slice, read_vector}
use banco.Buffer.Deserializer.{read_vector_loop}

-- A slice of the program: it is no longer than what the runtime can allocate.
abbrev pub IsSlice : List ℕ → Type 0
IsSlice bs = length bs < len_limit

not_at_end : (bs rest : List ℕ) → ((length (bs ++ rest) == 0) && ltb 0 (length bs)) ≡ false
not_at_end [] rest = ground arith
not_at_end (b ∷ bs) rest = ground arith

pub read_slice-Reads : (bs : List ℕ) → IsSlice bs → Reads (read_slice (length bs)) bs bs
unfolding read_slice
read_slice-Reads bs h = record {
  at = λ free rest hf.
      let small : leb len_limit (length bs) ≡ false = ground arith in
      let full : length bs - length (bs ++ rest) ≡ 0 = omega (arith, length-append bs rest) in
      (
        free,
        hf,
        rw (
          small,
          not_at_end bs rest,
          full,
          take-append (length bs) bs rest refl,
          drop-append (length bs) bs rest refl,
          append-nil bs,
        ),
      );
}

-- The bytes of a slice with its length in front, and of a vector with its count in front.
unfoldable pub var_slice_bytes : List ℕ → List ℕ
var_slice_bytes val = var_int_bytes (length val) ++ val

unfoldable pub slices_bytes : List (List ℕ) → List ℕ
unfolding var_slice_bytes
slices_bytes [] = []
slices_bytes (val ∷ v) = var_slice_bytes val ++ slices_bytes v

unfoldable pub vector_bytes : List (List ℕ) → List ℕ
vector_bytes v = var_int_bytes (length v) ++ slices_bytes v

pub write_var_slice-Writes : (val : List ℕ) → Writes (write_var_slice val) (var_slice_bytes val)
unfolding write_var_slice var_slice_bytes
write_var_slice-Writes val =
    Writes-then (write_var_int (length val)) (write_slice val) _ _
      (write_var_int-Writes (length val)) (Writes-write val)

write_vector_loop-Writes : (v : List (List ℕ)) → Writes (write_vector_loop v) (slices_bytes v)
unfolding write_vector_loop slices_bytes
write_vector_loop-Writes [] = Writes-pure
write_vector_loop-Writes (val ∷ v) =
    Writes-then (write_var_slice val) (write_vector_loop v) _ _
      (unfold var_slice_bytes in write_var_slice-Writes val) (write_vector_loop-Writes v)

pub write_vector-Writes : (v : List (List ℕ)) → Writes (write_vector v) (vector_bytes v)
unfolding write_vector vector_bytes
write_vector-Writes v =
    Writes-then (write_var_int (length v)) (write_vector_loop v) _ _
      (write_var_int-Writes (length v)) (write_vector_loop-Writes v)

pub read_var_slice-Reads :
    (val : List ℕ) → IsSlice val → Reads read_var_slice (var_slice_bytes val) val
unfolding read_var_slice var_slice_bytes
read_var_slice-Reads val h =
    Reads-bind read_var_int read_slice (length val) val _ _
      (read_var_int-Reads (length val) (omega arith)) (read_slice-Reads val h)

read_vector_loop-Reads :
    (v done : List (List ℕ))
    → All IsSlice v
    → Reads (read_vector_loop (length v) done) (slices_bytes v) (done ++ v)
unfolding read_vector_loop slices_bytes
read_vector_loop-Reads [] done h = rw (append-nil done) (Reads-pure done)
read_vector_loop-Reads (val ∷ v) done (hv, h) =
    Reads-bind read_var_slice (λ x. read_vector_loop (length v) (done ++ (x ∷ []))) val _ _ _
      (unfold var_slice_bytes in read_var_slice-Reads val hv)
      (rw (append_assoc done (val ∷ []) v) at (read_vector_loop-Reads v (done ++ (val ∷ [])) h))

pub read_vector-Reads :
    (v : List (List ℕ)) → length v < 2 ^ 64 → All IsSlice v → Reads read_vector (vector_bytes v) v
unfolding read_vector vector_bytes
read_vector-Reads v count h =
    Reads-bind read_var_int (λ n. read_vector_loop n []) (length v) v _ _
      (read_var_int-Reads (length v) count) (read_vector_loop-Reads v [] h)

module _ {A : Type 0} (w : Action (Unit {0})) (m : Action A) (bs : List ℕ) (a : A) where
  -- An action reads what another wrote into an empty buffer, with any bytes behind it.
  written_read :
      (free : List (List ℕ)) (rest : List ℕ)
      → Writes w bs
      → Reads m bs a
      → IsFree free
      → let (r, s) = w (new_serializer free) in
        let (r', s') = m (record s { buffer = bytes s ++ rest }) in
        (r ≡ ok tt) × (r' ≡ ok a) × (s'.buffer ≡ rest)
  unfolding new_serializer bytes
  written_read free rest hw hm h =
      let (free₁, h₁, e₁) = hw.at free [] h in
      let (free₂, h₂, e₂) = hm.at free₁ rest h₁ in rw (e₁, e₂) (refl, refl, refl)

-- From a well-formed free list ReadVarInt returns the uint64 that WriteVarInt wrote, and leaves
-- the bytes that follow.
pub read_var_int-write_var_int :
    (val : ℕ) (free : List (List ℕ)) (rest : List ℕ)
    → val < 2 ^ 64
    → IsFree free
    → let (r, s) = write_var_int val (new_serializer free) in
      let (r', s') = read_var_int (record s { buffer = bytes s ++ rest }) in
      (r ≡ ok tt) × (r' ≡ ok val) × (s'.buffer ≡ rest)
read_var_int-write_var_int val free rest fits h =
    written_read _ _ _ val free rest (write_var_int-Writes val) (read_var_int-Reads val fits) h

-- From a well-formed free list ReadVector returns the vector that WriteVector wrote, and leaves
-- the bytes that follow, for a vector of slices that are no longer than what the runtime can
-- allocate.
pub read_vector-write_vector :
    (v : List (List ℕ)) (free : List (List ℕ)) (rest : List ℕ)
    → length v < 2 ^ 64
    → All IsSlice v
    → IsFree free
    → let (r, s) = write_vector v (new_serializer free) in
      let (r', s') = read_vector (record s { buffer = bytes s ++ rest }) in
      (r ≡ ok tt) × (r' ≡ ok v) × (s'.buffer ≡ rest)
read_vector-write_vector v free rest count slices h =
    written_read _ _ _ v free rest (write_vector-Writes v) (read_vector-Reads v count slices) h

-- WriteVarInt and WriteVarSlice append as many bytes as VarIntSerializeSize and
-- VarSliceSerializeSize say, from any state with a well-formed free list.
pub write-serialize_size :
    (val : ℕ) (slice : List ℕ) (free : List (List ℕ)) (before : List ℕ)
    → IsFree free
    → let s : Io = record { free = free; buffer = before } in
      (length (write_var_int val s).1.buffer ≡ length before + var_int_serialize_size val)
      × (length (write_var_slice slice s).1.buffer ≡ length before + var_slice_serialize_size slice)
unfolding var_slice_serialize_size var_slice_bytes
write-serialize_size val slice free before h =
    let (free₁, h₁, e₁) = (write_var_int-Writes val).at free before h in
    let (free₂, h₂, e₂) = (write_var_slice-Writes slice).at free before h in
    (
      rw (e₁, length-append before (var_int_bytes val), length-var_int_bytes val),
      rw (
        e₂,
        length-append before,
        length-append (var_int_bytes (length slice)) slice,
        length-var_int_bytes (length slice),
      ),
    )
