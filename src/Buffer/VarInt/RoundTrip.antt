-- ===== src/Buffer/VarInt/RoundTrip.antt =====
-- The variable length integers of bufferutil.go: what is written, what is read, and the sizes.
use banco.Prelude.{ℕ, suc, ◌%◌, ◌^◌, ◌<◌, ◌≡◌, refl, List, [], ◌∷◌, arith, false}
use banco.Prelude.{inl, inr, length, Bool-cases, ltb, leb, ltb→lt, ne→==, append-nil, if◌then◌else◌}
use banco.Buffer.Io.{Action, ◌>>=◌, ◌>>◌}
use banco.Buffer.ByteOrder.{little_endian, le_encode, encode, decode}
use banco.Buffer.ByteOrder.{length-le_encode, le_decode-le_encode}
use banco.Buffer.FreeList.{first, uint8, uint16, uint32, uint64}
use banco.Buffer.FreeList.{put_uint8, put_uint16, put_uint32, put_uint64}
use banco.Buffer.Rules.{Reads, Writes, Reads-bind, Reads-pure, Writes-then}
use banco.Buffer.Scratch.{Reads-read_uint, write_uint_lem}
use banco.Buffer.VarInt.{write_var_int, read_var_int, read_var_int_after, at_least}
use banco.Buffer.VarInt.{var_int_serialize_size}

-- The encoding as a list: a small number is itself; otherwise a mark and 2, 4 or 8 bytes.
unfoldable pub var_int_bytes : ℕ → List ℕ
var_int_bytes val =
    if ltb val 0xfd
    then val ∷ []
    else if ltb val 0x1_0000
    then 0xfd ∷ le_encode 2 val
    else if ltb val 0x1_0000_0000
    then 0xfe ∷ le_encode 4 val
    else 0xff ∷ le_encode 8 val

pub put_uint8-Writes : (val : ℕ) → Writes (put_uint8 val) (val ∷ [])
unfolding put_uint8
put_uint8-Writes val = write_uint_lem 1 (val ∷ []) refl (omega arith)

pub put_uint16-Writes : (val : ℕ) → Writes (put_uint16 little_endian val) (le_encode 2 val)
unfolding put_uint16 encode
put_uint16-Writes val = write_uint_lem 2 (le_encode 2 val) (length-le_encode 2 val) (omega arith)

pub put_uint32-Writes : (val : ℕ) → Writes (put_uint32 little_endian val) (le_encode 4 val)
unfolding put_uint32 encode
put_uint32-Writes val = write_uint_lem 4 (le_encode 4 val) (length-le_encode 4 val) (omega arith)

pub put_uint64-Writes : (val : ℕ) → Writes (put_uint64 little_endian val) (le_encode 8 val)
unfolding put_uint64 encode
put_uint64-Writes val = write_uint_lem 8 (le_encode 8 val) (length-le_encode 8 val) (omega arith)

pub uint8-Reads : (val : ℕ) → Reads uint8 (val ∷ []) val
unfolding uint8
uint8-Reads val = Reads-read_uint 1 first (val ∷ []) (omega arith) (omega arith) refl

le_Reads : (k val : ℕ) → val < 256 ^ k → decode little_endian (le_encode k val) ≡ val
unfolding decode
le_Reads k val h = le_decode-le_encode k val h

pub uint16-Reads : (val : ℕ) → val < 2 ^ 16 → Reads (uint16 little_endian) (le_encode 2 val) val
unfolding uint16
uint16-Reads val h = rw (le_Reads 2 val (omega arith)) at (
    Reads-read_uint 2 (decode little_endian) (le_encode 2 val) (omega arith) (omega arith)
      (length-le_encode 2 val))

pub uint32-Reads : (val : ℕ) → val < 2 ^ 32 → Reads (uint32 little_endian) (le_encode 4 val) val
unfolding uint32
uint32-Reads val h = rw (le_Reads 4 val (omega arith)) at (
    Reads-read_uint 4 (decode little_endian) (le_encode 4 val) (omega arith) (omega arith)
      (length-le_encode 4 val))

pub uint64-Reads : (val : ℕ) → val < 2 ^ 64 → Reads (uint64 little_endian) (le_encode 8 val) val
unfolding uint64
uint64-Reads val h = rw (le_Reads 8 val (omega arith)) at (
    Reads-read_uint 8 (decode little_endian) (le_encode 8 val) (omega arith) (omega arith)
      (length-le_encode 8 val))

mod_small : (val m : ℕ) → val < m → val % m ≡ val
mod_small val m h = grind arith

-- Go compares with the largest value of the width, the encoding with the first one past it.
leb-ltb : (val m : ℕ) → leb val m ≡ ltb val (suc m)
leb-ltb val m = ground arith

marked :
    (mark : ℕ) (m : Action (Unit {0})) (bs : List ℕ)
    → Writes m bs
    → Writes (put_uint8 mark >> m) (mark ∷ bs)
marked mark m bs h = Writes-then (put_uint8 mark) m (mark ∷ []) bs (put_uint8-Writes mark) h

pub write_var_int-Writes : (val : ℕ) → Writes (write_var_int val) (var_int_bytes val)
unfolding write_var_int var_int_bytes
write_var_int-Writes val =
    rw (leb-ltb val 0xffff, leb-ltb val 0xffff_ffff)
      (elim (Bool-cases (ltb val 0xfd)) [
        | inl h ↦ rw (h, mod_small val 256 (ground arith)) (put_uint8-Writes val)
        | inr h ↦ rw h (elim (Bool-cases (ltb val 0x1_0000)) [
          | inl h₂ ↦
              rw (h₂, mod_small val 0x1_0000 (ltb→lt _ _ h₂))
                (marked 0xfd _ _ (put_uint16-Writes val))
          | inr h₂ ↦ rw h₂ (elim (Bool-cases (ltb val 0x1_0000_0000)) [
            | inl h₃ ↦
                rw (h₃, mod_small val 0x1_0000_0000 (ltb→lt _ _ h₃))
                  (marked 0xfe _ _ (put_uint32-Writes val))
            | inr h₃ ↦ rw h₃ (marked 0xff _ _ (put_uint64-Writes val))
          ])
        ])
      ])

-- A value that the discriminant may encode passes the test.
checked :
    (m : Action ℕ) (bs : List ℕ) (least discriminant val : ℕ)
    → Reads m bs val
    → ltb val least ≡ false
    → Reads (m >>= at_least least discriminant) bs val
checked m bs least discriminant val h big =
    rw append-nil at
      (Reads-bind m (at_least least discriminant) val val bs [] h (rw big (Reads-pure val)))

after_mark :
    (mark val : ℕ) (bs : List ℕ)
    → Reads (read_var_int_after mark) bs val
    → Reads read_var_int (mark ∷ bs) val
unfolding read_var_int
after_mark mark val bs h =
    Reads-bind uint8 read_var_int_after mark val (mark ∷ []) bs (uint8-Reads mark) h

small_after : (val : ℕ) → val < 0xfd → Reads (read_var_int_after val) [] val
unfolding read_var_int_after
small_after val h =
    rw (ne→== val 0xff (omega arith), ne→== val 0xfe (omega arith), ne→== val 0xfd (omega arith))
      (Reads-pure val)

pub read_var_int-Reads : (val : ℕ) → val < 2 ^ 64 → Reads read_var_int (var_int_bytes val) val
unfolding var_int_bytes
read_var_int-Reads val fits = elim (Bool-cases (ltb val 0xfd)) [
  | inl h ↦ rw h (after_mark val val [] (small_after val (ltb→lt _ _ h)))
  | inr h ↦ rw h (elim (Bool-cases (ltb val 0x1_0000)) [
    | inl h₂ ↦ rw h₂ (
        after_mark 0xfd val _ (
          unfold read_var_int_after in
          checked _ _ 0xfd 0xfd val (uint16-Reads val (ltb→lt _ _ h₂)) h))
    | inr h₂ ↦ rw h₂ (elim (Bool-cases (ltb val 0x1_0000_0000)) [
      | inl h₃ ↦ rw h₃ (
          after_mark 0xfe val _ (
            unfold read_var_int_after in
            checked _ _ 0x1_0000 0xfe val (uint32-Reads val (ltb→lt _ _ h₃)) h₂))
      | inr h₃ ↦ rw h₃ (
          after_mark 0xff val _ (
            unfold read_var_int_after in
            checked _ _ 0x1_0000_0000 0xff val (uint64-Reads val fits) h₃))
    ])
  ])
]

-- VarIntSerializeSize is the number of bytes of the encoding.
pub length-var_int_bytes : (val : ℕ) → length (var_int_bytes val) ≡ var_int_serialize_size val
unfolding var_int_bytes var_int_serialize_size
length-var_int_bytes val =
    ground (arith, length-le_encode 2 val, length-le_encode 4 val, length-le_encode 8 val)
