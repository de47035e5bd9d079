-- ===== src/Buffer/Serializer.antt =====
-- pkg/bufferutil/serializer.go: the buffer of a Serializer is the buffer of the state.
use banco.Prelude.{ℕ, List, [], ◌∷◌, length}
use banco.Buffer.Io.{Action, Io, ◌>>◌, pure, write}
use banco.Buffer.ByteOrder.{little_endian}
use banco.Buffer.FreeList.{put_uint8, put_uint16, put_uint32, put_uint64}
use banco.Buffer.VarInt.{write_var_int}

-- `NewSerializer(nil)`: an empty buffer over the package's free list.
unfoldable pub new_serializer : List (List ℕ) → Io
new_serializer free = record { free = free; buffer = [] }

-- `Bytes`
unfoldable pub bytes : Io → List ℕ
bytes s = s.buffer

unfoldable pub write_uint8 : ℕ → Action (Unit {0})
write_uint8 val = put_uint8 val

unfoldable pub write_uint16 : ℕ → Action (Unit {0})
write_uint16 val = put_uint16 little_endian val

unfoldable pub write_uint32 : ℕ → Action (Unit {0})
write_uint32 val = put_uint32 little_endian val

unfoldable pub write_uint64 : ℕ → Action (Unit {0})
write_uint64 val = put_uint64 little_endian val

unfoldable pub write_slice : List ℕ → Action (Unit {0})
write_slice val = write val

unfoldable pub write_var_slice : List ℕ → Action (Unit {0})
unfolding write_slice
write_var_slice val = write_var_int (length val) >> write_slice val

-- The `for` loop over the vector.
unfoldable pub write_vector_loop : List (List ℕ) → Action (Unit {0})
write_vector_loop [] = pure tt
write_vector_loop (val ∷ v) = write_var_slice val >> write_vector_loop v

unfoldable pub write_vector : List (List ℕ) → Action (Unit {0})
write_vector v = write_var_int (length v) >> write_vector_loop v
