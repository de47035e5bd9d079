-- ===== src/Buffer/VarInt.antt =====
-- writeVarInt, readVarInt and the sizes of pkg/bufferutil/bufferutil.go.
pub mod RoundTrip
pub mod Canonical
use banco.Prelude.{ℕ, ◌+◌, ◌%◌, ◌^◌, List, ltb, leb, ◌==◌, if◌then◌else◌, length}
use banco.Buffer.Io.{non_canonical, Action, ◌>>=◌, ◌>>◌, pure, raise}
use banco.Buffer.ByteOrder.{little_endian}
use banco.Buffer.FreeList.{uint8, uint16, uint32, uint64}
use banco.Buffer.FreeList.{put_uint8, put_uint16, put_uint32, put_uint64}

abbrev max_uint16 : ℕ
max_uint16 = 0xffff

abbrev max_uint32 : ℕ
max_uint32 = 0xffff_ffff

-- A conversion such as `uint16(val)` keeps the low bits.
unfoldable pub write_var_int : ℕ → Action (Unit {0})
write_var_int val =
    if ltb val 0xfd
    then put_uint8 (val % 2 ^ 8)
    else if leb val max_uint16
    then (put_uint8 0xfd >> put_uint16 little_endian (val % 2 ^ 16))
    else if leb val max_uint32
    then (put_uint8 0xfe >> put_uint32 little_endian (val % 2 ^ 32))
    else (put_uint8 0xff >> put_uint64 little_endian val)

-- The refusal of a value that could have been encoded in fewer bytes.
abbrev pub at_least : ℕ → ℕ → ℕ → Action ℕ
at_least least discriminant rv =
    if ltb rv least then raise (non_canonical rv discriminant least) else pure rv

-- The `switch` on the discriminant.
unfoldable pub read_var_int_after : ℕ → Action ℕ
read_var_int_after discriminant =
    if discriminant == 0xff
    then (uint64 little_endian >>= at_least 0x1_0000_0000 discriminant)
    else if discriminant == 0xfe
    then (uint32 little_endian >>= at_least 0x1_0000 discriminant)
    else if discriminant == 0xfd
    then (uint16 little_endian >>= at_least 0xfd discriminant)
    else pure discriminant

unfoldable pub read_var_int : Action ℕ
read_var_int = uint8 >>= read_var_int_after

unfoldable pub var_int_serialize_size : ℕ → ℕ
var_int_serialize_size val =
    if ltb val 0xfd
    then 1
    else if leb val max_uint16
    then 3
    else if leb val max_uint32
    then 5
    else 9

-- The length of a slice is an int that is not negative, so the conversion to uint64 keeps it.
unfoldable pub var_slice_serialize_size : List ℕ → ℕ
unfolding var_int_serialize_size
var_slice_serialize_size val = var_int_serialize_size (length val) + length val
