-- ===== src/Buffer/FreeList.antt =====
-- binaryFreeList of pkg/bufferutil/bufferutil.go: scratch arrays of 8 bytes, and the numbers read
-- and written through them.
use banco.Prelude.{ℕ, List, [], ◌∷◌, ◌++◌, Option, none, some}
use banco.Prelude.{ltb, ◌==◌, if◌then◌else◌, length, take, drop, replicate}
use banco.Buffer.Io.{Error, eof, unexpected_eof, panic, ok, err, Action, ◌>>=◌, ◌>>◌}
use banco.Buffer.Io.{unless_error, write}
use banco.Buffer.ByteOrder.{ByteOrder, encode, decode}

abbrev pub binary_free_list_max_items : ℕ
binary_free_list_max_items = 1024

-- `copy(dst, src)`: the front of `dst` is overwritten.
unfoldable pub copy : List ℕ → List ℕ → List ℕ
copy [] src = []
copy (d ∷ dst) [] = d ∷ dst
copy (d ∷ dst) (b ∷ src) = b ∷ copy dst src

-- `buf[:8]`, which panics on an array that is too short.
abbrev reslice : List ℕ → Action (List ℕ)
reslice b s = if ltb (length b) 8 then (err panic, s) else (ok b, s)

-- The `select` on a receive: the oldest array, or a new one if there is none.
abbrev borrow_from : List (List ℕ) → Action (List ℕ)
borrow_from [] s = (ok (replicate 8 0), s)
borrow_from (b ∷ rest) s = reslice b (record s { free = rest })

unfoldable pub borrow : Action (List ℕ)
borrow s = borrow_from s.free s

-- The `select` on a send: the array is dropped if the channel is full. A short slice of the array
-- still has the array's capacity, so it is the array that goes back.
unfoldable pub give_back : List ℕ → Action (Unit {0})
give_back buf s = (
  ok tt,
  if ltb (length s.free) binary_free_list_max_items
      then record s { free = s.free ++ (buf ∷ []) }
      else s,
)

-- The error of `io.ReadFull` for `want` bytes when `got` were there.
abbrev pub full_error : ℕ → ℕ → Option Error
full_error got want =
    if got == want then none else if got == 0 then some eof else some unexpected_eof

-- `io.ReadFull` into the first `k` bytes of an array: what there is is read, also before an error.
unfoldable pub read_full : ℕ → List ℕ → Action (List ℕ × Option Error)
unfolding copy
read_full k buf s =
    let got = take k s.buffer in
    (ok (copy buf got, full_error (length got) k), record s { buffer = drop k s.buffer })

-- The common body of `Uint8`, `Uint16`, `Uint32` and `Uint64`. The array goes back on both paths.
unfoldable pub read_uint : ℕ → (List ℕ → ℕ) → Action ℕ
read_uint k convert = do
  buf ← borrow
  (filled, e) ← read_full k buf
  give_back filled
  unless_error e (convert (take k filled))

-- `buf[0]` of a slice that is not empty.
abbrev pub first : List ℕ → ℕ
first [] = 0
first (b ∷ bs) = b

unfoldable pub uint8 : Action ℕ
uint8 = read_uint 1 first

unfoldable pub uint16 : ByteOrder → Action ℕ
uint16 order = read_uint 2 (decode order)

unfoldable pub uint32 : ByteOrder → Action ℕ
uint32 order = read_uint 4 (decode order)

unfoldable pub uint64 : ByteOrder → Action ℕ
uint64 order = read_uint 8 (decode order)

-- The common body of `PutUint8`, `PutUint16`, `PutUint32` and `PutUint64`, on the number's bytes.
unfoldable pub write_uint : ℕ → List ℕ → Action (Unit {0})
write_uint k bs = do buf ← borrow; let filled = copy buf bs; write (take k filled); give_back filled

unfoldable pub put_uint8 : ℕ → Action (Unit {0})
put_uint8 val = write_uint 1 (val ∷ [])

unfoldable pub put_uint16 : ByteOrder → ℕ → Action (Unit {0})
put_uint16 order val = write_uint 2 (encode order 2 val)

unfoldable pub put_uint32 : ByteOrder → ℕ → Action (Unit {0})
put_uint32 order val = write_uint 4 (encode order 4 val)

unfoldable pub put_uint64 : ByteOrder → ℕ → Action (Unit {0})
put_uint64 order val = write_uint 8 (encode order 8 val)
