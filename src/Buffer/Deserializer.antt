-- ===== src/Buffer/Deserializer.antt =====
-- pkg/bufferutil/deserializer.go: the buffer of a Deserializer is the buffer of the state.
pub mod RoundTrip
pub mod Elements
pub mod Results
use banco.Prelude.{ℕ, zero, suc, ◌+◌, ◌-◌, ◌^◌, List, [], ◌∷◌, ◌++◌, ◌&&◌, ◌||◌}
use banco.Prelude.{ltb, leb, ◌==◌, if◌then◌else◌, length, take, drop, replicate}
use banco.Buffer.Io.{eof, invalid_prefix, panic, ok, err, Action, Io, ◌>>=◌, pure, raise}
use banco.Buffer.ByteOrder.{little_endian}
use banco.Buffer.FreeList.{uint8, uint16, uint32, uint64}
use banco.Buffer.VarInt.{read_var_int}

unfoldable pub read_to_end : Io → List ℕ
read_to_end s = s.buffer

unfoldable pub read_uint8 : Action ℕ
read_uint8 = uint8

unfoldable pub read_uint16 : Action ℕ
read_uint16 = uint16 little_endian

unfoldable pub read_uint32 : Action ℕ
read_uint32 = uint32 little_endian

unfoldable pub read_uint64 : Action ℕ
read_uint64 = uint64 little_endian

-- `make` panics on a slice of more bytes than the runtime can ever allocate, which on amd64 is 2 ^ 48.
-- That less memory may also be missing is left out.
abbrev pub len_limit : ℕ
len_limit = 2 ^ 48 + 1

-- `make([]byte, n)` and then `Read` of a bytes.Buffer, which copies what there is. It returns
-- io.EOF only if the buffer is empty and `n` is not 0, and says by a count, which the code drops,
-- that it copied less than `n`.
unfoldable pub read_slice : ℕ → Action (List ℕ)
read_slice n s =
    let padded = take n s.buffer ++ replicate (n - length s.buffer) 0 in
    if leb len_limit n
    then (err panic, s)
    else if (length s.buffer == 0) && ltb 0 n
    then (err eof, s)
    else (ok padded, record s { buffer = drop n s.buffer })

unfoldable pub read_var_slice : Action (List ℕ)
read_var_slice = read_var_int >>= read_slice

-- The `for` loop with the rounds left.
unfoldable pub read_vector_loop : ℕ → List (List ℕ) → Action (List (List ℕ))
read_vector_loop zero v = pure v
read_vector_loop (suc rounds) v =
    read_var_slice >>= λ val. read_vector_loop rounds (v ++ (val ∷ []))

unfoldable pub read_vector : Action (List (List ℕ))
read_vector = read_var_int >>= λ n. read_vector_loop n []

-- The tail of `ReadElementsValue`, on the bytes behind the version.
unfoldable pub value_of : ℕ → List ℕ → Action (List ℕ)
value_of version next_bytes =
    if length next_bytes == 0 then raise (invalid_prefix version) else pure (version ∷ next_bytes)

-- The versions exclude each other, so the two `if`s on them are one chain.
unfoldable pub next_bytes_of : ℕ → Action (List ℕ)
next_bytes_of version =
    if version == 1
    then read_slice 8
    else if (version == 8) || (version == 9)
    then read_slice 32
    else pure []

unfoldable pub read_elements_value : Action (List ℕ)
unfolding value_of next_bytes_of
read_elements_value = read_uint8 >>= λ version.
    if version == 0 then pure (version ∷ []) else (next_bytes_of version >>= value_of version)

unfoldable pub read_elements_asset : Action (List ℕ)
read_elements_asset = read_uint8 >>= λ version.
    if (version == 1) || (version == 10) || (version == 11)
    then (read_slice 32 >>= λ b. pure (version ∷ b))
    else raise (invalid_prefix version)

unfoldable pub read_elements_nonce : Action (List ℕ)
read_elements_nonce = read_uint8 >>= λ version.
    if leb 1 version && leb version 3
    then (read_slice 32 >>= λ b. pure (version ∷ b))
    else pure (version ∷ [])
