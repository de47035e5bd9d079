-- ===== src/Buffer/Tests.antt =====
-- Runs of pkg/bufferutil on bytes of its tests, and the theorems at concrete inputs.
use banco.Prelude.{ℕ, ◌^◌, ◌+◌, ◌<◌, ◌≡◌, refl, arith, List, [], ◌∷◌, ◌++◌, length, replicate}
use banco.Buffer.Io.{ok, err, unexpected_eof, non_canonical, panic, Io}
use banco.Buffer.ByteOrder.{encode, decode}
use banco.Buffer.FreeList.{borrow, copy, read_full, give_back, read_uint, write_uint}
use banco.Buffer.FreeList.{uint8, uint16}
use banco.Buffer.FreeList.{put_uint8, put_uint16}
use banco.Buffer.Rules.{IsFree}
use banco.Buffer.VarInt.{write_var_int, read_var_int, read_var_int_after}
use banco.Buffer.VarInt.{var_int_serialize_size, var_slice_serialize_size}
use banco.Buffer.VarInt.RoundTrip.{var_int_bytes}
use banco.Buffer.VarInt.Canonical.{read_var_int_canonical}
use banco.Buffer.Serializer.{new_serializer, bytes, write_vector}
use banco.Buffer.Serializer.{write_var_slice}
use banco.Buffer.Deserializer.{read_slice, read_var_slice, read_vector}
use banco.Buffer.Deserializer.{read_uint8, read_elements_value, read_elements_asset}
use banco.Buffer.Deserializer.{read_elements_nonce}
use banco.Buffer.Deserializer.RoundTrip.{read_var_int-write_var_int, read_vector-write_vector}
use banco.Buffer.Deserializer.RoundTrip.{write-serialize_size}
use banco.Buffer.Deserializer.Elements.{IsField, value_width}
use banco.Buffer.Deserializer.Elements.{read_elements_output}
use banco.Buffer.Deserializer.Results.{read_var_slice_panics}
use banco.Buffer.Deserializer.Results.{read_elements-IsField, value_field}
use banco.Buffer.Keeps.{free_list_kept}

-- A free list whose one array holds the bytes of an earlier use.
abbrev stale : List (List ℕ)
stale = (1 ∷ 2 ∷ 3 ∷ 4 ∷ 5 ∷ 6 ∷ 7 ∷ 8 ∷ []) ∷ []

abbrev over : List ℕ → Io
over bs = record { free = stale; buffer = bs }

stale-IsFree : IsFree stale
stale-IsFree = record { capped = omega arith; eight = (refl, tt) }

abbrev two_slices : List (List ℕ)
two_slices = (7 ∷ 8 ∷ []) ∷ [] ∷ []

write_four_hundred : (write_var_int 400 (over [])).1.buffer ≡ 0xfd ∷ 0x90 ∷ 0x01 ∷ []
unfolding write_var_int put_uint8 put_uint16 write_uint borrow copy give_back encode
write_four_hundred = refl

read_short_width : (read_var_int (over (0xfd ∷ 0x90 ∷ []))).0 ≡ err unexpected_eof
unfolding read_var_int read_var_int_after uint8 uint16 read_uint borrow copy read_full give_back
read_short_width = refl

read_padded_number :
    (read_var_int (over (0xfd ∷ 0x05 ∷ 0 ∷ []))).0 ≡ err (non_canonical 5 0xfd 0xfd)
unfolding read_var_int read_var_int_after uint8 uint16 read_uint borrow copy read_full give_back
    decode
read_padded_number = refl

read_four_hundred :
    read_var_int (over (0xfd ∷ 0x90 ∷ 0x01 ∷ 5 ∷ []))
    ≡ (ok 400, record { free = (0x90 ∷ 0x01 ∷ 3 ∷ 4 ∷ 5 ∷ 6 ∷ 7 ∷ 8 ∷ []) ∷ []; buffer = 5 ∷ [] })
unfolding read_var_int read_var_int_after uint8 uint16 read_uint borrow copy read_full give_back
    decode
read_four_hundred = refl

read_cut_slice : (read_var_slice (over (4 ∷ 9 ∷ []))).0 ≡ ok (9 ∷ 0 ∷ 0 ∷ 0 ∷ [])
unfolding read_var_slice read_slice read_var_int read_var_int_after uint8 read_uint borrow copy
    read_full give_back
read_cut_slice = refl

read_var_int-write_var_int_example :
    let (r, s) = write_var_int 70000 (new_serializer stale) in
    let (r', s') = read_var_int (record s { buffer = bytes s ++ (5 ∷ []) }) in
    (r ≡ ok tt) × (r' ≡ ok 70000) × (s'.buffer ≡ 5 ∷ [])
read_var_int-write_var_int_example =
    read_var_int-write_var_int 70000 stale (5 ∷ []) (omega arith) stale-IsFree

read_vector-write_vector_example :
    let (r, s) = write_vector two_slices (new_serializer stale) in
    let (r', s') = read_vector (record s { buffer = bytes s ++ (5 ∷ []) }) in
    (r ≡ ok tt) × (r' ≡ ok two_slices) × (s'.buffer ≡ 5 ∷ [])
read_vector-write_vector_example =
    read_vector-write_vector two_slices stale (5 ∷ []) (omega arith) (omega arith) stale-IsFree

size_of_slice :
    (length (write_var_int 400 (over (1 ∷ []))).1.buffer ≡ 1 + var_int_serialize_size 400)
    × (length (write_var_slice (7 ∷ 8 ∷ []) (over (1 ∷ []))).1.buffer
        ≡ 1 + var_slice_serialize_size (7 ∷ 8 ∷ []))
size_of_slice = write-serialize_size 400 (7 ∷ 8 ∷ []) stale (1 ∷ []) stale-IsFree

read_var_int_canonical_example :
    (0xfd ∷ 0x90 ∷ 0x01 ∷ 5 ∷ [] ≡ var_int_bytes 400 ++ (5 ∷ [])) × (400 < 2 ^ 64)
read_var_int_canonical_example =
    read_var_int_canonical (over (0xfd ∷ 0x90 ∷ 0x01 ∷ 5 ∷ []))
      (record { free = (0x90 ∷ 0x01 ∷ 3 ∷ 4 ∷ 5 ∷ 6 ∷ 7 ∷ 8 ∷ []) ∷ []; buffer = 5 ∷ [] }) 400
      stale-IsFree (omega arith) read_four_hundred

read_short_slice : read_slice 3 (over (9 ∷ [])) ≡ (ok (9 ∷ 0 ∷ 0 ∷ []), over [])
unfolding read_slice
read_short_slice = refl

read_var_slice_panics_example :
    (read_var_slice (record { free = stale; buffer = var_int_bytes (2 ^ 48 + 1) ++ [] })).0
    ≡ err panic
read_var_slice_panics_example =
    read_var_slice_panics (2 ^ 48 + 1) stale [] (omega arith) (omega arith) stale-IsFree

abbrev asset : List ℕ
asset = 1 ∷ replicate 32 0xaa

abbrev value : List ℕ
value = 1 ∷ replicate 8 0x05

abbrev nonce : List ℕ
nonce = 0 ∷ []

read_elements_output_example :
    let (r₁, s₁) = read_elements_asset (over (asset ++ (value ++ (nonce ++ (5 ∷ []))))) in
    let (r₂, s₂) = read_elements_value s₁ in
    let (r₃, s₃) = read_elements_nonce s₂ in
    (r₁ ≡ ok asset) × (r₂ ≡ ok value) × (r₃ ≡ ok nonce) × (s₃.buffer ≡ 5 ∷ [])
read_elements_output_example =
    read_elements_output asset value nonce (5 ∷ []) stale refl refl refl stale-IsFree

-- The state after a read of one version byte and a payload that is cut off.
abbrev after_cut : ℕ → Io
after_cut version = record { free = (version ∷ 2 ∷ 3 ∷ 4 ∷ 5 ∷ 6 ∷ 7 ∷ 8 ∷ []) ∷ []; buffer = [] }

read_cut_value : read_elements_value (over (1 ∷ 5 ∷ [])) ≡ (ok (1 ∷ 5 ∷ replicate 7 0), after_cut 1)
unfolding read_elements_value read_uint8 uint8 read_uint borrow copy read_full give_back read_slice
read_cut_value = refl

read_cut_secret :
    read_elements_value (over (9 ∷ 5 ∷ [])) ≡ (ok (9 ∷ 5 ∷ replicate 31 0), after_cut 9)
unfolding read_elements_value read_uint8 uint8 read_uint borrow copy read_full give_back read_slice
read_cut_secret = refl

read_cut_asset :
    read_elements_asset (over (10 ∷ 5 ∷ [])) ≡ (ok (10 ∷ 5 ∷ replicate 31 0), after_cut 10)
unfolding read_elements_asset read_uint8 uint8 read_uint borrow copy read_full give_back read_slice
read_cut_asset = refl

read_cut_nonce :
    read_elements_nonce (over (2 ∷ 5 ∷ [])) ≡ (ok (2 ∷ 5 ∷ replicate 31 0), after_cut 2)
unfolding read_elements_nonce read_uint8 uint8 read_uint borrow copy read_full give_back read_slice
read_cut_nonce = refl

read_elements-IsField_example : IsField value_width (9 ∷ 5 ∷ replicate 31 0)
read_elements-IsField_example =
    read_elements-IsField value_field (over (9 ∷ 5 ∷ [])) (after_cut 9) (9 ∷ 5 ∷ replicate 31 0)
      read_cut_secret

free_list_kept_example :
    let s = over (0xfd ∷ 0x90 ∷ []) in
    IsFree (write_var_int 70000 s).1.free
    × IsFree (write_var_slice (7 ∷ 8 ∷ []) s).1.free
    × IsFree (write_vector two_slices s).1.free
    × IsFree (read_var_int s).1.free
    × IsFree (read_var_slice s).1.free
    × IsFree (read_vector s).1.free
    × IsFree (read_elements_value s).1.free
    × IsFree (read_elements_asset s).1.free
    × IsFree (read_elements_nonce s).1.free
free_list_kept_example =
    free_list_kept (over (0xfd ∷ 0x90 ∷ [])) 70000 (7 ∷ 8 ∷ []) two_slices stale-IsFree
