-- ===== src/Buffer/Deserializer/Results.antt =====
-- What the Deserializer returns on any input, also on one that ends too soon.
use banco.Prelude.{ℕ, ◌-◌, ◌^◌, ◌≤◌, ◌<◌, ◌≡◌, ◌∙◌, ap, arith, inl, inr}
use banco.Prelude.{List, [], ◌∷◌, ◌++◌, length, length-append, length-take-min, length-replicate}
use banco.Prelude.{
  take, drop, take_all, drop_all, replicate, Bool-cases, subst, false, Option, some, append-nil,
  ◌⊎◌,
}
use banco.Prelude.{leb, ◌==◌, ◌&&◌, ◌||◌, if◌then◌else◌}
use banco.Buffer.Io.{ok, err, eof, invalid_prefix, raise, panic, Io, Action, ◌>>=◌}
use banco.Buffer.Rules.{IsFree, bind_ok}
use banco.Buffer.VarInt.RoundTrip.{var_int_bytes, read_var_int-Reads}
use banco.Buffer.Deserializer.{len_limit, read_slice, read_var_slice, value_of, next_bytes_of}
use banco.Buffer.Deserializer.{read_uint8, read_elements_value}
use banco.Buffer.Deserializer.{read_elements_asset, read_elements_nonce}
use banco.Buffer.Deserializer.Elements.{IsField, value_width, asset_width, nonce_width}

length_padded : (n : ℕ) (bs : List ℕ) → length (take n bs ++ replicate (n - length bs) 0) ≡ n
length_padded n bs =
    let zeros : List ℕ = replicate (n - length bs) 0 in
    let count : length zeros ≡ n - length bs = length-replicate (n - length bs) 0 in
    length-append (take n bs) zeros ∙ omega (arith, length-take-min n bs, count)

-- A slice that is read has the length that was asked for.
read_slice_ok : (n : ℕ) (s s' : Io) (val : List ℕ) → read_slice n s ≡ (ok val, s') → length val ≡ n
unfolding read_slice
read_slice_ok n s s' val e = ground (arith, length_padded n s.buffer)

no_padding :
    (n : ℕ) (bs : List ℕ) → n ≤ length bs → take n bs ++ replicate (n - length bs) 0 ≡ take n bs
no_padding n bs h =
    let none_left : n - length bs ≡ 0 = omega arith in rw (none_left, append-nil (take n bs))

-- ReadSlice on every input: a length that cannot be allocated panics, an empty buffer is io.EOF unless
-- nothing is asked for, and otherwise the result has the length asked for, is the front of the
-- buffer where that is long enough, and is the whole buffer with zero bytes behind it where it is
-- not; there is no error in that case.
read_slice_cases :
    (n : ℕ) (s : Io)
    → (len_limit ≤ n → read_slice n s ≡ (err panic, s))
      × (n < len_limit → 0 < n → s.buffer ≡ [] → read_slice n s ≡ (err eof, s))
      × (n < len_limit
          → n ≤ length s.buffer
          → read_slice n s ≡ (ok (take n s.buffer), record s { buffer = drop n s.buffer }))
      × (n < len_limit
          → 0 < length s.buffer
          → length s.buffer < n
          → read_slice n s
            ≡ (ok (s.buffer ++ replicate (n - length s.buffer) 0), record s { buffer = [] }))
unfolding read_slice
read_slice_cases n s = (
  λ big. ground arith,
  λ small pos e. ground (arith, ap length e),
  λ small enough. ground (arith, no_padding n s.buffer enough),
  λ small some_left short.
      ground (arith, take_all n s.buffer (omega arith), drop_all n s.buffer (omega arith)),
)

-- From a well-formed free list, a length prefix above 2 ^ 48, which any input may carry, makes
-- ReadVarSlice panic.
pub read_var_slice_panics :
    (val : ℕ) (free : List (List ℕ)) (rest : List ℕ)
    → len_limit ≤ val
    → val < 2 ^ 64
    → IsFree free
    → (read_var_slice (record { free = free; buffer = var_int_bytes val ++ rest })).0 ≡ err panic
unfolding read_var_slice
read_var_slice_panics val free rest big fits h =
    let (free', h', run) = (read_var_int-Reads val fits).at free rest h in
    rw (run, (read_slice_cases val (record { free = free'; buffer = rest })).0 big)

next_bytes_ok :
    (version : ℕ) (t t' : Io) (b : List ℕ)
    → (version == 0) ≡ false
    → next_bytes_of version t ≡ (ok b, t')
    → (length b ≡ 0) ⊎ (value_width version ≡ some (length b))
unfolding next_bytes_of
next_bytes_ok version t t' b n₀ e = elim (Bool-cases (version == 1)) [
  | inl o ↦ inr (ground (arith, read_slice_ok 8 t t' b (rw o at e)))
  | inr n₁ ↦ elim (Bool-cases ((version == 8) || (version == 9))) [
    | inl c ↦ inr (ground (arith, read_slice_ok 32 t t' b (rw (n₁, c) at e)))
    | inr n₂ ↦ inl (ground (arith, rw (n₁, n₂) at e))
  ]
]

as-IsField :
    (count : ℕ → Option ℕ) (version : ℕ) (b : List ℕ) {val : List ℕ}
    → version ∷ b ≡ val
    → count version ≡ some (length b)
    → IsField count val
as-IsField count version b e h = subst (IsField count) e h

value_of_ok :
    (version : ℕ) (t t' : Io) (b val : List ℕ)
    → (length b ≡ 0) ⊎ (value_width version ≡ some (length b))
    → value_of version b t ≡ (ok val, t')
    → IsField value_width val
unfolding value_of
value_of_ok version t t' b val h e = elim (Bool-cases (length b == 0)) [
  | inl z ↦ cc (rw z at e)
  | inr nz ↦ as-IsField value_width version b (ground (arith, rw nz at e)) (ground arith)
]

after_value_ok :
    (version : ℕ) (t s' : Io) (val : List ℕ)
    → (if version == 0
          then (λ (s : Io). (ok (version ∷ []), s))
          else (next_bytes_of version >>= value_of version))
        t
      ≡ (ok val, s')
    → IsField value_width val
after_value_ok version t s' val e = elim (Bool-cases (version == 0)) [
  | inl z ↦ as-IsField value_width version [] (ground (arith, rw z at e)) (ground arith)
  | inr n₀ ↦
      let (b, e₁, e₂) =
        bind_ok (next_bytes_of version t).0 (value_of version) (next_bytes_of version t).1 s'
          (rw n₀ at e) in
      value_of_ok version (next_bytes_of version t).1 s' b val
        (next_bytes_ok version t (next_bytes_of version t).1 b n₀
          (λ i. (e₁ i, (next_bytes_of version t).1)))
        e₂
]

prefixed_ok :
    (n version : ℕ) (t s' : Io) (val : List ℕ)
    → (read_slice n >>= λ b s. (ok (version ∷ b), s)) t ≡ (ok val, s')
    → (b : List ℕ) × (version ∷ b ≡ val) × (length b ≡ n)
prefixed_ok n version t s' val e =
    let (b, e₁, e₂) = bind_ok (read_slice n t).0 _ (read_slice n t).1 s' e in
    (b, cc e₂, read_slice_ok n t (read_slice n t).1 b (λ i. (e₁ i, (read_slice n t).1)))

after_asset_ok :
    (version : ℕ) (t s' : Io) (val : List ℕ)
    → (if (version == 1) || (version == 10) || (version == 11)
          then (read_slice 32 >>= λ b s. (ok (version ∷ b), s))
          else raise (invalid_prefix version))
        t
      ≡ (ok val, s')
    → IsField asset_width val
after_asset_ok version t s' val e =
    elim (Bool-cases ((version == 1) || (version == 10) || (version == 11))) [
      | inl c ↦
          let (b, whole, len) = prefixed_ok 32 version t s' val (rw c at e) in
          as-IsField asset_width version b whole (rw (c, len))
      | inr n ↦ cc (rw n at e)
    ]

after_nonce_ok :
    (version : ℕ) (t s' : Io) (val : List ℕ)
    → (if leb 1 version && leb version 3
          then (read_slice 32 >>= λ b s. (ok (version ∷ b), s))
          else (λ s. (ok (version ∷ []), s)))
        t
      ≡ (ok val, s')
    → IsField nonce_width val
after_nonce_ok version t s' val e = elim (Bool-cases (leb 1 version && leb version 3)) [
  | inl c ↦
      let (b, whole, len) = prefixed_ok 32 version t s' val (rw c at e) in
      as-IsField nonce_width version b whole (rw (c, len))
  | inr n ↦ as-IsField nonce_width version [] (ground (arith, rw n at e)) (rw n)
]

-- The Elements fields that the Deserializer reads.
pub data Field : Type 0 where
  value_field asset_field nonce_field : Field

abbrev pub reader : Field → Action (List ℕ)
reader value_field = read_elements_value
reader asset_field = read_elements_asset
reader nonce_field = read_elements_nonce

abbrev pub width : Field → ℕ → Option ℕ
width value_field = value_width
width asset_field = asset_width
width nonce_field = nonce_width

-- Whatever the input, and for each of the three readers by itself: a value, an asset or a nonce that
-- the Deserializer returns is a version that the field allows and as many bytes as that version asks
-- for, also where the input ends too soon.
pub read_elements-IsField :
    (field : Field) (s s' : Io) (val : List ℕ)
    → reader field s ≡ (ok val, s')
    → IsField (width field) val
unfolding read_elements_value read_elements_asset read_elements_nonce
read_elements-IsField value_field s s' val e =
    let (r, t) = read_uint8 s in
    let (version, _, i) = bind_ok r _ t s' e in after_value_ok version t s' val i
read_elements-IsField asset_field s s' val e =
    let (r, t) = read_uint8 s in
    let (version, _, i) = bind_ok r _ t s' e in after_asset_ok version t s' val i
read_elements-IsField nonce_field s s' val e =
    let (r, t) = read_uint8 s in
    let (version, _, i) = bind_ok r _ t s' e in after_nonce_ok version t s' val i
