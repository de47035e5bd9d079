-- ===== src/Buffer/Deserializer/Elements.antt =====
-- The version byte of an Elements value, asset or nonce says how many bytes follow it.
use banco.Prelude.{ℕ, suc, ◌<◌, ◌≡◌, refl, arith, inl, inr, Option, none, some}
use banco.Prelude.{List, [], ◌∷◌, ◌++◌, append-nil, length}
use banco.Prelude.{Bool-cases, leb, ne→==, ◌==◌, ◌&&◌, ◌||◌, if◌then◌else◌}
use banco.Buffer.Io.{ok, Action, ◌>>=◌}
use banco.Buffer.Rules.{IsFree, Reads, Reads-bind, Reads-pure}
use banco.Buffer.VarInt.RoundTrip.{uint8-Reads}
use banco.Buffer.Deserializer.{len_limit, read_slice, read_uint8, value_of, next_bytes_of}
use banco.Buffer.Deserializer.{read_elements_value, read_elements_asset, read_elements_nonce}
use banco.Buffer.Deserializer.RoundTrip.{read_slice-Reads}

-- How many bytes follow each version, and `none` for a version that is refused.
abbrev pub value_width : ℕ → Option ℕ
value_width version =
    if version == 0
    then some 0
    else if version == 1
    then some 8
    else if (version == 8) || (version == 9)
    then some 32
    else none

abbrev pub asset_width : ℕ → Option ℕ
asset_width version = if (version == 1) || (version == 10) || (version == 11) then some 32 else none

abbrev pub nonce_width : ℕ → Option ℕ
nonce_width version = if leb 1 version && leb version 3 then some 32 else some 0

-- A version and as many bytes as it asks for.
abbrev pub IsField : (ℕ → Option ℕ) → List ℕ → Type 0
IsField width [] = ⊥
IsField width (version ∷ payload) = width version ≡ some (length payload)

read_uint8-Reads : (version : ℕ) → Reads read_uint8 (version ∷ []) version
unfolding read_uint8
read_uint8-Reads version = uint8-Reads version

slice_of_width : (n : ℕ) (bs : List ℕ) → n ≡ length bs → n < len_limit → Reads (read_slice n) bs bs
slice_of_width n bs e h = rw e (read_slice-Reads bs (omega arith))

then_prefix :
    (m : Action (List ℕ)) (version : ℕ) (payload : List ℕ)
    → Reads m payload payload
    → Reads (m >>= λ b s. (ok (version ∷ b), s)) payload (version ∷ payload)
then_prefix m version payload h =
    rw append-nil at
      (Reads-bind m (λ b s. (ok (version ∷ b), s)) payload _ payload [] h (Reads-pure _))

no_payload : (payload : List ℕ) → 0 ≡ length payload → payload ≡ []
no_payload [] e = refl
no_payload (b ∷ bs) e = absurd (omega arith)

nonempty_value :
    (m : Action (List ℕ)) (version : ℕ) (payload : List ℕ)
    → 0 < length payload
    → Reads m payload payload
    → Reads (m >>= value_of version) payload (version ∷ payload)
unfolding value_of
nonempty_value m version [] pos h = absurd (omega arith)
nonempty_value m version (b ∷ bs) pos h = rw append-nil at (
    Reads-bind m (value_of version) (b ∷ bs) (version ∷ b ∷ bs) (b ∷ bs) [] h
      (rw (ne→== (suc (length bs)) 0 (omega arith)) (Reads-pure (version ∷ b ∷ bs))))

after_version_value :
    (version : ℕ) (payload : List ℕ)
    → value_width version ≡ some (length payload)
    → Reads
        (if version == 0
          then (λ s. (ok (version ∷ []), s))
          else (next_bytes_of version >>= value_of version))
        payload
        (version ∷ payload)
unfolding next_bytes_of
after_version_value version payload e = elim (Bool-cases (version == 0)) [
  | inl z ↦ rw (z, no_payload payload (ground arith)) (Reads-pure _)
  | inr n₀ ↦ rw n₀ (elim (Bool-cases (version == 1)) [
    | inl o ↦ rw o (
        nonempty_value (read_slice 8) version payload (ground arith)
          (slice_of_width 8 payload (ground arith) (omega arith)))
    | inr n₁ ↦ elim (Bool-cases ((version == 8) || (version == 9))) [
      | inl c ↦
          rw (n₁, c)
            (nonempty_value (read_slice 32) version payload (ground arith)
              (slice_of_width 32 payload (ground arith) (omega arith)))
      | inr n₂ ↦ cc (rw (n₀, n₁, n₂) at e)
    ]
  ])
]

after_version_slice :
    (version n : ℕ) (payload : List ℕ)
    → n ≡ length payload
    → n < len_limit
    → Reads (read_slice n >>= λ b s. (ok (version ∷ b), s)) payload (version ∷ payload)
after_version_slice version n payload e h =
    then_prefix (read_slice n) version payload (slice_of_width n payload e h)

-- ReadElementsValue returns a well-formed value field as it is, and takes no more.
pub read_elements_value-Reads :
    (bs : List ℕ) → IsField value_width bs → Reads read_elements_value bs bs
unfolding read_elements_value
read_elements_value-Reads [] h = absurd h
read_elements_value-Reads (version ∷ payload) h =
    Reads-bind read_uint8 _ version _ (version ∷ []) payload (read_uint8-Reads version)
      (after_version_value version payload h)

pub read_elements_asset-Reads :
    (bs : List ℕ) → IsField asset_width bs → Reads read_elements_asset bs bs
unfolding read_elements_asset
read_elements_asset-Reads [] h = absurd h
read_elements_asset-Reads (version ∷ payload) h =
    Reads-bind read_uint8 _ version _ (version ∷ []) payload (read_uint8-Reads version)
      (elim (Bool-cases ((version == 1) || (version == 10) || (version == 11))) [
        | inl c ↦ rw c (after_version_slice version 32 payload (ground arith) (omega arith))
        | inr n ↦ cc (rw n at h)
      ])

pub read_elements_nonce-Reads :
    (bs : List ℕ) → IsField nonce_width bs → Reads read_elements_nonce bs bs
unfolding read_elements_nonce
read_elements_nonce-Reads [] h = absurd h
read_elements_nonce-Reads (version ∷ payload) h =
    Reads-bind read_uint8 _ version _ (version ∷ []) payload (read_uint8-Reads version)
      (elim (Bool-cases (leb 1 version && leb version 3)) [
        | inl c ↦ rw c (after_version_slice version 32 payload (ground arith) (omega arith))
        | inr n ↦ rw (n, no_payload payload (ground arith)) (Reads-pure _)
      ])

-- From a well-formed free list a well-formed asset, value and nonce that stand one after the other,
-- as in an output, are read back as they are, and what follows them is left.
pub read_elements_output :
    (asset value nonce rest : List ℕ) (free : List (List ℕ))
    → IsField asset_width asset
    → IsField value_width value
    → IsField nonce_width nonce
    → IsFree free
    → let (r₁, s₁) =
        read_elements_asset
          (record { free = free; buffer = asset ++ (value ++ (nonce ++ rest)) }) in
      let (r₂, s₂) = read_elements_value s₁ in
      let (r₃, s₃) = read_elements_nonce s₂ in
      (r₁ ≡ ok asset) × (r₂ ≡ ok value) × (r₃ ≡ ok nonce) × (s₃.buffer ≡ rest)
read_elements_output asset value nonce rest free ha hv hn h =
    let (free₁, h₁, e₁) =
      (read_elements_asset-Reads asset ha).at free (value ++ (nonce ++ rest)) h in
    let (free₂, h₂, e₂) = (read_elements_value-Reads value hv).at free₁ (nonce ++ rest) h₁ in
    let (free₃, h₃, e₃) = (read_elements_nonce-Reads nonce hn).at free₂ rest h₂ in
    rw (e₁, e₂, e₃) (refl, refl, refl, refl)
