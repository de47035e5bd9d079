-- ===== src/Buffer/ByteOrder.antt =====
-- The byte orders of encoding/binary that pkg/bufferutil names, for a number of any width.
use banco.Prelude.{ℕ, zero, suc, ◌+◌, ◌*◌, ◌/◌, ◌%◌, ◌^◌, ◌<◌, ◌≡◌, refl, ap, ◌∙◌, arith}
use banco.Prelude.{List, [], ◌∷◌, length, All}
use mathlib.Core.List.{reverse}

abbrev pub IsByte : ℕ → Type 0
IsByte b = b < 256

-- The low `k` bytes of a number, the least significant first.
unfoldable pub le_encode : ℕ → ℕ → List ℕ
le_encode zero v = []
le_encode (suc k) v = (v % 256) ∷ le_encode k (v / 256)

unfoldable pub le_decode : List ℕ → ℕ
le_decode [] = 0
le_decode (b ∷ bs) = b + 256 * le_decode bs

-- The package's variables `littleEndian` and `bigEndian`.
pub data ByteOrder : Type 0 where
  little_endian big_endian : ByteOrder

-- `PutUint16`, `PutUint32` and `PutUint64` at the width in bytes.
unfoldable pub encode : ByteOrder → ℕ → ℕ → List ℕ
unfolding le_encode
encode little_endian k v = le_encode k v
encode big_endian k v = reverse (le_encode k v)

-- `Uint16`, `Uint32` and `Uint64` on a slice of the width.
unfoldable pub decode : ByteOrder → List ℕ → ℕ
unfolding le_decode
decode little_endian bs = le_decode bs
decode big_endian bs = le_decode (reverse bs)

pub length-le_encode : (k v : ℕ) → length (le_encode k v) ≡ k
unfolding le_encode
length-le_encode zero v = refl
length-le_encode (suc k) v = ap suc (length-le_encode k (v / 256))

pub le_encode-IsByte : (k v : ℕ) → All IsByte (le_encode k v)
unfolding le_encode
le_encode-IsByte zero v = tt
le_encode-IsByte (suc k) v = (omega arith, le_encode-IsByte k (v / 256))

pub le_decode-le_encode : (k v : ℕ) → v < 256 ^ k → le_decode (le_encode k v) ≡ v
unfolding le_encode le_decode
le_decode-le_encode zero v h = omega arith
le_decode-le_encode (suc k) v h = omega (arith, le_decode-le_encode k (v / 256) (omega arith))

pub le_decode-lt : (k : ℕ) (bs : List ℕ) → length bs ≡ k → All IsByte bs → le_decode bs < 256 ^ k
unfolding le_decode
le_decode-lt zero [] e h = omega arith
le_decode-lt zero (b ∷ bs) e h = absurd (omega arith)
le_decode-lt (suc k) [] e h = absurd (omega arith)
le_decode-lt (suc k) (b ∷ bs) e (hb, h) = omega (arith, le_decode-lt k bs (omega arith) h)

pub le_encode-le_decode : (bs : List ℕ) → All IsByte bs → le_encode (length bs) (le_decode bs) ≡ bs
unfolding le_encode le_decode
le_encode-le_decode [] h = refl
le_encode-le_decode (b ∷ bs) (hb, h) =
    let low : (b + 256 * le_decode bs) % 256 ≡ b = omega arith in
    let high : (b + 256 * le_decode bs) / 256 ≡ le_decode bs = omega arith in
    ap (λ t. t ∷ le_encode (length bs) ((b + 256 * le_decode bs) / 256)) low
    ∙ ap (λ t. b ∷ le_encode (length bs) t) high
    ∙ ap (λ t. b ∷ t) (le_encode-le_decode bs h)
