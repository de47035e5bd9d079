-- ===== src/Buffer/Io.antt =====
-- What the functions of pkg/bufferutil work on: the free list of scratch buffers, a global of the
-- package, and the unread part of a bytes.Buffer; and Go's pair of a value and an error.
use banco.Prelude.{ℕ, List, ◌++◌, Option, none, some}

pub data Error : Type 0 where
  -- io.EOF and io.ErrUnexpectedEOF
  eof unexpected_eof : Error
  -- the value, the discriminant and the least value that the discriminant may encode
  non_canonical : ℕ → ℕ → ℕ → Error
  invalid_prefix : ℕ → Error
  -- a run-time panic, which no caller of the package recovers from
  panic : Error

pub data Result (A : Type 0) : Type 0 where
  ok : A → Result A
  err : Error → Result A

-- `free` is the channel's queue of backing arrays, the oldest first; `buffer` is what is written
-- and not read yet.
pub record Io : Type 0 where
  pub free : List (List ℕ)
  pub buffer : List ℕ

-- What was read, written or returned to the free list before an error stays so.
abbrev pub Action : Type 0 → Type 0
Action A = Io → Result A × Io

abbrev pub continue : {A B : Type 0} → Result A → (A → Action B) → Action B
continue (ok a) f s = f a s
continue (err e) f s = (err e, s)

infixl 5 ◌>>=◌ ◌>>◌
abbrev pub ◌>>=◌ : {A B : Type 0} → Action A → (A → Action B) → Action B
◌>>=◌ m f s = let (r, s') = m s in continue r f s'

abbrev pub ◌>>◌ : {A B : Type 0} → Action A → Action B → Action B
m >> k = m >>= λ _. k

abbrev pub pure : {A : Type 0} → A → Action A
pure a s = (ok a, s)

abbrev pub raise : {A : Type 0} → Error → Action A
raise e s = (err e, s)

-- `if err != nil { return err }`
abbrev pub unless_error : {A : Type 0} → Option Error → A → Action A
unless_error none a = pure a
unless_error (some e) a = raise e

-- `Write` of a bytes.Buffer, which returns no error.
abbrev pub write : List ℕ → Action (Unit {0})
write bs s = (ok tt, record s { buffer = s.buffer ++ bs })
