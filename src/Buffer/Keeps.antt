-- ===== src/Buffer/Keeps.antt =====
-- Every reader and writer leaves the free list well formed, also where it ends in an error.
use banco.Prelude.{ℕ, zero, suc, ◌≤◌, ◌<◌, Bool, true, false, inl, inr, List, [], ◌∷◌, ◌++◌}
use banco.Prelude.{if◌then◌else◌, length, leb, ltb, ◌==◌, ◌&&◌, arith, Bool-cases}
use banco.Buffer.Io.{ok, err, Error, Io, Result, Action, ◌>>=◌, continue, pure, raise}
use banco.Buffer.ByteOrder.{ByteOrder}
use banco.Buffer.FreeList.{uint8, uint16, uint32, uint64, read_uint, first}
use banco.Buffer.ByteOrder.{decode}
use banco.Buffer.Rules.{IsFree, Writes}
use banco.Buffer.Scratch.{read_uint_lem}
use banco.Buffer.VarInt.{read_var_int, read_var_int_after, at_least, write_var_int}
use banco.Buffer.VarInt.RoundTrip.{write_var_int-Writes}
use banco.Buffer.Deserializer.{len_limit, read_slice, read_var_slice, read_vector_loop, read_vector}
use banco.Buffer.Deserializer.{read_uint8, value_of, next_bytes_of, read_elements_value}
use banco.Buffer.Deserializer.{read_elements_asset, read_elements_nonce}
use banco.Buffer.Deserializer.RoundTrip.{write_vector-Writes, write_var_slice-Writes}
use banco.Buffer.Serializer.{write_vector, write_var_slice}

record Keeps {A : Type 0} (m : Action A) : Type 0 where
  at : (s : Io) → IsFree s.free → IsFree (m s).1.free

module _ {A : Type 0} where
  Keeps-pure : (a : A) → Keeps (pure a)
  Keeps-pure a = record { at = λ s h. h }

  Keeps-raise : (e : Error) → Keeps (raise {A = A} e)
  Keeps-raise e = record { at = λ s h. h }

  Keeps-if : (b : Bool) (m n : Action A) → Keeps m → Keeps n → Keeps (if b then m else n)
  Keeps-if true m n hm hn = hm
  Keeps-if false m n hm hn = hn

module _ {A B : Type 0} where
  Keeps-continue :
      (r : Result A) (f : A → Action B) (s : Io)
      → ((a : A) → Keeps (f a))
      → IsFree s.free
      → IsFree (continue r f s).1.free
  Keeps-continue (ok a) f s hf h = (hf a).at s h
  Keeps-continue (err e) f s hf h = h

  Keeps-bind :
      (m : Action A) (f : A → Action B) → Keeps m → ((a : A) → Keeps (f a)) → Keeps (m >>= f)
  Keeps-bind m f hm hf = record { at = λ s h. Keeps-continue (m s).0 f (m s).1 hf (hm.at s h) }

Keeps-Writes : (m : Action (Unit {0})) (bs : List ℕ) → Writes m bs → Keeps m
Keeps-Writes m bs w = record {
  at = λ s h. let (free', h', run) = w.at s.free s.buffer h in rw run h';
}

Keeps-read_uint : (k : ℕ) (convert : List ℕ → ℕ) → 0 < k → k ≤ 8 → Keeps (read_uint k convert)
Keeps-read_uint k convert pos fits = record {
  at =
      λ s h. let (free', h', run) = read_uint_lem k convert s.free s.buffer pos fits h in rw run h';
}

Keeps-uint8 : Keeps uint8
unfolding uint8
Keeps-uint8 = Keeps-read_uint 1 first (omega arith) (omega arith)

Keeps-uint16 : (order : ByteOrder) → Keeps (uint16 order)
unfolding uint16
Keeps-uint16 order = Keeps-read_uint 2 (decode order) (omega arith) (omega arith)

Keeps-uint32 : (order : ByteOrder) → Keeps (uint32 order)
unfolding uint32
Keeps-uint32 order = Keeps-read_uint 4 (decode order) (omega arith) (omega arith)

Keeps-uint64 : (order : ByteOrder) → Keeps (uint64 order)
unfolding uint64
Keeps-uint64 order = Keeps-read_uint 8 (decode order) (omega arith) (omega arith)

Keeps-read_slice : (n : ℕ) → Keeps (read_slice n)
unfolding read_slice
Keeps-read_slice n = record {
  at = λ s h. elim (Bool-cases (leb len_limit n)) [
    | inl big ↦ rw big h
    | inr small ↦ rw small (elim (Bool-cases ((length s.buffer == 0) && ltb 0 n)) [
      | inl at_end ↦ rw at_end h
      | inr more ↦ rw more h
    ])
  ];
}

ruleset numbers = (Keeps-uint8, Keeps-uint16, Keeps-uint32, Keeps-uint64, Keeps-read_slice)

ruleset rules = (numbers, Keeps-pure, Keeps-raise, Keeps-if, Keeps-bind)

Keeps-at_least : (least mark rv : ℕ) → Keeps (at_least least mark rv)
Keeps-at_least least mark rv = search rules

Keeps-read_var_int_after : (mark : ℕ) → Keeps (read_var_int_after mark)
unfolding read_var_int_after
Keeps-read_var_int_after mark = search (rules, Keeps-at_least)

Keeps-read_var_int : Keeps read_var_int
unfolding read_var_int
Keeps-read_var_int = Keeps-bind uint8 read_var_int_after Keeps-uint8 Keeps-read_var_int_after

Keeps-read_var_slice : Keeps read_var_slice
unfolding read_var_slice
Keeps-read_var_slice = Keeps-bind read_var_int read_slice Keeps-read_var_int Keeps-read_slice

Keeps-read_vector_loop : (rounds : ℕ) (v : List (List ℕ)) → Keeps (read_vector_loop rounds v)
unfolding read_vector_loop
Keeps-read_vector_loop zero v = Keeps-pure v
Keeps-read_vector_loop (suc rounds) v =
    Keeps-bind read_var_slice (λ val. read_vector_loop rounds (v ++ (val ∷ [])))
      Keeps-read_var_slice (λ val. Keeps-read_vector_loop rounds (v ++ (val ∷ [])))

Keeps-read_vector : Keeps read_vector
unfolding read_vector
Keeps-read_vector = Keeps-bind read_var_int _ Keeps-read_var_int (λ n. Keeps-read_vector_loop n [])

Keeps-value_of : (version : ℕ) (b : List ℕ) → Keeps (value_of version b)
unfolding value_of
Keeps-value_of version b = search rules

Keeps-next_bytes_of : (version : ℕ) → Keeps (next_bytes_of version)
unfolding next_bytes_of
Keeps-next_bytes_of version = search rules

Keeps-read_elements_value : Keeps read_elements_value
unfolding read_elements_value read_uint8
Keeps-read_elements_value = search (rules, Keeps-value_of, Keeps-next_bytes_of)

Keeps-read_elements_asset : Keeps read_elements_asset
unfolding read_elements_asset read_uint8
Keeps-read_elements_asset = search rules

Keeps-read_elements_nonce : Keeps read_elements_nonce
unfolding read_elements_nonce read_uint8
Keeps-read_elements_nonce = search rules

-- From a well-formed free list (at most 1024 arrays, each of 8 bytes) the writers of a variable length
-- integer, of a slice with its length and of a vector, and the readers of these three and of the three
-- Elements fields, each leave a well-formed one, whether they succeed, end in an error or panic.
pub free_list_kept :
    (s : Io) (val : ℕ) (bs : List ℕ) (v : List (List ℕ))
    → IsFree s.free
    → IsFree (write_var_int val s).1.free
      × IsFree (write_var_slice bs s).1.free
      × IsFree (write_vector v s).1.free
      × IsFree (read_var_int s).1.free
      × IsFree (read_var_slice s).1.free
      × IsFree (read_vector s).1.free
      × IsFree (read_elements_value s).1.free
      × IsFree (read_elements_asset s).1.free
      × IsFree (read_elements_nonce s).1.free
free_list_kept s val bs v h = (
  (Keeps-Writes _ _ (write_var_int-Writes val)).at s h,
  (Keeps-Writes _ _ (write_var_slice-Writes bs)).at s h,
  (Keeps-Writes _ _ (write_vector-Writes v)).at s h,
  Keeps-read_var_int.at s h,
  Keeps-read_var_slice.at s h,
  Keeps-read_vector.at s h,
  Keeps-read_elements_value.at s h,
  Keeps-read_elements_asset.at s h,
  Keeps-read_elements_nonce.at s h,
)
