-- ===== src/Buffer/Rules.antt =====
-- What an action takes off the front of the buffer and what it appends, whatever is in the free
-- list; one rule for each way to build an action.
use banco.Prelude.{ℕ, ◌≤◌, ◌≡◌, refl, List, [], ◌++◌, length, All, append-nil, append_assoc}
use banco.Buffer.Io.{ok, err, Io, Result, continue, Action, ◌>>=◌, ◌>>◌, pure, write}
use banco.Buffer.FreeList.{binary_free_list_max_items}

-- Every array has the capacity that `Borrow` slices to, and the channel is not over its capacity.
pub record IsFree (free : List (List ℕ)) : Type 0 where
  pub capped : length free ≤ binary_free_list_max_items
  pub eight : All (λ b. length b ≡ 8) free

-- The action `m` takes the bytes `bs` and returns `a`.
pub record Reads {A : Type 0} (m : Action A) (bs : List ℕ) (a : A) : Type 0 where
  pub at :
      (free : List (List ℕ)) (rest : List ℕ)
      → IsFree free
      → (free' : List (List ℕ)) × IsFree free'
        × (m (record { free = free; buffer = bs ++ rest })
            ≡ (ok a, record { free = free'; buffer = rest }))

-- The action `m` appends the bytes `bs` and returns without an error.
pub record Writes (m : Action (Unit {0})) (bs : List ℕ) : Type 0 where
  pub at :
      (free : List (List ℕ)) (before : List ℕ)
      → IsFree free
      → (free' : List (List ℕ)) × IsFree free'
        × (m (record { free = free; buffer = before })
            ≡ (ok tt, record { free = free'; buffer = before ++ bs }))

module _ {A B : Type 0} (m : Action A) (f : A → Action B) where
  pub Reads-bind :
      (a : A) (b : B) (xs ys : List ℕ)
      → Reads m xs a
      → Reads (f a) ys b
      → Reads (m >>= f) (xs ++ ys) b
  Reads-bind a b xs ys hm hf = record {
    at = λ free rest h.
        let (free₁, h₁, e₁) = hm.at free (ys ++ rest) h in
        let (free₂, h₂, e₂) = hf.at free₁ rest h₁ in
        (free₂, h₂, rw (append_assoc xs ys rest, e₁) e₂);
  }

pub Reads-pure : {A : Type 0} (a : A) → Reads (pure a) [] a
Reads-pure a = record { at = λ free rest h. (free, h, refl) }

pub Writes-then :
    (m k : Action (Unit {0})) (xs ys : List ℕ)
    → Writes m xs
    → Writes k ys
    → Writes (m >> k) (xs ++ ys)
Writes-then m k xs ys hm hk = record {
  at = λ free before h.
      let (free₁, h₁, e₁) = hm.at free before h in
      let (free₂, h₂, e₂) = hk.at free₁ (before ++ xs) h₁ in
      (free₂, h₂, rw (e₁, ← append_assoc before xs ys) e₂);
}

pub Writes-pure : Writes (pure tt) []
Writes-pure = record { at = λ free before h. (free, h, rw (append-nil before)) }

pub Writes-write : (bs : List ℕ) → Writes (write bs) bs
Writes-write bs = record { at = λ free before h. (free, h, refl) }

-- Inversion of a bind that succeeds.
pub bind_ok :
    {A B : Type 0} (r : Result A) (f : A → Action B) (t s' : Io) {b : B}
    → continue r f t ≡ (ok b, s')
    → (a : A) × (r ≡ ok a) × (f a t ≡ (ok b, s'))
bind_ok (ok a) f t s' h = (a, refl, h)
bind_ok (err e) f t s' h = cc
