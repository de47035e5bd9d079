-- ===== src/Result.antt =====
-- The outcome of a function of package main: Go's pair of a value and an error, or a panic.
use banco.Prelude.{ℕ, ◌≡◌, refl, List, ltb, if◌then◌else◌, length, drop, Option, none, some}

-- What an error says; the text around it is left out.
pub data Error : Type 0 where
  -- offer.go
  unknown_script_version script_build_failed key_refused payment_failed : Error
  -- order.go
  bad_hex unknown_currency bad_asset bad_number rate_out_of_range address_failed : Error
  -- trade.go
  not_funded pset_failed leaf_refused : Error
  trade_pending trade_over prepare_failed encode_failed decode_failed : Error
  finalize_failed leaf_not_found serialize_failed extract_failed : Error
  -- the wallet service, by its call
  address_unavailable selection_failed signing_failed broadcast_failed : Error
  -- ocean.go
  rpc_failed asset_not_found wallet_not_ready : Error
  -- app.go and esplora.go
  unknown_network history_failed : Error
  price_missing : Error
  fetch_failed trade_not_funded : Error
  -- db.go
  db_failed no_rows bad_timestamp : Error

pub data Result {ℓ} (A : Type ℓ) : Type ℓ where
  -- a run-time panic, or `log.Fatalf`: the process ends
  panic : Result A
  err : Error → Result A
  ok : A → Result A

-- `if err != nil { return ..., err }` between a call and what uses its value.
infixl 5 ◌>>=◌
abbrev pub ◌>>=◌ {ℓ κ} :
    {Value : Type ℓ} {Next : Type κ} → Result Value → (Value → Result Next) → Result Next
panic >>= next = panic
err e >>= next = err e
ok value >>= next = next value

-- A call of a library that returns an error, which the caller wraps.
abbrev pub or_error {ℓ} : {A : Type ℓ} → Option A → Error → Result A
or_error none e = err e
or_error (some a) e = ok a

-- A value that Go computes with a panic where there is none.
abbrev pub or_panic {ℓ} : {A : Type ℓ} → Option A → Result A
or_panic none = panic
or_panic (some a) = ok a

-- `s[n:]`
abbrev pub slice_from : ℕ → List ℕ → Result (List ℕ)
slice_from n bs = if ltb (length bs) n then panic else ok (drop n bs)

-- Inversion of a bind that succeeds.
pub >>=_ok {ℓ κ} :
    {Value : Type ℓ} {Next : Type κ} (call : Result Value) (next : Value → Result Next)
    {last : Next}
    → (call >>= next) ≡ ok last
    → (value : Value) × (call ≡ ok value) × (next value ≡ ok last)
>>=_ok panic next h = cc
>>=_ok (err e) next h = cc
>>=_ok (ok value) next h = (value, refl, h)

pub or_error_ok {ℓ} :
    {A : Type ℓ} (o : Option A) (e : Error) {a : A} → or_error o e ≡ ok a → o ≡ some a
or_error_ok none e h = cc
or_error_ok (some x) e h = cc

pub ok-injective {ℓ} : {A : Type ℓ} {a b : A} → ok a ≡ ok b → a ≡ b
ok-injective h = cc

pub or_panic_ok {ℓ} : {A : Type ℓ} (o : Option A) {a : A} → or_panic o ≡ ok a → o ≡ some a
or_panic_ok none h = cc
or_panic_ok (some x) h = cc
