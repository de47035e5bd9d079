-- ===== src/Esplora/Panics.antt =====
-- When FetchPrevout panics.
use banco.Prelude.{
  ℕ, zero, suc, String, List, [], ◌∷◌, Option, none, some, ◌≡◌, ◌↔◌, refl, subst, ◌<◌,
}
use banco.Prelude.{length, get_elem?, arith}
use banco.Prelude.Int.{ℤ, pos, negsuc}
use banco.Call.{continue, ◌>>=◌, ask, done}
use banco.Result.{Error, Result, ok, err, panic, or_error, or_panic, fetch_failed}
use banco.Esplora.Client.{Esplora, Http, fetch_body, output_at, prevout_url, fetch_prevout}

-- The index is that of an output.
abbrev pub InRange {ℓ} : {A : Type ℓ} → ℤ → List A → Type 0
InRange (pos i) outputs = i < length outputs
InRange (negsuc i) outputs = ⊥

get_elem?-in_range {ℓ} :
    {A : Type ℓ} (xs : List A) (i : ℕ) → (or_panic (get_elem? xs i) ≡ panic) ↔ ¬ (i < length xs)
get_elem?-in_range [] i = (λ h l. omega arith, λ h. refl)
get_elem?-in_range (x ∷ xs) zero = (λ h l. cc h, λ h. absurd (h (omega arith)))
get_elem?-in_range (x ∷ xs) (suc i) =
    let (to, from) = get_elem?-in_range xs i in
    (λ h l. to h (omega arith), λ h. from (λ l. h (omega arith)))

module _ {Prevout World : Type 0} (http : Http Prevout World) where
  output_at-InRange :
      (index : ℤ) (outputs : List Prevout)
      → (output_at http index outputs ≡ panic) ↔ ¬ (InRange index outputs)
  output_at-InRange (pos i) outputs = get_elem?-in_range outputs i
  output_at-InRange (negsuc i) outputs = (λ h l. l, λ h. refl)

  -- A served transaction without an output of that index.
  abbrev pub LacksOutput : ℤ → Result String → Type 0
  LacksOutput index served =
      (body : String) × (outputs : List Prevout) × (served ≡ ok body)
      × (http.new_tx_from_hex body ≡ some outputs)
      × ¬ (InRange index outputs)

  no_panic : {A : Type 0} (o : Option A) (e : Error) → ¬ (or_error o e ≡ panic)
  no_panic none e h = cc h
  no_panic (some a) e h = cc h

  read_ok :
      (o : Option (http.Response)) (w : World)
      → ¬ (
          (continue (or_error o fetch_failed) (λ r. ask (http.read_all r) fetch_failed) w).0
          ≡ panic)
  read_ok none w h = cc h
  read_ok (some r) w h = no_panic (http.read_all r w).0 fetch_failed h

  body_ok : (url : String) (w : World) → ¬ ((fetch_body http url w).0 ≡ panic)
  unfolding fetch_body
  body_ok url w h = read_ok (http.get url w).0 (http.get url w).1 h

  decoded :
      (index : ℤ) (body : String) (o : Option (List Prevout)) (w : World)
      → http.new_tx_from_hex body ≡ o
      → ((continue (or_error o fetch_failed) (λ outputs. done (output_at http index outputs)) w).0
          ≡ panic)
        ↔ LacksOutput index (ok body)
  decoded index body none w e = (λ h. absurd (cc h), λ (b, os, s, t, n). absurd (cc (e, s, t)))
  decoded index body (some outputs) w e = (
    λ h. (body, outputs, refl, e, (output_at-InRange index outputs).0 h),
    λ (b, os, s, t, n).
        (output_at-InRange index outputs).1 (subst (λ xs. ¬ (InRange index xs)) (cc (e, s, t)) n),
  )

  served :
      (index : ℤ) (r : Result String) (w : World)
      → ¬ (r ≡ panic)
      → ((continue r
            (λ body. done (or_error (http.new_tx_from_hex body) fetch_failed) >>= λ outputs.
              done (output_at http index outputs))
            w).0
          ≡ panic)
        ↔ LacksOutput index r
  served index (ok body) w n = decoded index body (http.new_tx_from_hex body) w refl
  served index (err x) w n = (λ h. absurd (cc h), λ (b, os, s, t, m). absurd (cc s))
  served index panic w n = absurd (n refl)

  -- FetchPrevout panics exactly if the explorer serves a transaction that decodes, and the index is
  -- negative or not less than the number of its outputs.
  pub fetch_prevout_panics :
      (e : Esplora) (tx_hash : String) (index : ℤ) (w : World)
      → ((fetch_prevout http e tx_hash index w).0 ≡ panic)
        ↔ LacksOutput index (fetch_body http (prevout_url e tx_hash) w).0
  unfolding fetch_prevout
  fetch_prevout_panics e tx_hash index w =
      let run = fetch_body http (prevout_url e tx_hash) w in
      served index run.0 run.1 (body_ok (prevout_url e tx_hash) w)
