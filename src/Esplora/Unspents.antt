-- ===== src/Esplora/Unspents.antt =====
-- What FetchUnspents returns, against what the explorer served.
use banco.Prelude.{ℕ, String, List, [], ◌∷◌, Option, none, some, ◌≡◌, refl, sym, ap, ◌∙◌}
use banco.Prelude.{get_elem?, subst}
use banco.Prelude.Int.{ℤ, pos, negsuc}
use banco.Trade.Types.{Utxo}
use banco.Call.{>>=_ok, done}
use banco.Result.{ok, or_error, or_error_ok, or_panic_ok, ok-injective, fetch_failed}
use banco.Esplora.Client.{Esplora, Unspent, Http, fetch_body, output_at, prevout_url, fetch_prevout}
use banco.Esplora.Client.{add_prevouts, unspents_url, fetch_unspents, with_prevout}

module _ {Prevout World : Type 0} (http : Http Prevout World) (e : Esplora) where
  -- A coin of the answer and the coin that is returned for it: its previous output is the one with
  -- its index in a transaction that was served for its identifier.
  abbrev pub IsFetched : Unspent → Utxo Prevout → Type 0
  IsFetched u utxo =
      (utxo.txid ≡ u.txid)
      × (pos utxo.index ≡ u.index)
      × (utxo.value ≡ u.value)
      × (utxo.confirmed ≡ u.confirmed)
      × (w : World) × (body : String) × (outputs : List Prevout) × ((fetch_body http
            (prevout_url e u.txid) w).0
          ≡ ok body)
      × (http.new_tx_from_hex body ≡ some outputs)
      × (get_elem? outputs utxo.index ≡ some utxo.prevout)

  -- The same, for each of the coins in their order.
  abbrev pub AllFetched : List (Option Unspent) → List (Utxo Prevout) → Type 0
  AllFetched [] [] = Unit {0}
  AllFetched (some u ∷ us) (utxo ∷ utxos) = IsFetched u utxo × AllFetched us utxos
  AllFetched _ _ = ⊥

  output_at_ok :
      (index : ℤ) (outputs : List Prevout) (p : Prevout)
      → output_at http index outputs ≡ ok p
      → (i : ℕ) × (index ≡ pos i) × (get_elem? outputs i ≡ some p)
  output_at_ok (pos i) outputs p h = (i, refl, or_panic_ok (get_elem? outputs i) h)
  output_at_ok (negsuc i) outputs p h = absurd (cc h)

  fetched :
      (u : Unspent) (w w' : World) (p : Prevout)
      → fetch_prevout http e u.txid u.index w ≡ (ok p, w')
      → IsFetched u (with_prevout http u p)
  unfolding fetch_prevout
  fetched u w w' p h =
      let (body, served, h₁) = >>=_ok (fetch_body http (prevout_url e u.txid)) _ w w' p h in
      let w₁ = (fetch_body http (prevout_url e u.txid) w).1 in
      let (outputs, decoded, h₂) =
        >>=_ok (done (or_error (http.new_tx_from_hex body) fetch_failed)) _ w₁ w' p h₁ in
      let (i, index, found) = output_at_ok u.index outputs p (ap (λ q. q.0) h₂) in
      (
        refl,
        sym (index ∙ cc index),
        refl,
        refl,
        w,
        body,
        outputs,
        served,
        or_error_ok (http.new_tx_from_hex body) fetch_failed decoded,
        rw index found,
      )

  all_fetched :
      (us : List (Option Unspent)) (w w' : World) (utxos : List (Utxo Prevout))
      → add_prevouts http e us w ≡ (ok utxos, w')
      → AllFetched us utxos
  unfolding add_prevouts
  all_fetched [] w w' [] h = tt
  all_fetched [] w w' (utxo ∷ utxos) h = absurd (cc (ap (λ q. q.0) h))
  all_fetched (none ∷ us) w w' utxos h = absurd (cc (ap (λ q. q.0) h))
  all_fetched (some u ∷ us) w w' utxos h =
      let (p, one, h₁) = >>=_ok (fetch_prevout http e u.txid u.index) _ w w' utxos h in
      let w₁ = (fetch_prevout http e u.txid u.index w).1 in
      let (rest, others, h₂) = >>=_ok (add_prevouts http e us) _ w₁ w' utxos h₁ in
      let whole : with_prevout http u p ∷ rest ≡ utxos = ok-injective (ap (λ q. q.0) h₂) in
      subst (AllFetched (some u ∷ us)) whole (
        fetched u w w₁ p (ap (λ r. (r, w₁)) one),
        all_fetched us w₁ (add_prevouts http e us w₁).1 rest
            (ap (λ r. (r, (add_prevouts http e us w₁).1)) others),
      )

  -- The coins that FetchUnspents returns are those of the explorer's answer, in its order and none
  -- left out; each has the previous output with its index in the transaction that was served for its
  -- identifier. No index is negative then, and the answer has no null.
  pub fetch_unspents-AllFetched :
      (address : String) (w w' : World) (utxos : List (Utxo Prevout))
      → fetch_unspents http e address w ≡ (ok utxos, w')
      → (body : String) × (us : List (Option Unspent)) × ((fetch_body http
            (unspents_url e address)
            w).0
          ≡ ok body)
        × (http.parse_unspents body ≡ some us)
        × AllFetched us utxos
  unfolding fetch_unspents
  fetch_unspents-AllFetched address w w' utxos h =
      let (body, served, h₁) = >>=_ok (fetch_body http (unspents_url e address)) _ w w' utxos h in
      let w₁ = (fetch_body http (unspents_url e address) w).1 in
      let (us, parsed, h₂) =
        >>=_ok (done (or_error (http.parse_unspents body) fetch_failed)) _ w₁ w' utxos h₁ in
      (
        body,
        us,
        served,
        or_error_ok (http.parse_unspents body) fetch_failed parsed,
        all_fetched us w₁ w' utxos h₂,
      )
