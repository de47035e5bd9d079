-- ===== src/Trade/Outcome.antt =====
-- The outcomes of ExecuteTrade.
use banco.Prelude.{String, [], ◌∷◌, ◌++◌, ◌≡◌, refl, sym, ap, ◌∙◌, ◌⊎◌, inl, inr}
use banco.Prelude.{Option, none, some, str_eq, eq_iff, Bool-cases, false}
use banco.Offer.Funding.{Taproot}
use banco.Buffer.Rules.{IsFree}
use banco.Trade.Types.{TradeStatus, pending, funded, executed, cancelled, Trade}
use banco.Trade.Libs.{PsetLib, Wallet}
use banco.Trade.Step.{Env}
use banco.Trade.Execute.{fulfil, execute_trade, execute_guarded, settled}
use banco.Trade.Execute.{without_value}
use banco.Trade.Fulfils.{Fulfils}
use banco.Trade.Broadcast.{Sends-fulfil}
use banco.Trade.Sends.{WalletLaws}
use banco.Result.{Result, ok, err, panic, or_error, trade_over, broadcast_failed}

module _ (tap : Taproot) (lib : PsetLib tap) (wallet : Wallet (lib.Prevout))
    (laws : WalletLaws wallet) where
  open lib use {Pset, Tx, Prevout}
  open wallet use {World}

  -- What is left of a run by the answer to its broadcast: an identifier makes the trade executed.
  abbrev pub Reported :
      Trade Prevout tap.Payment
      → Option String
      → Result (Unit {0})
      → Trade Prevout tap.Payment
      → Type 0
  Reported t none r t' = ¬ (r ≡ ok tt) × (t' ≡ t)
  Reported t (some txid) r t' =
      (r ≡ ok tt) × (¬ (txid ≡ "") → t' ≡ record t { status = executed }) × (txid ≡ "" → t' ≡ t)

  -- Of a run: nothing is broadcast, there is an error and the trade is as before; or one
  -- transaction is broadcast, which fulfils a funded trade, and the answer is reported.
  abbrev pub Outcome :
      Trade Prevout tap.Payment
      → Env World
      → (Result (Unit {0}) × Trade Prevout tap.Payment) × Env World
      → Type 0
  Outcome t e ((r, t'), e') =
      ((laws.sent e'.world ≡ laws.sent e.world) × ¬ (r ≡ ok tt) × (t' ≡ t))
      ⊎ ((hex : String) × (answer : Option String) × (laws.sent e'.world
            ≡ laws.sent e.world ++ (hex ∷ []))
          × Fulfils tap lib wallet t e.world hex answer e'.world
          × (t.status ≡ funded)
          × Reported t answer r t')

  failed :
      (t : Trade Prevout tap.Payment) (r : Result String)
      → ((a : String) → ¬ (r ≡ ok a))
      → ¬ (without_value tap lib wallet r ≡ ok tt) × (settled tap lib wallet t r ≡ t)
  failed t (ok a) h = absurd (h a refl)
  failed t (err e) h = (λ i. cc i, refl)
  failed t panic h = (λ i. cc i, refl)

  not_empty : (text : String) → ¬ (text ≡ "") → str_eq text "" ≡ false
  not_empty text h = elim (Bool-cases (str_eq text "")) [
    | inl same ↦ absurd (h ((eq_iff text "").0 same))
    | inr other ↦ other
  ]

  reported :
      (t : Trade Prevout tap.Payment) (r : Result String) (answer : Option String)
      → r ≡ or_error answer broadcast_failed
      → Reported t answer (without_value tap lib wallet r) (settled tap lib wallet t r)
  reported t r none e = rw e (λ i. cc i, refl)
  reported t r (some txid) e =
      rw e (refl, λ given. rw (not_empty txid given) refl, λ missing. rw missing refl)

  guarded :
      (status : TradeStatus) (t : Trade Prevout tap.Payment) (e : Env World)
      → t.status ≡ status
      → IsFree e.free
      → Outcome t e (execute_guarded tap lib wallet status t e)
  guarded pending t e s h = inl (refl, λ i. cc i, refl)
  guarded executed t e s h = inl (refl, λ i. cc i, refl)
  guarded cancelled t e s h = inl (refl, λ i. cc i, refl)
  guarded funded t e s h = elim (Sends-fulfil tap lib wallet laws t e h) [
    | inl silent ↦
        let (fails, kept) = failed t (fulfil tap lib wallet t e).0 silent.fails in
        inl (silent.same, fails, kept)
    | inr out ↦
        let (answer, result, good) = out.good in
        inr (
          out.hex,
          answer,
          out.one,
          good,
          s,
          reported t (fulfil tap lib wallet t e).0 answer result,
        )
  ]

  -- With a well-formed free list, a run of ExecuteTrade either broadcasts nothing, fails and leaves
  -- the trade as it was, or it broadcasts one transaction; this happens to a funded trade only. The
  -- transaction comes from the run's own calls of the wallet service, from the world before the run
  -- to the world after it: three addresses, then coins for the amount of the order's output and for
  -- the fee, then the signature of the text of the transaction prepared for these coins, then the
  -- broadcast. In the signed transaction each input but the first is finalized, and the first has the
  -- fulfill script and the control block of its leaf as its witness. Where the broadcast answers an
  -- identifier there is no error, and the trade is executed unless the identifier is empty; where it
  -- fails there is an error and the trade is as it was.
  pub execute_trade-Outcome :
      (t : Trade Prevout tap.Payment) (e : Env World)
      → IsFree e.free
      → Outcome t e (execute_trade tap lib wallet t e)
  unfolding execute_trade
  execute_trade-Outcome t e h = guarded t.status t e refl h

  -- One transaction that fulfils a funded trade was broadcast, and the answer was an identifier.
  abbrev pub WasBroadcast : Trade Prevout tap.Payment → Env World → Env World → Type 0
  WasBroadcast t e e' =
      (hex : String) × (txid : String) × ¬ (txid ≡ "")
      × (t.status ≡ funded)
      × (laws.sent e'.world ≡ laws.sent e.world ++ (hex ∷ []))
      × Fulfils tap lib wallet t e.world hex (some txid) e'.world

  was_broadcast :
      (t : Trade Prevout tap.Payment) (e : Env World)
      (run : (Result (Unit {0}) × Trade Prevout tap.Payment) × Env World)
      → Outcome t e run
      → run.0.1.status ≡ executed
      → (t.status ≡ executed) ⊎ WasBroadcast t e run.1
  was_broadcast t e run (inl (same, fails, kept)) over = inl (sym (ap (λ u. u.status) kept) ∙ over)
  was_broadcast t e run (inr (hex, none, one, good, s, told)) over =
      let (fails, kept) = told in inl (sym (ap (λ u. u.status) kept) ∙ over)
  was_broadcast t e run (inr (hex, some txid, one, good, s, told)) over =
      let (fine, given, missing) = told in
      elim (Bool-cases (str_eq txid "")) [
        | inl same ↦ inl (sym (ap (λ u. u.status) (missing ((eq_iff txid "").0 same))) ∙ over)
        | inr other ↦ inr (hex, txid, (λ same. cc (other, (eq_iff txid "").1 same)), s, one, good)
      ]

  over_again :
      (t : Trade Prevout tap.Payment) (e : Env World)
      → t.status ≡ executed
      → execute_trade tap lib wallet t e ≡ ((err trade_over, t), e)
  unfolding execute_trade
  over_again t e over = ap (λ s. execute_guarded tap lib wallet s t e) over

  -- With a well-formed free list, a trade that ExecuteTrade leaves executed was executed before, or
  -- it was funded and one transaction that fulfils it was broadcast, prepared for the coins that the
  -- wallet service selected in this run and with the signature that the service gave to its text, and
  -- the broadcast answered an identifier; in both cases another run broadcasts nothing, fails and
  -- leaves it executed.
  pub executed_once :
      (t : Trade Prevout tap.Payment) (e e₂ : Env World)
      → IsFree e.free
      → (execute_trade tap lib wallet t e).0.1.status ≡ executed
      → let ((r, t'), e') = execute_trade tap lib wallet t e in
        ((t.status ≡ executed) ⊎ WasBroadcast t e e')
        × (execute_trade tap lib wallet t' e₂ ≡ ((err trade_over, t'), e₂))
  executed_once t e e₂ h over = (
    was_broadcast t e (execute_trade tap lib wallet t e) (execute_trade-Outcome t e h) over,
    over_again _ e₂ over,
  )
