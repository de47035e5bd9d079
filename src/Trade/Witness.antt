-- ===== src/Trade/Witness.antt =====
-- The parts of ExecuteTrade that make the witnesses of the transaction.
use banco.Prelude.{
  ℕ, zero, suc, List, [], ◌∷◌, Option, none, some, if◌then◌else◌, bytes_eq, bytes_eq_sound, ◌≡◌,
  sym, ap, ◌∙◌, inl, inr, Bool-cases, ◌++◌,
}
use banco.Offer.Funding.{Taproot}
use banco.Trade.Types.{Trade}
use banco.Trade.Libs.{PsetLib}
use banco.Result.{
  Result, ok, ◌>>=◌, or_error, or_panic, >>=_ok, or_error_ok, or_panic_ok, ok-injective,
}
use banco.Result.{finalize_failed, leaf_not_found, serialize_failed}

module _ (tap : Taproot) where
  -- The first leaf proof whose script is the fulfill script.
  unfoldable pub find_leaf : List ℕ → List tap.Proof → Option tap.Proof
  find_leaf fulfill_script [] = none
  find_leaf fulfill_script (proof ∷ rest) =
      if bytes_eq (tap.proof_script proof) fulfill_script
      then some proof
      else find_leaf fulfill_script rest

  -- The script and the control block of the funding output's leaf.
  unfoldable pub fulfil_leaf :
      {Prevout : Type 0} → Trade Prevout tap.Payment → Result (List (List ℕ))
  fulfil_leaf t = do
    payment ← or_panic t.funding_payment
    proof ← or_error (find_leaf t.order.fulfill_script (tap.leaf_proofs payment)) leaf_not_found
    key ← or_panic (tap.parse_pub_key (0x02 ∷ tap.x_only_internal_key payment))
    control ← or_error (tap.control_block_bytes (tap.to_control_block proof key)) serialize_failed
    ok (tap.proof_script proof ∷ control ∷ [])

  find_leaf-script :
      (fulfill_script : List ℕ) (proofs : List tap.Proof) (proof : tap.Proof)
      → find_leaf fulfill_script proofs ≡ some proof
      → (before after : List tap.Proof) × (proofs ≡ before ++ (proof ∷ after))
        × (tap.proof_script proof ≡ fulfill_script)
  unfolding find_leaf
  find_leaf-script fulfill_script [] proof e = cc
  find_leaf-script fulfill_script (x ∷ rest) proof e =
      elim (Bool-cases (bytes_eq (tap.proof_script x) fulfill_script)) [
        | inl same ↦
            let found : some x ≡ some proof = rw same at e in
            let script = bytes_eq_sound (tap.proof_script x) fulfill_script same in
            ([], rest, cc found, cc (found, script))
        | inr other ↦
            let (before, after, place, same) =
              find_leaf-script fulfill_script rest proof (rw other at e) in
            (x ∷ before, after, ap (λ l. x ∷ l) place, same)
      ]

  -- A control block of the leaf of the funding output whose script is the fulfill script, for the
  -- internal key of that output.
  pub record IsLeaf {Prevout : Type 0} (t : Trade Prevout tap.Payment) (control : List ℕ)
      : Type 0 where
    pub payment : tap.Payment
    pub payment_eq : t.funding_payment ≡ some payment
    pub before : List tap.Proof
    pub proof : tap.Proof
    pub after : List tap.Proof
    pub proofs_eq : tap.leaf_proofs payment ≡ before ++ (proof ∷ after)
    pub script_eq : tap.proof_script proof ≡ t.order.fulfill_script
    pub key : tap.Key
    pub key_eq : tap.parse_pub_key (0x02 ∷ tap.x_only_internal_key payment) ≡ some key
    pub control_eq : tap.control_block_bytes (tap.to_control_block proof key) ≡ some control

  pub fulfil_leaf-shape :
      {Prevout : Type 0} (t : Trade Prevout tap.Payment) (w : List (List ℕ))
      → fulfil_leaf t ≡ ok w
      → (control : List ℕ) × (w ≡ t.order.fulfill_script ∷ control ∷ []) × IsLeaf t control
  unfolding fulfil_leaf
  fulfil_leaf-shape t w e =
      let (payment, e₁, f₁) = >>=_ok (or_panic t.funding_payment) _ e in
      let (proof, e₂, f₂) =
        >>=_ok
          (or_error (find_leaf t.order.fulfill_script (tap.leaf_proofs payment)) leaf_not_found) _
          f₁ in
      let (key, e₃, f₃) =
        >>=_ok (or_panic (tap.parse_pub_key (0x02 ∷ tap.x_only_internal_key payment))) _ f₂ in
      let (control, e₄, f₄) =
        >>=_ok
          (or_error (tap.control_block_bytes (tap.to_control_block proof key)) serialize_failed) _
          f₃ in
      let (before, after, place, same) =
        find_leaf-script t.order.fulfill_script (tap.leaf_proofs payment) proof
          (or_error_ok _ leaf_not_found e₂) in
      (
        control,
        sym (ok-injective f₄) ∙ ap (λ script. script ∷ control ∷ []) same,
        record {
          payment = payment;
          payment_eq = or_panic_ok _ e₁;
          before = before;
          proof = proof;
          after = after;
          proofs_eq = place;
          script_eq = same;
          key = key;
          key_eq = or_panic_ok _ e₃;
          control_eq = or_error_ok _ serialize_failed e₄;
        },
      )

module _ (tap : Taproot) (lib : PsetLib tap) where
  -- The loop that finalizes the inputs after the first, with the number of them that are left.
  unfoldable pub finalize_from : ℕ → ℕ → lib.Pset → Result lib.Pset
  finalize_from zero i p = ok p
  finalize_from (suc left) i p =
      or_error (lib.finalize i p) finalize_failed >>= finalize_from left (suc i)

  -- The inputs from `i` on, as many as are left, are finalized one after the other.
  unfoldable pub AllFinalized : ℕ → ℕ → lib.Pset → lib.Pset → Type 0
  AllFinalized zero i p q = p ≡ q
  AllFinalized (suc left) i p q =
      (p₁ : lib.Pset) × (lib.finalize i p ≡ some p₁) × AllFinalized left (suc i) p₁ q

  pub finalize_from-AllFinalized :
      (left i : ℕ) (p q : lib.Pset) → finalize_from left i p ≡ ok q → AllFinalized left i p q
  unfolding finalize_from AllFinalized
  finalize_from-AllFinalized zero i p q e = ok-injective e
  finalize_from-AllFinalized (suc left) i p q e =
      let (p₁, e₁, f₁) = >>=_ok (or_error (lib.finalize i p) finalize_failed) _ e in
      (p₁, or_error_ok _ finalize_failed e₁, finalize_from-AllFinalized left (suc i) p₁ q f₁)
