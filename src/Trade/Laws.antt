-- ===== src/Trade/Laws.antt =====
-- What the outputs and the inputs of a partially signed transaction are after each method: documented
-- behaviour of psetv2, for outputs that it accepts.
use banco.Prelude.{ℕ, String, some, ◌≡◌, List, [], ◌∷◌, ◌++◌, All}
use banco.Offer.Funding.{Taproot}
use banco.Trade.Libs.{PsetLib, OutputArgs}

pub record PsetLaws (tap : Taproot) (lib : PsetLib tap) : Type 1 where
  pub outputs : lib.Pset → List OutputArgs
  -- the outpoints that are spent
  pub inputs : lib.Pset → List (String × ℕ)
  pub Accepted : OutputArgs → Type 0
  pub outputs-new : (p : lib.Pset) → lib.new ≡ some p → outputs p ≡ []
  pub inputs-new : (p : lib.Pset) → lib.new ≡ some p → inputs p ≡ []
  pub outputs-new_updater : (p q : lib.Pset) → lib.new_updater p ≡ some q → outputs q ≡ outputs p
  pub inputs-new_updater : (p q : lib.Pset) → lib.new_updater p ≡ some q → inputs q ≡ inputs p
  pub outputs-add_input :
      (txid : String) (i : ℕ) (p : lib.Pset) → outputs (lib.add_input txid i p) ≡ outputs p
  pub inputs-add_input :
      (txid : String) (i : ℕ) (p : lib.Pset)
      → inputs (lib.add_input txid i p) ≡ inputs p ++ ((txid, i) ∷ [])
  pub outputs-add_in_witness_utxo :
      (i : ℕ) (o : lib.Prevout) (p : lib.Pset) → outputs (lib.add_in_witness_utxo i o p) ≡ outputs p
  pub inputs-add_in_witness_utxo :
      (i : ℕ) (o : lib.Prevout) (p : lib.Pset) → inputs (lib.add_in_witness_utxo i o p) ≡ inputs p
  pub outputs-add_in_sighash_type :
      (i h : ℕ) (p : lib.Pset) → outputs (lib.add_in_sighash_type i h p) ≡ outputs p
  pub inputs-add_in_sighash_type :
      (i h : ℕ) (p : lib.Pset) → inputs (lib.add_in_sighash_type i h p) ≡ inputs p
  pub outputs-add_in_tap_leaf_script :
      (i : ℕ) (s : List ℕ) (c : tap.ControlBlock) (p q : lib.Pset)
      → lib.add_in_tap_leaf_script i s c p ≡ some q
      → outputs q ≡ outputs p
  pub inputs-add_in_tap_leaf_script :
      (i : ℕ) (s : List ℕ) (c : tap.ControlBlock) (p q : lib.Pset)
      → lib.add_in_tap_leaf_script i s c p ≡ some q
      → inputs q ≡ inputs p
  pub outputs-add_outputs :
      (os : List OutputArgs) (p : lib.Pset)
      → All Accepted os
      → outputs (lib.add_outputs os p) ≡ outputs p ++ os
  pub inputs-add_outputs :
      (os : List OutputArgs) (p : lib.Pset) → inputs (lib.add_outputs os p) ≡ inputs p
