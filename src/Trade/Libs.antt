-- ===== src/Trade/Libs.antt =====
-- What trade.go uses of the libraries for partially signed transactions, and of the wallet service.
use banco.Prelude.{ℕ, String, Bool, Option, List}
use banco.Offer.Funding.{Taproot}
use banco.Trade.Types.{Utxo}

-- An output that is added: its script is empty for the fee.
pub record OutputArgs : Type 0 where
  pub asset : String
  pub amount : ℕ
  pub script : List ℕ

-- psetv2 and transaction. A method that changes the transaction returns the new one. Where the code
-- does not look at the error of a method, the method is a plain function.
pub record PsetLib (tap : Taproot) : Type 1 where
  pub Prevout : Type 0
  pub Pset : Type 0
  pub Tx : Type 0
  -- New(nil, nil, nil) and NewUpdater
  pub new : Option Pset
  pub new_updater : Pset → Option Pset
  -- AddInputs with one input, AddInWitnessUtxo, AddInSighashType, AddInTapLeafScript, AddOutputs
  pub add_input : String → ℕ → Pset → Pset
  pub add_in_witness_utxo : ℕ → Prevout → Pset → Pset
  pub add_in_sighash_type : ℕ → ℕ → Pset → Pset
  pub add_in_tap_leaf_script : ℕ → List ℕ → tap.ControlBlock → Pset → Option Pset
  pub add_outputs : List OutputArgs → Pset → Pset
  -- the constants SigHashDefault and SigHashAll of txscript
  pub sig_hash_default : ℕ
  pub sig_hash_all : ℕ
  -- ToBase64, NewPsetFromBase64, the number of inputs, Finalize, the field FinalScriptWitness
  pub to_base64 : Pset → Option String
  pub from_base64 : String → Option Pset
  pub input_count : Pset → ℕ
  pub finalize : ℕ → Pset → Option Pset
  pub set_final_script_witness : ℕ → List ℕ → Pset → Option Pset
  -- UnsignedTx, Extract, ToHex
  pub unsigned_tx : Pset → Option Tx
  pub extract : Pset → Option Tx
  pub tx_hex : Tx → Option String

-- The calls of the wallet service that a trade makes, on the state of the world outside.
pub record Wallet (Prevout : Type 0) : Type 1 where
  pub World : Type 0
  pub get_address : Bool → World → Option (String × List ℕ) × World
  pub select_utxos : String → ℕ → World → Option (List (Utxo Prevout) × ℕ) × World
  pub sign_pset : String → Bool → World → Option String × World
  pub broadcast_transaction : String → World → Option String × World
