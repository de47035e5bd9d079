-- ===== src/Trade/Model.antt =====
-- A transaction library and a wallet service that meet the laws of Trade/Laws and Trade/Sends: a
-- transaction is the list of its outputs, the list of its inputs and the witness of the first.
use banco.Prelude.{ℕ, ◌+◌, ◌^◌, String, List, [], ◌∷◌, ◌++◌, ◌≡◌, refl, sym, ap, true, some}
use banco.Prelude.{length, if◌then◌else◌}
use banco.Offer.Funding.{Taproot}
use banco.Trade.Types.{Utxo}
use banco.Trade.Libs.{OutputArgs, PsetLib, Wallet}
use banco.Trade.Laws.{PsetLaws}
use banco.Trade.Sends.{WalletLaws}

-- A payment is the list of its scripts.
abbrev pub simple_taproot : Taproot
simple_taproot = record {
  Key = List ℕ;
  Tree = List ℕ × List ℕ;
  Payment = List (List ℕ);
  Proof = List ℕ;
  ControlBlock = List ℕ;
  parse_pub_key = λ key. some key;
  assemble = λ fulfill refund. (fulfill, refund);
  from_tree = λ key tree net. some (tree.1 ∷ tree.0 ∷ []);
  leaf_proofs = λ payment. payment;
  x_only_internal_key = λ payment. 7 ∷ [];
  proof_script = λ proof. proof;
  to_control_block = λ proof key. key;
  control_block_bytes = λ block. some block;
}

pub record Draft : Type 0 where
  pub outputs : List OutputArgs
  pub inputs : List (String × ℕ)
  pub witness : List ℕ

abbrev empty : Draft
empty = record { outputs = []; inputs = []; witness = [] }

abbrev pub simple_lib : PsetLib simple_taproot
simple_lib = record {
  Prevout = Unit {0};
  Pset = Draft;
  Tx = Draft;
  new = some empty;
  new_updater = λ p. some p;
  add_input = λ txid i p. record p { inputs = p.inputs ++ ((txid, i) ∷ []) };
  add_in_witness_utxo = λ i o p. p;
  add_in_sighash_type = λ i h p. p;
  add_in_tap_leaf_script = λ i s c p. some p;
  add_outputs = λ os p. record p { outputs = p.outputs ++ os };
  sig_hash_default = 0;
  sig_hash_all = 1;
  to_base64 = λ p. some "draft";
  from_base64 = λ text. some empty;
  input_count = λ p. length p.inputs;
  finalize = λ i p. some p;
  set_final_script_witness = λ i w p. some (record p { witness = w });
  unsigned_tx = λ p. some p;
  extract = λ p. some p;
  tx_hex = λ p. some "00";
}

pub some_eq : {A : Type 0} {x y : A} → some x ≡ some y → x ≡ y
some_eq e = cc

abbrev pub simple_laws : PsetLaws simple_taproot simple_lib
simple_laws = record {
  outputs = λ p. p.outputs;
  inputs = λ p. p.inputs;
  Accepted = λ o. Unit {0};
  outputs-new = λ p e. ap (λ q. q.outputs) (sym (some_eq e));
  inputs-new = λ p e. ap (λ q. q.inputs) (sym (some_eq e));
  outputs-new_updater = λ p q e. ap (λ r. r.outputs) (sym (some_eq e));
  inputs-new_updater = λ p q e. ap (λ r. r.inputs) (sym (some_eq e));
  outputs-add_input = λ txid i p. refl;
  inputs-add_input = λ txid i p. refl;
  outputs-add_in_witness_utxo = λ i o p. refl;
  inputs-add_in_witness_utxo = λ i o p. refl;
  outputs-add_in_sighash_type = λ i h p. refl;
  inputs-add_in_sighash_type = λ i h p. refl;
  outputs-add_in_tap_leaf_script = λ i s c p q e. ap (λ r. r.outputs) (sym (some_eq e));
  inputs-add_in_tap_leaf_script = λ i s c p q e. ap (λ r. r.inputs) (sym (some_eq e));
  outputs-add_outputs = λ os p h. refl;
  inputs-add_outputs = λ os p. refl;
}

abbrev pub coin : String → ℕ → Utxo (Unit {0})
coin txid value = record {
  txid = txid;
  index = 2 ^ 32 + 1;
  value = value;
  prevout = tt;
  confirmed = true;
}

-- The world is the log of what was broadcast.
abbrev pub simple_wallet : Wallet (Unit {0})
simple_wallet = record {
  World = List String;
  get_address = λ change w. (some ("address", if change then 0x52 ∷ [] else 0x51 ∷ []), w);
  select_utxos = λ asset amount w. (some (coin "selected" (amount + 700) ∷ [], 700), w);
  sign_pset = λ text extract_tx w. (some text, w);
  broadcast_transaction = λ hex w. (some "txid", w ++ (hex ∷ []));
}

abbrev pub simple_wallet_laws : WalletLaws simple_wallet
simple_wallet_laws = record {
  sent = λ w. w;
  sent-get_address = λ change w. refl;
  sent-select_utxos = λ asset amount w. refl;
  sent-sign_pset = λ text extract_tx w. refl;
  sent-broadcast_transaction = λ hex w. refl;
}
