-- ===== src/Offer/Funding.antt =====
-- CreateFundingOutput of offer.go over the taproot, key and payment libraries, which are parameters.
use banco.Prelude.{ℕ, String, List, Option, none, some}
use banco.Result.{Result, ◌>>=◌, or_error, bad_hex, key_refused, payment_failed}
use banco.Hex.{decode_string}

-- The networks of go-elements that the program names.
pub data Network : Type 0 where
  liquid testnet regtest : Network

pub record Taproot : Type 1 where
  pub Key : Type 0
  pub Tree : Type 0
  pub Payment : Type 0
  pub Proof : Type 0
  pub ControlBlock : Type 0
  -- secp256k1.ParsePubKey
  pub parse_pub_key : List ℕ → Option Key
  -- AssembleTaprootScriptTree on the base leaves of two scripts
  pub assemble : List ℕ → List ℕ → Tree
  -- payment.FromTaprootScriptTree
  pub from_tree : Key → Tree → Network → Option Payment
  -- Taproot.ScriptTree.LeafMerkleProofs and Taproot.XOnlyInternalKey of a payment
  pub leaf_proofs : Payment → List Proof
  pub x_only_internal_key : Payment → List ℕ
  pub proof_script : Proof → List ℕ
  pub to_control_block : Proof → Key → ControlBlock
  pub control_block_bytes : ControlBlock → Option (List ℕ)

abbrev unspendable_point : String
unspendable_point = "0250929b74c1a04954b78b4b6035e97a5e078a5a0f28ec96d547bfee9ace803ac0"

abbrev network_or_liquid : Option Network → Network
network_or_liquid none = liquid
network_or_liquid (some net) = net

unfoldable pub create_funding_output :
    (tap : Taproot) → List ℕ → List ℕ → Option Network → Result tap.Payment
create_funding_output tap fulfill_script refund_script net = do
  key_bytes ← or_error (decode_string unspendable_point) bad_hex
  key ← or_error (tap.parse_pub_key key_bytes) key_refused
  let tree = tap.assemble fulfill_script refund_script
  or_error (tap.from_tree key tree (network_or_liquid net)) payment_failed
