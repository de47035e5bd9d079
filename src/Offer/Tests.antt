-- ===== src/Offer/Tests.antt =====
-- Contracts compiled with the builder of Offer/Model and run on its engine.
use banco.Prelude.{ℕ, List, [], ◌∷◌, ◌≡◌, refl, ◌↔◌, some, drop, replicate}
use banco.Buffer.ByteOrder.{le_encode}
use banco.ScriptNum.{script_num_bytes, le_loop, sign_last}
use banco.Result.{ok, err, panic, unknown_script_version}
use banco.Offer.Engine.{Output, true_bytes}
use banco.Offer.Scripts.{fulfill_script, refund_script, compile_fulfill_clause}
use banco.Offer.Scripts.{compile_refund_clause}
use banco.Offer.Covenant.{Pays}
use banco.Offer.Contract.{version_bytes, fulfill_script_covenant, refund_script_covenant}
use banco.Offer.Model.{simple_builder, simple_engine, run}

-- OP_1 and a program of two bytes; an asset of two bytes behind its prefix.
abbrev recipient : List ℕ
recipient = 0x51 ∷ 0x02 ∷ 0xaa ∷ 0xbb ∷ []

abbrev asset : List ℕ
asset = 0x01 ∷ 0x14 ∷ 0x4c ∷ []

abbrev compiled : List ℕ
compiled =
    3 ∷ 0x1a2 ∷ 0x203 ∷ 0x110 ∷ 0x37755 ∷ 0x110 ∷ 3 ∷ 0x19c ∷ 0xea ∷ 0x29829 ∷ 0x110 ∷ 3 ∷ 0x19e
    ∷ 0xea ∷ 0x2_0000_0000_0000_0191 ∷ 0x10e ∷ []

fulfill_compiled : fulfill_script simple_builder recipient 200 asset ≡ ok compiled
unfolding fulfill_script compile_fulfill_clause script_num_bytes le_loop sign_last le_encode
fulfill_compiled = refl

refund_compiled : refund_script simple_builder recipient 200 asset ≡ ok compiled
unfolding refund_script compile_refund_clause script_num_bytes le_loop sign_last le_encode
refund_compiled = refl

no_script : fulfill_script simple_builder [] 200 asset ≡ panic
unfolding fulfill_script
no_script = refl

strange_version : fulfill_script simple_builder (0x52 ∷ []) 200 asset ≡ err unknown_script_version
unfolding fulfill_script
strange_version = refl

abbrev paying : Output
paying = record {
  version = 0x01 ∷ [];
  program = 0xaa ∷ 0xbb ∷ [];
  asset_prefix = 0x01 ∷ [];
  asset = 0x14 ∷ 0x4c ∷ [];
  value_prefix = 0x01 ∷ [];
  value = 200 ∷ replicate 7 0;
}

accepted : run (paying ∷ []) compiled [] ≡ some (true_bytes ∷ [])
unfolding run
accepted = refl

fulfill_script_covenant_example :
    (simple_engine.run (paying ∷ []) compiled [] ≡ some (true_bytes ∷ []))
    ↔ Pays (version_bytes recipient) (drop 2 recipient) (drop 1 asset) (le_encode 8 200) paying
fulfill_script_covenant_example =
    fulfill_script_covenant simple_builder simple_engine recipient 200 asset compiled paying []
      fulfill_compiled

refund_script_covenant_example :
    (simple_engine.run (paying ∷ []) compiled [] ≡ some (true_bytes ∷ []))
    ↔ Pays (version_bytes recipient) (drop 2 recipient) (drop 1 asset) (le_encode 8 200) paying
refund_script_covenant_example =
    refund_script_covenant simple_builder simple_engine recipient 200 asset compiled paying []
      refund_compiled
