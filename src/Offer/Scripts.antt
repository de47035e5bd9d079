-- ===== src/Offer/Scripts.antt =====
-- The two spending conditions of offer.go.
use banco.Prelude.{ℕ, List, [], ◌∷◌, ◌==◌, if◌then◌else◌}
use banco.Prelude.Int.{ℤ, pos, negsuc}
use banco.Buffer.ByteOrder.{le_encode}
use banco.ScriptNum.{script_num_bytes}
use banco.Result.{Result, ok, err, panic, ◌>>=◌, or_error, or_panic, slice_from}
use banco.Result.{unknown_script_version, script_build_failed}
use banco.Offer.Builder.{ScriptBuilder}

abbrev pub op_inspect_output_script_pub_key : ℕ
op_inspect_output_script_pub_key = 0xd1

abbrev pub op_inspect_output_asset : ℕ
op_inspect_output_asset = 0xce

abbrev pub op_inspect_output_value : ℕ
op_inspect_output_value = 0xcf

-- The `switch` on `recipientScript[0]`.
unfoldable pub script_version : ℕ → Result ℤ
script_version b =
    if b == 0x4f
    then ok (negsuc 0)
    else if b == 0x00
    then ok (pos 0)
    else if b == 0x51
    then ok (pos 1)
    else err unknown_script_version

module _ (lib : ScriptBuilder) where
  open lib use {Builder, new, add_data, add_op, script, op_drop, op_equal, op_equal_verify}

  -- The calls on the builder, for the bytes that the clause pushes.
  unfoldable pub build_clause : List ℕ → List ℕ → List ℕ → List ℕ → List ℕ → Builder
  build_clause index version program asset amount =
      let b₁ = add_op op_inspect_output_script_pub_key (add_data index new) in
      let b₂ = add_op op_equal_verify (add_data version b₁) in
      let b₃ = add_op op_equal_verify (add_data program b₂) in
      let b₄ = add_op op_drop (add_op op_inspect_output_asset (add_data index b₃)) in
      let b₅ = add_op op_equal_verify (add_data asset b₄) in
      let b₆ = add_op op_drop (add_op op_inspect_output_value (add_data index b₅)) in
      add_op op_equal (add_data amount b₆)

  -- `compileFulfillClause`: the numbers' bytes, the asset without its prefix, the amount in little
  -- endian, and the calls on the builder.
  unfoldable pub compile_fulfill_clause : ℕ → ℤ → List ℕ → ℕ → List ℕ → Result (List ℕ)
  unfolding build_clause
  compile_fulfill_clause output_index version program output_amount output_asset = do
    index ← or_panic (script_num_bytes (pos output_index))
    script_version ← or_panic (script_num_bytes version)
    asset_buffer ← slice_from 1 output_asset
    let clause = build_clause index script_version program asset_buffer (le_encode 8 output_amount)
    or_error (script clause) script_build_failed

  -- `compileRefundClause` makes the same calls, on the amount and the asset of the input.
  unfoldable pub compile_refund_clause : ℕ → ℤ → List ℕ → ℕ → List ℕ → Result (List ℕ)
  unfolding build_clause
  compile_refund_clause output_index version program input_amount input_asset = do
    index ← or_panic (script_num_bytes (pos output_index))
    script_version ← or_panic (script_num_bytes version)
    asset_buffer ← slice_from 1 input_asset
    let clause = build_clause index script_version program asset_buffer (le_encode 8 input_amount)
    or_error (script clause) script_build_failed

  -- `FulfillScript`; the index `[0]` panics on an empty script.
  unfoldable pub fulfill_script : List ℕ → ℕ → List ℕ → Result (List ℕ)
  unfolding script_version
  fulfill_script [] output_amount output_asset = panic
  fulfill_script (b ∷ bs) output_amount output_asset = do
    version ← script_version b
    program ← slice_from 2 (b ∷ bs)
    compile_fulfill_clause 0 version program output_amount output_asset

  -- `RefundScript`
  unfoldable pub refund_script : List ℕ → ℕ → List ℕ → Result (List ℕ)
  unfolding script_version
  refund_script [] input_amount input_asset = panic
  refund_script (b ∷ bs) input_amount input_asset = do
    version ← script_version b
    program ← slice_from 2 (b ∷ bs)
    compile_refund_clause 0 version program input_amount input_asset
