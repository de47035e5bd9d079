-- ===== src/Offer/Engine.antt =====
-- What the contract relies on: a script that the builder gives, run by the tapscript engine of
-- Elements. `step` is one opcode, and `run` a script on a stack whose top is the head of the list;
-- `none` is a script that fails. Each law states documented behaviour of txscript or of an opcode.
use banco.Prelude.{ℕ, List, [], ◌∷◌, Option, none, some, ◌≡◌, if◌then◌else◌, bytes_eq}
use banco.Offer.Builder.{ScriptBuilder}
use banco.Offer.Scripts.{op_inspect_output_script_pub_key, op_inspect_output_asset}
use banco.Offer.Scripts.{op_inspect_output_value}

-- An output of the spending transaction, as the introspection opcodes show it: the version of the
-- witness program as a script number, and the asset and the value each behind a prefix.
pub record Output : Type 0 where
  pub version : List ℕ
  pub program : List ℕ
  pub asset_prefix : List ℕ
  pub asset : List ℕ
  pub value_prefix : List ℕ
  pub value : List ℕ

abbrev pub Stack : Type 0
Stack = List (List ℕ)

abbrev pub then_stack : Option Stack → (Stack → Option Stack) → Option Stack
then_stack none f = none
then_stack (some st) f = f st

-- What an opcode that compares leaves on the stack.
abbrev pub true_bytes : List ℕ
true_bytes = 1 ∷ []

pub record Engine (lib : ScriptBuilder) : Type 1 where
  pub step : List Output → ℕ → Stack → Option Stack
  pub run : List Output → List ℕ → Stack → Option Stack
  -- A script that `Script` gives without an error has what was added last at its end, behind what
  -- was there before, which had no error either.
  pub run_new :
      (outs : List Output) (s : List ℕ) (st : Stack)
      → lib.script lib.new ≡ some s
      → run outs s st ≡ some st
  pub run_add_data :
      (b : lib.Builder) (d s : List ℕ)
      → lib.script (lib.add_data d b) ≡ some s
      → (s₀ : List ℕ) × (lib.script b ≡ some s₀)
        × ((outs : List Output) (st : Stack)
            → run outs s st ≡ then_stack (run outs s₀ st) (λ t. some (d ∷ t)))
  pub run_add_op :
      (b : lib.Builder) (o : ℕ) (s : List ℕ)
      → lib.script (lib.add_op o b) ≡ some s
      → (s₀ : List ℕ) × (lib.script b ≡ some s₀)
        × ((outs : List Output) (st : Stack)
            → run outs s st ≡ then_stack (run outs s₀ st) (step outs o))
  pub step_drop :
      (outs : List Output) (a : List ℕ) (st : Stack) → step outs lib.op_drop (a ∷ st) ≡ some st
  pub step_equal :
      (outs : List Output) (a b : List ℕ) (st : Stack)
      → step outs lib.op_equal (a ∷ b ∷ st) ≡ some ((if bytes_eq a b then true_bytes else []) ∷ st)
  pub step_equal_verify :
      (outs : List Output) (a b : List ℕ) (st : Stack)
      → step outs lib.op_equal_verify (a ∷ b ∷ st) ≡ (if bytes_eq a b then some st else none)
  -- The introspection opcodes at the index 0, the empty script number.
  pub step_inspect_script_pub_key :
      (out : Output) (outs : List Output) (st : Stack)
      → step (out ∷ outs) op_inspect_output_script_pub_key ([] ∷ st)
        ≡ some (out.version ∷ out.program ∷ st)
  pub step_inspect_asset :
      (out : Output) (outs : List Output) (st : Stack)
      → step (out ∷ outs) op_inspect_output_asset ([] ∷ st)
        ≡ some (out.asset_prefix ∷ out.asset ∷ st)
  pub step_inspect_value :
      (out : Output) (outs : List Output) (st : Stack)
      → step (out ∷ outs) op_inspect_output_value ([] ∷ st)
        ≡ some (out.value_prefix ∷ out.value ∷ st)
