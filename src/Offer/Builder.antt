-- ===== src/Offer/Builder.antt =====
-- What offer.go uses of txscript: a builder that a script is added to piece by piece.
use banco.Prelude.{ℕ, List, Option}

pub record ScriptBuilder : Type 1 where
  pub Builder : Type 0
  -- NewScriptBuilder
  pub new : Builder
  -- AddData and AddOp: the builder keeps an error to itself until `Script`
  pub add_data : List ℕ → Builder → Builder
  pub add_op : ℕ → Builder → Builder
  -- Script: `none` is an error
  pub script : Builder → Option (List ℕ)
  -- the constants of the package
  pub op_drop : ℕ
  pub op_equal : ℕ
  pub op_equal_verify : ℕ
