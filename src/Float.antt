-- ===== src/Float.antt =====
-- The float64 values and operations that package main uses: the language's, so parameters of what uses
-- them, since no law of them is needed.
pub mod Model
use banco.Prelude.{ℕ, String, Bool, Option}

pub record Float64 : Type 1 where
  pub Float : Type 0
  -- the literal n / 10 ^ d, as `literal n d`
  pub literal : ℕ → ℕ → Float
  -- the conversions `float64(n)` and `uint64(f)`
  pub of_uint64 : ℕ → Float
  pub to_uint64 : Float → ℕ
  pub add : Float → Float → Float
  pub sub : Float → Float → Float
  pub mul : Float → Float → Float
  pub div : Float → Float → Float
  -- `a < b`
  pub less : Float → Float → Bool
  -- math.Pow and math.Pow10
  pub pow : Float → Float → Float
  pub pow10 : ℕ → Float
  -- strconv.ParseFloat for 64 bits, and the formats %v and %f
  pub parse : String → Option Float
  pub format_v : Float → String
  pub format_f : Float → String
