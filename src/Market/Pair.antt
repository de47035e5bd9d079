-- ===== src/Market/Pair.antt =====
-- The market that a pair's name finds.
use banco.Prelude.{String, false, List, [], ◌∷◌, ◌++◌, Option, none, some, ◌≡◌, ◌↔◌, refl, ap}
use banco.Prelude.{str_eq, eq_iff, Bool-cases, inl, inr, ◌∙◌, subst}
use banco.Float.{Float64}
use banco.Market.{Market, pair_of, get_trading_pair}

module _ (float : Float64) where
  -- None of the markets has the pair.
  unfoldable pub NoneNamed : String → List (Market float) → Type 0
  NoneNamed pair [] = Unit
  NoneNamed pair (market ∷ rest) = ¬ (pair_of float market ≡ pair) × NoneNamed pair rest

  -- The answer for a pair: the first market that has it, or nil where none has.
  abbrev pub IsAnswer : List (Market float) → String → Option (Market float) → Type 0
  IsAnswer markets pair none = NoneNamed pair markets
  IsAnswer markets pair (some market) =
      (pair_of float market ≡ pair)
      × (before : List (Market float)) × (after : List (Market float)) × (markets
          ≡ before ++ (market ∷ after))
      × NoneNamed pair before

  other_named : (a b : String) → str_eq a b ≡ false → ¬ (a ≡ b)
  other_named a b h e = cc (h, (eq_iff a b).1 e)

  behind :
      (first : Market float) (rest : List (Market float)) (pair : String)
      (answer : Option (Market float))
      → ¬ (pair_of float first ≡ pair)
      → IsAnswer rest pair answer
      → IsAnswer (first ∷ rest) pair answer
  unfolding NoneNamed
  behind first rest pair none other h = (other, h)
  behind first rest pair (some market) other (named, before, after, split, fresh) =
      (named, first ∷ before, after, ap (λ ms. first ∷ ms) split, (other, fresh))

  answered :
      (markets : List (Market float)) (pair : String)
      → IsAnswer markets pair (get_trading_pair float markets pair)
  unfolding get_trading_pair NoneNamed
  answered [] pair = tt
  answered (market ∷ rest) pair = elim (Bool-cases (str_eq (pair_of float market) pair)) [
    | inl same ↦ rw same ((eq_iff _ pair).0 same, [], rest, refl, tt)
    | inr other ↦ rw other (
        behind market rest pair (get_trading_pair float rest pair)
          (other_named (pair_of float market) pair other) (answered rest pair))
  ]

  passed : (a b : String) → ¬ (a ≡ b) → str_eq a b ≡ false
  passed a b h = elim (Bool-cases (str_eq a b)) [
    | inl same ↦ absurd (h ((eq_iff a b).0 same))
    | inr other ↦ other
  ]

  none_found :
      (markets : List (Market float)) (pair : String)
      → NoneNamed pair markets
      → get_trading_pair float markets pair ≡ none
  unfolding get_trading_pair NoneNamed
  none_found [] pair h = refl
  none_found (market ∷ rest) pair (other, h) =
      rw (passed (pair_of float market) pair other) (none_found rest pair h)

  first_found :
      (before after : List (Market float)) (market : Market float) (pair : String)
      → NoneNamed pair before
      → pair_of float market ≡ pair
      → get_trading_pair float (before ++ (market ∷ after)) pair ≡ some market
  unfolding get_trading_pair NoneNamed
  first_found [] after market pair h named = rw ((eq_iff (pair_of float market) pair).1 named) refl
  first_found (b ∷ before) after market pair (other, h) named =
      rw (passed (pair_of float b) pair other) (first_found before after market pair h named)

  found :
      (markets : List (Market float)) (pair : String) (answer : Option (Market float))
      → IsAnswer markets pair answer
      → get_trading_pair float markets pair ≡ answer
  found markets pair none h = none_found markets pair h
  found markets pair (some market) (named, before, after, split, fresh) =
      ap (λ ms. get_trading_pair float ms pair) split
      ∙ first_found before after market pair fresh named

  -- getTradingPair gives an answer exactly if it is the first of the markets whose assets, with a
  -- slash between, are the pair, or nil and no market has the pair.
  pub get_trading_pair-IsAnswer :
      (markets : List (Market float)) (pair : String) (answer : Option (Market float))
      → (get_trading_pair float markets pair ≡ answer) ↔ IsAnswer markets pair answer
  get_trading_pair-IsAnswer markets pair answer =
      (λ e. subst (IsAnswer markets pair) e (answered markets pair), found markets pair answer)
