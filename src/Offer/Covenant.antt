-- ===== src/Offer/Covenant.antt =====
-- The contract enforces the first output of the transaction that spends it.
use banco.Prelude.{
  ℕ, List, [], ◌∷◌, ◌≡◌, refl, ◌↔◌, ◌∙◌, ap, sym, Option, none, some, subst, arith, Bool,
}
use banco.Prelude.{true, false, bytes_eq, bytes_eq_sound, bytes_eq_refl, if◌then◌else◌, ◌&&◌}
use banco.Offer.Builder.{ScriptBuilder}
use banco.Offer.Engine.{Output, Stack, Engine, true_bytes, then_stack}
use banco.Offer.Scripts.{build_clause}

-- The output pays the program in the version, and the amount of the asset.
pub record Pays (version program asset amount : List ℕ) (out : Output) : Type 0 where
  pub version_eq : version ≡ out.version
  pub program_eq : program ≡ out.program
  pub asset_eq : asset ≡ out.asset
  pub amount_eq : amount ≡ out.value

same_bytes : {xs ys : List ℕ} → xs ≡ ys → bytes_eq xs ys ≡ true
same_bytes {xs} e = subst (λ ys. bytes_eq xs ys ≡ true) e (bytes_eq_refl xs)

-- A stack, unless a test has failed.
abbrev when : Bool → Stack → Option Stack
when held st = if held then some st else none

outcome_iff :
    (v p a w : Bool)
    → (when ((v && p) && a) ((if w then true_bytes else []) ∷ []) ≡ some (true_bytes ∷ []))
      ↔ ((v ≡ true) × (p ≡ true) × (a ≡ true) × (w ≡ true))
outcome_iff v p a w = (λ e. ground arith, λ (hv, hp, ha, hw). rw (hv, hp, ha, hw) refl)

module _ (lib : ScriptBuilder) (engine : Engine lib) (out : Output) (outs : List Output) where
  open lib use {Builder, new, add_data, add_op, script, op_drop, op_equal, op_equal_verify}

  -- A script that the builder gives ends so on an empty stack.
  abbrev Runs : Builder → Option Stack → Type 0
  Runs b r = (s : List ℕ) → script b ≡ some s → engine.run (out ∷ outs) s [] ≡ r

  Runs-new : Runs new (some [])
  Runs-new s e = engine.run_new (out ∷ outs) s [] e

  Runs-data :
      (b : Builder) (d : List ℕ) (r : Option Stack)
      → Runs b r
      → Runs (add_data d b) (then_stack r (λ t. some (d ∷ t)))
  Runs-data b d r h s e =
      let (s₀, e₀, last) = engine.run_add_data b d s e in
      last (out ∷ outs) [] ∙ ap (λ x. then_stack x (λ t. some (d ∷ t))) (h s₀ e₀)

  Runs-op :
      (b : Builder) (o : ℕ) (r : Option Stack)
      → Runs b r
      → Runs (add_op o b) (then_stack r (engine.step (out ∷ outs) o))
  Runs-op b o r h s e =
      let (s₀, e₀, last) = engine.run_add_op b o s e in
      last (out ∷ outs) [] ∙ ap (λ x. then_stack x (engine.step (out ∷ outs) o)) (h s₀ e₀)

  -- An opcode on a stack that is known, unless a test has failed.
  Runs-step :
      (b : Builder) (o : ℕ) (held : Bool) (st st' : Stack)
      → Runs b (when held st)
      → engine.step (out ∷ outs) o st ≡ some st'
      → Runs (add_op o b) (when held st')
  Runs-step b o true st st' h e = subst (Runs (add_op o b)) e (Runs-op b o (some st) h)
  Runs-step b o false st st' h e = Runs-op b o none h

  Runs-push :
      (b : Builder) (d : List ℕ) (held : Bool) (st : Stack)
      → Runs b (when held st)
      → Runs (add_data d b) (when held (d ∷ st))
  Runs-push b d true st h = Runs-data b d (some st) h
  Runs-push b d false st h = Runs-data b d none h

  -- The pieces of a clause.
  Runs-verify :
      (b : Builder) (d x : List ℕ) (held : Bool) (st : Stack)
      → Runs b (when held (x ∷ st))
      → Runs (add_op op_equal_verify (add_data d b)) (when (held && bytes_eq d x) st)
  Runs-verify b d x true st h =
      subst (Runs (add_op op_equal_verify (add_data d b)))
        (engine.step_equal_verify (out ∷ outs) d x st)
        (Runs-op (add_data d b) op_equal_verify (some (d ∷ x ∷ st))
          (Runs-data b d (some (x ∷ st)) h))
  Runs-verify b d x false st h = Runs-op (add_data d b) op_equal_verify none (Runs-data b d none h)

  -- How the clause ends: with the outcome of the last comparison, if the others held.
  Runs-clause :
      (version program asset amount : List ℕ)
      → Runs (build_clause lib [] version program asset amount) (
          when
            ((bytes_eq version out.version && bytes_eq program out.program)
              && bytes_eq asset out.asset)
            ((if bytes_eq amount out.value then true_bytes else []) ∷ []))
  unfolding build_clause
  Runs-clause version program asset amount =
      let v =
        Runs-step _ _ true _ _ (Runs-push new [] true [] Runs-new)
          (engine.step_inspect_script_pub_key out outs []) in
      let p = Runs-verify _ program out.program _ [] (Runs-verify _ version out.version true _ v) in
      let a =
        Runs-step _ _ _ _ _
          (Runs-step _ _ _ _ _ (Runs-push _ [] _ _ p) (engine.step_inspect_asset out outs []))
          (engine.step_drop (out ∷ outs) out.asset_prefix (out.asset ∷ [])) in
      let w =
        Runs-step _ _ _ _ _
          (Runs-step _ _ _ _ _ (Runs-push _ [] _ _ (Runs-verify _ asset out.asset _ [] a))
            (engine.step_inspect_value out outs []))
          (engine.step_drop (out ∷ outs) out.value_prefix (out.value ∷ [])) in
      Runs-step _ _ _ _ _ (Runs-push _ amount _ _ w)
        (engine.step_equal (out ∷ outs) amount out.value [])

  pub clause_iff :
      (version program asset amount s : List ℕ)
      → script (build_clause lib [] version program asset amount) ≡ some s
      → (engine.run (out ∷ outs) s [] ≡ some (true_bytes ∷ []))
        ↔ Pays version program asset amount out
  clause_iff version program asset amount s e =
      let ends = Runs-clause version program asset amount s e in
      let both =
        outcome_iff (bytes_eq version out.version) (bytes_eq program out.program)
          (bytes_eq asset out.asset) (bytes_eq amount out.value) in
      (
        (λ accepted.
            let (hv, hp, ha, hw) = both.0 (sym ends ∙ accepted) in
            record {
              version_eq = bytes_eq_sound _ _ hv;
              program_eq = bytes_eq_sound _ _ hp;
              asset_eq = bytes_eq_sound _ _ ha;
              amount_eq = bytes_eq_sound _ _ hw;
            }),
        (λ pays.
            ends
            ∙ both.1 (
              same_bytes pays.version_eq,
              same_bytes pays.program_eq,
              same_bytes pays.asset_eq,
              same_bytes pays.amount_eq,
            )),
      )
