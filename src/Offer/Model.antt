-- ===== src/Offer/Model.antt =====
-- A builder and an engine that meet the laws of Offer/Engine: a script holds one number for each
-- piece, and data that does not survive this coding is refused.
use banco.Prelude.{ℕ, zero, suc, ◌+◌, ◌*◌, ◌/◌, ◌%◌, ◌≡◌, refl, ap, sym, ◌∙◌, List, [], ◌∷◌, ◌++◌}
use banco.Prelude.{Option, none, some, true, inl, inr, Bool-cases, arith}
use banco.Prelude.{◌==◌, if◌then◌else◌, bytes_eq, bytes_eq_sound}
use mathlib.Core.Path.{fun_ext}
use banco.Offer.Builder.{ScriptBuilder}
use banco.Offer.Engine.{Output, Stack, Engine, then_stack, true_bytes}

abbrev pub code : List ℕ → ℕ
code [] = 1
code (b ∷ d) = b + 256 * code d

abbrev pub decode_data : ℕ → ℕ → List ℕ
decode_data zero n = []
decode_data (suc fuel) n =
    let rest = decode_data fuel (n / 256) in if n == 1 then [] else (n % 256) ∷ rest

abbrev pub add_data : List ℕ → Option (List ℕ) → Option (List ℕ)
add_data d none = none
add_data d (some s) =
    if bytes_eq (decode_data 64 (code d)) d then some (s ++ ((code d * 2 + 1) ∷ [])) else none

abbrev pub add_op : ℕ → Option (List ℕ) → Option (List ℕ)
add_op o none = none
add_op o (some s) = some (s ++ ((o * 2) ∷ []))

abbrev pub simple_builder : ScriptBuilder
simple_builder = record {
  Builder = Option (List ℕ);
  new = some [];
  add_data = add_data;
  add_op = add_op;
  script = λ b. b;
  op_drop = 0x75;
  op_equal = 0x87;
  op_equal_verify = 0x88;
}

abbrev pub equal_on : List ℕ → Stack → Option Stack
equal_on a [] = none
equal_on a (b ∷ st) = some ((if bytes_eq a b then true_bytes else []) ∷ st)

abbrev pub verify_on : List ℕ → Stack → Option Stack
verify_on a [] = none
verify_on a (b ∷ st) = if bytes_eq a b then some st else none

abbrev pub inspect : ℕ → List Output → List ℕ → Stack → Option Stack
inspect o [] i st = none
inspect o (out ∷ outs) (b ∷ i) st = none
inspect o (out ∷ outs) [] st =
    if o == 0xd1
    then some (out.version ∷ out.program ∷ st)
    else if o == 0xce
    then some (out.asset_prefix ∷ out.asset ∷ st)
    else if o == 0xcf
    then some (out.value_prefix ∷ out.value ∷ st)
    else none

abbrev pub step : List Output → ℕ → Stack → Option Stack
step outs o [] = none
step outs o (a ∷ st) =
    if o == 0x75
    then some st
    else if o == 0x87
    then equal_on a st
    else if o == 0x88
    then verify_on a st
    else inspect o outs a st

abbrev pub piece : List Output → ℕ → Stack → Option Stack
piece outs c st = if c % 2 == 1 then some (decode_data 64 (c / 2) ∷ st) else step outs (c / 2) st

unfoldable pub run : List Output → List ℕ → Stack → Option Stack
run outs [] st = some st
run outs (c ∷ s) st = then_stack (piece outs c st) (run outs s)

then_some : (r : Option Stack) → then_stack r (λ t. some t) ≡ r
then_some none = refl
then_some (some t) = refl

then_then :
    (r : Option Stack) (f g h : Stack → Option Stack)
    → ((t : Stack) → h t ≡ then_stack (f t) g)
    → then_stack r h ≡ then_stack (then_stack r f) g
then_then none f g h e = refl
then_then (some t) f g h e = e t

run_last :
    (outs : List Output) (s : List ℕ) (c : ℕ) (st : Stack)
    → run outs (s ++ (c ∷ [])) st ≡ then_stack (run outs s st) (piece outs c)
unfolding run
run_last outs [] c st = then_some (piece outs c st)
run_last outs (d ∷ s) c st =
    then_then (piece outs d st) (run outs s) (piece outs c) (run outs (s ++ (c ∷ [])))
      (run_last outs s c)

some_eq : {A : Type 0} {x y : A} → some x ≡ some y → x ≡ y
some_eq e = cc

odd_piece :
    (outs : List Output) (d : List ℕ) (st : Stack)
    → bytes_eq (decode_data 64 (code d)) d ≡ true
    → piece outs (code d * 2 + 1) st ≡ some (d ∷ st)
odd_piece outs d st h =
    let odd : (code d * 2 + 1) % 2 ≡ 1 = omega arith in
    let half : (code d * 2 + 1) / 2 ≡ code d = omega arith in
    rw (odd, half) (ap (λ t. some (t ∷ st)) (bytes_eq_sound _ _ h))

even_piece : (outs : List Output) (o : ℕ) (st : Stack) → piece outs (o * 2) st ≡ step outs o st
even_piece outs o st =
    let even : o * 2 % 2 ≡ 0 = omega arith in
    let half : o * 2 / 2 ≡ o = omega arith in rw (even, half)

pub run_after_data :
    (b : Option (List ℕ)) (d s : List ℕ)
    → add_data d b ≡ some s
    → (s₀ : List ℕ) × (b ≡ some s₀)
      × ((outs : List Output) (st : Stack)
          → run outs s st ≡ then_stack (run outs s₀ st) (λ t. some (d ∷ t)))
run_after_data none d s e = cc
run_after_data (some s₀) d s e = elim (Bool-cases (bytes_eq (decode_data 64 (code d)) d)) [
  | inl fits ↦ (
    s₀,
    refl,
    λ outs st.
        ap (λ t. run outs t st) (sym (some_eq (rw fits at e)))
        ∙ run_last outs s₀ (code d * 2 + 1) st
        ∙ ap (then_stack (run outs s₀ st)) (fun_ext (λ t. odd_piece outs d t fits)),
  )
  | inr refused ↦ cc (rw refused at e)
]

pub run_after_op :
    (b : Option (List ℕ)) (o : ℕ) (s : List ℕ)
    → add_op o b ≡ some s
    → (s₀ : List ℕ) × (b ≡ some s₀)
      × ((outs : List Output) (st : Stack)
          → run outs s st ≡ then_stack (run outs s₀ st) (step outs o))
run_after_op none o s e = cc
run_after_op (some s₀) o s e = (
  s₀,
  refl,
  λ outs st.
      ap (λ t. run outs t st) (sym (some_eq e))
      ∙ run_last outs s₀ (o * 2) st
      ∙ ap (then_stack (run outs s₀ st)) (fun_ext (λ t. even_piece outs o t)),
)

pub run_empty :
    (outs : List Output) (s : List ℕ) (st : Stack) → some [] ≡ some s → run outs s st ≡ some st
unfolding run
run_empty outs s st e = ap (λ t. run outs t st) (sym (some_eq e))

abbrev pub simple_engine : Engine simple_builder
simple_engine = record {
  step = step;
  run = run;
  run_new = run_empty;
  run_add_data = run_after_data;
  run_add_op = run_after_op;
  step_drop = λ outs a st. refl;
  step_equal = λ outs a b st. refl;
  step_equal_verify = λ outs a b st. refl;
  step_inspect_script_pub_key = λ out outs st. refl;
  step_inspect_asset = λ out outs st. refl;
  step_inspect_value = λ out outs st. refl;
}
