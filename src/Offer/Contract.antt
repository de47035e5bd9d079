-- ===== src/Offer/Contract.antt =====
-- FulfillScript and RefundScript compile to contracts on the first output.
use banco.Prelude.{ℕ, List, [], ◌∷◌, ◌≡◌, refl, sym, subst, ◌↔◌, some, drop, length}
use banco.Prelude.{Bool-cases, ◌==◌, ltb, if◌then◌else◌, inl, inr}
use banco.Prelude.Int.{ℤ, pos, negsuc}
use banco.Buffer.ByteOrder.{le_encode}
use banco.ScriptNum.{script_num_bytes, le_loop, sign_last}
use banco.Result.{ok, or_error_ok, or_error, slice_from, ◌>>=◌, >>=_ok}
use banco.Result.{script_build_failed}
use banco.Offer.Builder.{ScriptBuilder}
use banco.Offer.Engine.{Output, Engine, true_bytes}
use banco.Offer.Scripts.{build_clause, script_version, compile_fulfill_clause}
use banco.Offer.Scripts.{compile_refund_clause, fulfill_script, refund_script}
use banco.Offer.Covenant.{Pays, clause_iff}

-- The script number of the version that the first byte of a script stands for.
abbrev pub version_bytes : List ℕ → List ℕ
version_bytes [] = []
version_bytes (b ∷ bs) = if b == 0x4f then 0x81 ∷ [] else if b == 0x00 then [] else 0x01 ∷ []

script_version_bytes :
    (b : ℕ) (bs : List ℕ) (version : ℤ)
    → script_version b ≡ ok version
    → script_num_bytes version ≡ some (version_bytes (b ∷ bs))
unfolding script_version script_num_bytes le_loop sign_last
script_version_bytes b bs version e = elim (Bool-cases (b == 0x4f)) [
  | inl h ↦
      let v : negsuc 0 ≡ version = cc (rw h at e) in
      rw h (subst (λ n. script_num_bytes n ≡ some (0x81 ∷ [])) v refl)
  | inr n₁ ↦ elim (Bool-cases (b == 0x00)) [
    | inl h ↦
        let v : pos 0 ≡ version = cc (rw (n₁, h) at e) in
        rw (n₁, h) (subst (λ n. script_num_bytes n ≡ some []) v refl)
    | inr n₂ ↦ elim (Bool-cases (b == 0x51)) [
      | inl h ↦
          let v : pos 1 ≡ version = cc (rw (n₁, n₂, h) at e) in
          rw (n₁, n₂) (subst (λ n. script_num_bytes n ≡ some (0x01 ∷ [])) v refl)
      | inr n₃ ↦ cc (rw (n₁, n₂, n₃) at e)
    ]
  ]
]

slice_from_ok : (n : ℕ) (bs : List ℕ) {rest : List ℕ} → slice_from n bs ≡ ok rest → drop n bs ≡ rest
slice_from_ok n bs e = elim (Bool-cases (ltb (length bs) n)) [
  | inl short ↦ cc (rw short at e)
  | inr long ↦ cc (rw long at e)
]

-- What the bytes of the index 0 are.
index_bytes : script_num_bytes (pos 0) ≡ some []
unfolding script_num_bytes
index_bytes = refl

module _ (lib : ScriptBuilder) where
  -- The clause that a script stands for.
  abbrev Clause : List ℕ → List ℕ → ℕ → List ℕ → List ℕ → Type 0
  Clause version program amount asset s =
      lib.script (build_clause lib [] version program asset (le_encode 8 amount)) ≡ some s

  compile_fulfill_clause_ok :
      (version : ℤ) (vb program : List ℕ) (amount : ℕ) (asset s : List ℕ)
      → script_num_bytes version ≡ some vb
      → compile_fulfill_clause lib 0 version program amount asset ≡ ok s
      → Clause vb program amount (drop 1 asset) s
  unfolding compile_fulfill_clause
  compile_fulfill_clause_ok version vb program amount asset s v e =
      let (rest, e₁, e₂) =
        >>=_ok (slice_from 1 asset)
          (λ a.
            or_error (lib.script (build_clause lib [] vb program a (le_encode 8 amount)))
              script_build_failed)
          (rw (index_bytes, v) at e) in
      rw (slice_from_ok 1 asset e₁) (or_error_ok _ script_build_failed e₂)

  compile_refund_clause_ok :
      (version : ℤ) (vb program : List ℕ) (amount : ℕ) (asset s : List ℕ)
      → script_num_bytes version ≡ some vb
      → compile_refund_clause lib 0 version program amount asset ≡ ok s
      → Clause vb program amount (drop 1 asset) s
  unfolding compile_refund_clause
  compile_refund_clause_ok version vb program amount asset s v e =
      let (rest, e₁, e₂) =
        >>=_ok (slice_from 1 asset)
          (λ a.
            or_error (lib.script (build_clause lib [] vb program a (le_encode 8 amount)))
              script_build_failed)
          (rw (index_bytes, v) at e) in
      rw (slice_from_ok 1 asset e₁) (or_error_ok _ script_build_failed e₂)

  fulfill_script_ok :
      (recipient : List ℕ) (amount : ℕ) (asset s : List ℕ)
      → fulfill_script lib recipient amount asset ≡ ok s
      → Clause (version_bytes recipient) (drop 2 recipient) amount (drop 1 asset) s
  unfolding fulfill_script
  fulfill_script_ok [] amount asset s e = cc
  fulfill_script_ok (b ∷ bs) amount asset s e =
      let (version, e₁, e₂) =
        >>=_ok (script_version b)
          (λ v. slice_from 2 (b ∷ bs) >>= λ p. compile_fulfill_clause lib 0 v p amount asset) e in
      let (program, e₃, e₄) =
        >>=_ok (slice_from 2 (b ∷ bs)) (λ p. compile_fulfill_clause lib 0 version p amount asset)
          e₂ in
      subst (λ p. Clause (version_bytes (b ∷ bs)) p amount (drop 1 asset) s)
        (sym (slice_from_ok 2 (b ∷ bs) e₃))
        (compile_fulfill_clause_ok version (version_bytes (b ∷ bs)) program amount asset s
          (script_version_bytes b bs version e₁) e₄)

  refund_script_ok :
      (recipient : List ℕ) (amount : ℕ) (asset s : List ℕ)
      → refund_script lib recipient amount asset ≡ ok s
      → Clause (version_bytes recipient) (drop 2 recipient) amount (drop 1 asset) s
  unfolding refund_script
  refund_script_ok [] amount asset s e = cc
  refund_script_ok (b ∷ bs) amount asset s e =
      let (version, e₁, e₂) =
        >>=_ok (script_version b)
          (λ v. slice_from 2 (b ∷ bs) >>= λ p. compile_refund_clause lib 0 v p amount asset) e in
      let (program, e₃, e₄) =
        >>=_ok (slice_from 2 (b ∷ bs)) (λ p. compile_refund_clause lib 0 version p amount asset)
          e₂ in
      subst (λ p. Clause (version_bytes (b ∷ bs)) p amount (drop 1 asset) s)
        (sym (slice_from_ok 2 (b ∷ bs) e₃))
        (compile_refund_clause_ok version (version_bytes (b ∷ bs)) program amount asset s
          (script_version_bytes b bs version e₁) e₄)

-- A fulfill script that is compiled ends with true alone on the stack exactly if the first output of
-- the spending transaction pays the recipient's program, in its version, the amount of the asset.
pub fulfill_script_covenant :
    (lib : ScriptBuilder) (engine : Engine lib) (recipient : List ℕ) (amount : ℕ) (asset s : List ℕ)
    (out : Output) (outs : List Output)
    → fulfill_script lib recipient amount asset ≡ ok s
    → (engine.run (out ∷ outs) s [] ≡ some (true_bytes ∷ []))
      ↔ Pays (version_bytes recipient) (drop 2 recipient) (drop 1 asset) (le_encode 8 amount) out
fulfill_script_covenant lib engine recipient amount asset s out outs e =
    clause_iff lib engine out outs _ _ _ _ s (fulfill_script_ok lib recipient amount asset s e)

-- A refund script does so exactly if that output pays the recipient the amount of the asset that was
-- sent: it asks for no signature, so anyone can spend by it.
pub refund_script_covenant :
    (lib : ScriptBuilder) (engine : Engine lib) (recipient : List ℕ) (amount : ℕ) (asset s : List ℕ)
    (out : Output) (outs : List Output)
    → refund_script lib recipient amount asset ≡ ok s
    → (engine.run (out ∷ outs) s [] ≡ some (true_bytes ∷ []))
      ↔ Pays (version_bytes recipient) (drop 2 recipient) (drop 1 asset) (le_encode 8 amount) out
refund_script_covenant lib engine recipient amount asset s out outs e =
    clause_iff lib engine out outs _ _ _ _ s (refund_script_ok lib recipient amount asset s e)
