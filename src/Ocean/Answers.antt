-- ===== src/Ocean/Answers.antt =====
-- What GetAddress and SelectUtxos answer, against what the daemon answered.
use banco.Prelude.{ℕ, String, Bool, List, [], ◌∷◌, Option, none, some, ◌≡◌, refl, ap, sym}
use banco.Prelude.{◌⊎◌, inl, inr, ◌∙◌, if◌then◌else◌}
use banco.Ocean.Client.{Client}
use banco.Ocean.Service.{OutputLib, first_address, get_address}
use banco.Result.{ok, >>=_ok, or_error, or_error_ok, ok-injective, rpc_failed}

module _ (client : Client) (lib : OutputLib) where
  open client use {World}
  open lib use {Prevout}

  -- The answer of the daemon to a request for one address.
  abbrev pub derived : String → Bool → World → Option (List String) × World
  derived account is_change w =
      if is_change
      then client.derive_change_addresses account 1 w
      else client.derive_addresses account 1 w

  -- An address and its script: of the first address of the answer, or both empty.
  abbrev pub IsFirst : Option (List String) → String × List ℕ → Type 0
  IsFirst answer (addr, script) =
      ((rest : List String) × (answer ≡ some (addr ∷ rest))
        × (lib.to_output_script addr ≡ some script))
      ⊎ ((answer ≡ some []) × (addr ≡ "") × (script ≡ []))

  first_address-IsFirst :
      (answer : Option (List String)) (p : String × List ℕ)
      → first_address client lib answer ≡ ok p
      → IsFirst answer p
  first_address-IsFirst none p h = absurd (cc h)
  first_address-IsFirst (some []) (a, s) h =
      let same = ok-injective h in inr (refl, ap (λ q. q.0) (sym same), ap (λ q. q.1) (sym same))
  first_address-IsFirst (some (addr ∷ rest)) (a, s) h =
      let (script, found, same) = >>=_ok (or_error (lib.to_output_script addr) rpc_failed) _ h in
      let is_pair = ok-injective same in
      inl (
        rest,
        ap (λ q. some (q.0 ∷ rest)) is_pair,
        ap lib.to_output_script (sym (ap (λ q. q.0) is_pair))
            ∙ or_error_ok (lib.to_output_script addr) rpc_failed found
            ∙ ap (λ q. some q.1) is_pair,
      )

  -- Where GetAddress returns without an error, its address is the first that the daemon derived for
  -- the account, of the kind asked for, with that address's script; or the daemon derived none, and
  -- address and script are empty.
  pub get_address-IsFirst :
      (account : String) (is_change : Bool) (w : World) (p : String × List ℕ)
      → (get_address client lib account is_change w).0 ≡ ok p
      → IsFirst (derived account is_change w).0 p
  unfolding get_address
  get_address-IsFirst account is_change w p h =
      first_address-IsFirst (derived account is_change w).0 p h
