-- ===== src/Ocean/Ready.antt =====
-- What NewWalletService has checked and made when it returns a service.
use banco.Prelude.{String, Bool, true, false, List, ◌&&◌, ◌≡◌, refl, ap, sym, ◌∙◌}
use banco.Prelude.{some, arith}
use banco.Ocean.Client.{StatusReply, Client}
use banco.Ocean.Service.{status}
use banco.Ocean.Start.{has_label, require_ready, accounts_of, ensure_account}
use banco.Ocean.Start.{connect, new_wallet_service}
use banco.Call.{>>=_ok}
use banco.Result.{ok, or_error_ok, rpc_failed}

-- The labels of the daemon's accounts.
pub record AccountLaws (client : Client) : Type 1 where
  pub labels : client.World → List String
  pub get_info-labels :
      (w : client.World) (ls : List String)
      → (client.get_info w).0 ≡ some ls
      → ls ≡ labels (client.get_info w).1
  pub labels-create_account :
      (label : String) (w : client.World) (u : Unit {0})
      → (client.create_account label w).0 ≡ some u
      → has_label label (labels (client.create_account label w).1) ≡ true

module _ (client : Client) (laws : AccountLaws client) where
  open client use {World}

  -- The daemon said that its wallet is initialized and unlocked.
  abbrev pub WasReady : Type 0
  WasReady =
      (w : World) × (reply : StatusReply) × ((client.status w).0 ≡ some reply)
      × (reply.initialized ≡ true)
      × (reply.unlocked ≡ true)

  both : (a b : Bool) → (a && b) ≡ true → (a ≡ true) × (b ≡ true)
  both a b h = ground arith

  ready_if :
      (b : Bool) (reply : StatusReply) (w : World)
      → (reply.initialized && reply.unlocked) ≡ b
      → (require_ready client reply w).0 ≡ ok tt
      → b ≡ true
  ready_if true reply w e h = refl
  ready_if false reply w e h = absurd (cc (rw e at h))

  ready :
      (reply : StatusReply) (w : World)
      → (require_ready client reply w).0 ≡ ok tt
      → (reply.initialized && reply.unlocked) ≡ true
  ready reply w h = ready_if _ reply w refl h

  ensured :
      (b : Bool) (label : String) (labels : List String) (w w' : World)
      → has_label label labels ≡ b
      → labels ≡ laws.labels w
      → ensure_account client label labels w ≡ (ok tt, w')
      → has_label label (laws.labels w') ≡ true
  unfolding ensure_account
  ensured true label labels w w' e same h =
      let kept : (ok tt, w) ≡ (ok tt, w') = rw e at h in
      ap (has_label label) (ap laws.labels (sym (ap (λ q. q.1) kept)) ∙ sym same) ∙ e
  ensured false label labels w w' e same h =
      let made = rw e at h in
      let run = client.create_account label w in
      rw (← ap (λ q. q.1) made)
        (laws.labels-create_account label w tt (or_error_ok run.0 rpc_failed (ap (λ q. q.0) made)))

  -- NewWalletService returns a service only where the daemon answered that its wallet is initialized
  -- and unlocked; the daemon then has an account with the service's name.
  pub new_wallet_service-WasReady :
      (addr account : String) (w w' : World)
      → new_wallet_service client addr account w ≡ (ok tt, w')
      → WasReady × (has_label account (laws.labels w') ≡ true)
  unfolding new_wallet_service status accounts_of
  new_wallet_service-WasReady addr account w w' h =
      let (u, dialled, h₁) = >>=_ok (connect client addr) _ w w' tt h in
      let w₁ = (connect client addr w).1 in
      let (reply, said, h₂) = >>=_ok (status client) _ w₁ w' tt h₁ in
      let w₂ = (status client w₁).1 in
      let (v, passed, h₃) = >>=_ok (require_ready client reply) _ w₂ w' tt h₂ in
      let w₃ = (require_ready client reply w₂).1 in
      let (ls, listed, h₄) = >>=_ok (accounts_of client) _ w₃ w' tt h₃ in
      let (initialized, unlocked) = both reply.initialized reply.unlocked (ready reply w₂ passed) in
      (
        (w₁, reply, or_error_ok (client.status w₁).0 rpc_failed said, initialized, unlocked),
        ensured _ account ls (accounts_of client w₃).1 w' refl
            (laws.get_info-labels w₃ ls (or_error_ok (client.get_info w₃).0 rpc_failed listed)) h₄,
      )
