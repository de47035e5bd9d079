-- ===== src/Store/Atomic.antt =====
-- Saving an order is atomic.
use banco.Prelude.{ℕ, String, Bool, true, false, List, [], ◌∷◌, ◌++◌, Option, none, some, ◌≡◌, refl}
use banco.Prelude.{◌⊎◌, inl, inr, Bool-cases}
use banco.Order.{Order}
use banco.Result.{Result, ok, err, db_failed}
use banco.Store.Rows.{OrderRow, StatusRow, Db}
use banco.Store.Sql.{
  Conn, Sql, continue, ◌>>◌, call, with_fault, begin_tx, exec_tx, commit, or_rollback, undo,
}
use banco.Store.Save.{order_row, pending_row, insert_order, insert_status, is_refused, save_order}

abbrev pub conn : Db → Option Db → List Bool → Conn
conn stored working faults = record { stored = stored; working = working; faults = faults }

-- Rules for what holds of the outcome of a sequence of calls.
module _ (P : Result (Unit {0}) × Conn → Type 0) where
  with_fault_rule :
      (fs : List Bool) (k : Sql (Unit {0})) (c : Conn)
      → ((rest : List Bool) → P (err db_failed, record c { faults = rest }))
      → ((rest : List Bool) → P (k (record c { faults = rest })))
      → P (let (r, c') = with_fault fs c in continue r (λ u. k) c')
  with_fault_rule [] k c bad good = good c.faults
  with_fault_rule (true ∷ rest) k c bad good = bad rest
  with_fault_rule (false ∷ rest) k c bad good = good rest

  pub call_rule :
      (k : Sql (Unit {0})) (c : Conn)
      → ((rest : List Bool) → P (err db_failed, record c { faults = rest }))
      → ((rest : List Bool) → P (k (record c { faults = rest })))
      → P ((call >> k) c)
  unfolding call
  call_rule k c bad good = with_fault_rule c.faults k c bad good

  -- A call whose failure rolls the transaction back.
  with_fault_undo_rule :
      (fs : List Bool) (k : Sql (Unit {0})) (c : Conn)
      → ((rest : List Bool) → P (err db_failed, record c { working = none; faults = rest }))
      → ((rest : List Bool) → P (k (record c { faults = rest })))
      → P (let (r, c') = undo (with_fault fs c) in continue r (λ u. k) c')
  with_fault_undo_rule [] k c bad good = good c.faults
  with_fault_undo_rule (true ∷ rest) k c bad good = bad rest
  with_fault_undo_rule (false ∷ rest) k c bad good = good rest

  undo_call_rule :
      (k : Sql (Unit {0})) (c : Conn)
      → ((rest : List Bool) → P (err db_failed, record c { working = none; faults = rest }))
      → ((rest : List Bool) → P (k (record c { faults = rest })))
      → P ((or_rollback call >> k) c)
  unfolding call
  undo_call_rule k c bad good = with_fault_undo_rule c.faults k c bad good

  begin_rule :
      (k : Sql (Unit {0})) (stored : Db) (fs : List Bool)
      → ((rest : List Bool) → P (err db_failed, conn stored none rest))
      → ((rest : List Bool) → P (k (conn stored (some stored) rest)))
      → P ((begin_tx >> k) (conn stored none fs))
  unfolding call
  begin_rule k stored [] bad good = good []
  begin_rule k stored (true ∷ rest) bad good = bad rest
  begin_rule k stored (false ∷ rest) bad good = good rest

  -- A statement in the transaction that is accepted, and one that is refused.
  exec_rule :
      (f : Db → Result Db) (k : Sql (Unit {0})) (stored db db' : Db) (fs : List Bool)
      → f db ≡ ok db'
      → ((rest : List Bool) → P (err db_failed, conn stored none rest))
      → ((rest : List Bool) → P (k (conn stored (some db') rest)))
      → P ((or_rollback (exec_tx f) >> k) (conn stored (some db) fs))
  unfolding call
  exec_rule f k stored db db' [] e bad good = rw e (good [])
  exec_rule f k stored db db' (true ∷ rest) e bad good = bad rest
  exec_rule f k stored db db' (false ∷ rest) e bad good = rw e (good rest)

  refuse_rule :
      (f : Db → Result Db) (k : Sql (Unit {0})) (stored db : Db) (fs : List Bool)
      → f db ≡ err db_failed
      → ((rest : List Bool) → P (err db_failed, conn stored none rest))
      → P ((or_rollback (exec_tx f) >> k) (conn stored (some db) fs))
  unfolding call
  refuse_rule f k stored db [] e bad = rw e (bad [])
  refuse_rule f k stored db (true ∷ rest) e bad = bad rest
  refuse_rule f k stored db (false ∷ rest) e bad = rw e (bad rest)

  commit_rule :
      (stored db : Db) (fs : List Bool)
      → ((rest : List Bool) → P (err db_failed, conn stored none rest))
      → ((rest : List Bool) → P (ok tt, conn db none rest))
      → P (or_rollback commit (conn stored (some db) fs))
  unfolding call
  commit_rule stored db [] bad good = good []
  commit_rule stored db (true ∷ rest) bad good = bad rest
  commit_rule stored db (false ∷ rest) bad good = good rest

module _ (format_time : ℕ → String) (order : Order) where
  abbrev new_order : OrderRow
  new_order = order_row (format_time order.timestamp) order

  abbrev new_status : StatusRow
  new_status = pending_row (format_time order.timestamp) order

  -- What is stored with the order and its status.
  abbrev pub with_order : Db → Db
  with_order db = record {
    orders = db.orders ++ (new_order ∷ []);
    statuses = db.statuses ++ (new_status ∷ []);
  }

  -- Both rows are stored, or there is an error and nothing is; no transaction is left open.
  abbrev pub IsAtomic : Db → Result (Unit {0}) × Conn → Type 0
  IsAtomic db (r, c) =
      (c.working ≡ none)
      × (((r ≡ ok tt) × (c.stored ≡ with_order db) × (is_refused new_order db ≡ false))
          ⊎ ((r ≡ err db_failed) × (c.stored ≡ db)))

  accepted :
      (db : Db) (fs : List Bool)
      → is_refused new_order db ≡ false
      → IsAtomic db (
          (or_rollback (exec_tx (insert_order new_order))
              >> or_rollback call
              >> or_rollback (exec_tx (insert_status new_status))
              >> or_rollback commit)
            (conn db (some db) fs))
  accepted db fs fine =
      let bad : (rest : List Bool) → IsAtomic db (err db_failed, conn db none rest) =
        λ rest. (refl, inr (refl, refl)) in
      let mid : Db = record db { orders = db.orders ++ (new_order ∷ []) } in
      exec_rule (IsAtomic db) (insert_order new_order) _ db db mid fs (rw fine refl) bad (λ fs₁.
        undo_call_rule (IsAtomic db) _ (conn db (some mid) fs₁) bad (λ fs₂.
          exec_rule (IsAtomic db) (insert_status new_status) _ db mid (with_order db) fs₂ refl bad
            (λ fs₃.
              commit_rule (IsAtomic db) db (with_order db) fs₃ bad
                (λ rest. (refl, inl (refl, refl, fine))))))

  stored_or_not :
      (db : Db) (fs : List Bool)
      → IsAtomic db (
          (or_rollback (exec_tx (insert_order new_order))
              >> or_rollback call
              >> or_rollback (exec_tx (insert_status new_status))
              >> or_rollback commit)
            (conn db (some db) fs))
  stored_or_not db fs = elim (Bool-cases (is_refused new_order db)) [
    | inl refused ↦
        refuse_rule (IsAtomic db) (insert_order new_order) _ db db fs (rw refused refl)
          (λ rest. (refl, inr (refl, refl)))
    | inr fine ↦ accepted db fs fine
  ]

  -- Whichever calls of the driver fail, saveOrder either stores the order and one status for it, and
  -- reports success, or it reports an error and leaves what is stored as it was. It succeeds only for
  -- an order that is not stored already and whose amounts are below 2 ^ 63. No transaction is left
  -- open.
  pub save_order-IsAtomic :
      (db : Db) (faults : List Bool)
      → IsAtomic db (save_order format_time order (conn db none faults))
  unfolding save_order
  save_order-IsAtomic db faults =
      call_rule (IsAtomic db) _ (conn db none faults) (λ rest. (refl, inr (refl, refl)))
        (λ fs₁.
          begin_rule (IsAtomic db) _ db fs₁ (λ rest. (refl, inr (refl, refl)))
            (λ fs₂.
              undo_call_rule (IsAtomic db) _ (conn db (some db) fs₂)
                (λ rest. (refl, inr (refl, refl))) (λ fs₃. stored_or_not db fs₃)))
