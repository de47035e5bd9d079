-- ===== src/Watch/Act.antt =====
-- The state that the watcher works on: the world with the free list, and the order store.
use banco.Result.{Result, ok, err, panic}
use banco.Trade.Step.{Env, Step}
use banco.Store.Sql.{Conn, Sql}

-- The state of the program: the world with the free list, and the connection to the database.
pub record Net (World : Type 0) : Type 0 where
  pub env : Env World
  pub conn : Conn

abbrev pub Act : Type 0 → Type 0 → Type 0
Act World A = Net World → Result A × Net World

-- What is left of the result of a call whose error is not looked at.
abbrev pub forget : Result (Unit {0}) → Result (Unit {0})
forget (ok u) = ok tt
forget (err e) = ok tt
forget panic = panic

module _ {World : Type 0} where
  abbrev pub continue : {A B : Type 0} → Result A → (A → Act World B) → Act World B
  continue panic f n = (panic, n)
  continue (err e) f n = (err e, n)
  continue (ok a) f n = f a n

  infixr 5 ◌>>=◌ ◌>>◌
  abbrev pub ◌>>=◌ : {A B : Type 0} → Act World A → (A → Act World B) → Act World B
  ◌>>=◌ m f n = let (r, n') = m n in continue r f n'

  abbrev pub ◌>>◌ : {A B : Type 0} → Act World A → Act World B → Act World B
  m >> k = m >>= λ u. k

  abbrev pub on_store : {A : Type 0} → Sql A → Act World A
  on_store m n = let (r, c) = m n.conn in (r, record n { conn = c })

  abbrev pub on_env : {A : Type 0} → Step World A → Act World A
  on_env m n = let (r, e) = m n.env in (r, record n { env = e })

  abbrev pub ignored : Act World (Unit {0}) → Act World (Unit {0})
  ignored m n = let (r, n') = m n in (forget r, n')
